-- ===== src/MemMap/Tests.antt =====
-- The memory map of memmap.c at concrete inputs, with an operating system that does as documented.
use ya_vhost.Prelude.{
  ℕ, ◌+◌, ◌-◌, ◌*◌, ◌^◌, ◌≡◌, refl, false, not, ◌&&◌, inl, Option, none, some, List, [], ◌∷◌, ◌++◌,
  ltb, leb, if◌then◌else◌, arith, All, ◌==◌,
}
use ya_vhost.Errno.{Errno, einval, os, Result, ok, err}
use ya_vhost.MemMap.Region.{Region, gpa_range_to_ptr}
use ya_vhost.MemMap.Translate.{IsSane, IsSeparated}
use ya_vhost.MemMap.Os.{
  Os, Call, mapped, unmapped, MmapRequest, reserve, shared_file, anonymous, Documented, map_memory,
  unmap_memory, held_after, covers,
}
use ya_vhost.MemMap.Mapping.{unmap_memory-map_memory}
use ya_vhost.MemMap.Slots.{
  MemoryMap, intersects, slot_position, map_region, unmap_region, memmap_add_slot, memmap_del_slot,
  memmap_ref, memmap_unref, memmap_release,
}
use ya_vhost.MemMap.Layout.{IsWellFormed, add_slot-IsWellFormed}
use ya_vhost.MemMap.RoundTrip.{CanUnmap, del_slot-add_slot}

-- Reservations at one address; the file with descriptor 9 cannot be mapped.
abbrev an_mmap : MmapRequest → Result ℕ
an_mmap (reserve len) = if leb len (2 ^ 46) then ok 0x10000000 else err (os 12)
an_mmap (shared_file addr len fd offset) =
    if ltb 0 len && leb (addr + len) (2 ^ 47) && not (fd == 9) then ok addr else err (os 22)
an_mmap (anonymous addr len) = ok addr

abbrev an_os : Os
an_os = record { mmap = an_mmap; munmap = λ addr len. none }

an_os-Documented : Documented an_os
an_os-Documented = record {
  reserves = λ len base e. ground arith;
  fixes = λ addr len fd offset got e. ground arith;
}

abbrev low : Region
low = record { gpa = 0; uva = 0x40000000; ptr = 0x10200000; size = 0x200000 }

abbrev high : Region
high = record { gpa = 0x200000; uva = 0x50000000; ptr = 0x20200000; size = 0x1000 }

abbrev two_regions : List Region
two_regions = low ∷ high ∷ []

two_regions-IsSane : All IsSane two_regions
two_regions-IsSane = (
  record { gpa_end = omega arith; uva_end = omega arith; ptr_end = omega arith },
  (record { gpa_end = omega arith; uva_end = omega arith; ptr_end = omega arith }, tt),
)

two_regions-IsSeparated :
    IsSeparated (λ r. r.gpa) two_regions
    × IsSeparated (λ r. r.uva) two_regions
    × IsSeparated (λ r. r.ptr) two_regions
two_regions-IsSeparated = (
  ((inl (omega arith), tt), (tt, tt)),
  ((inl (omega arith), tt), (tt, tt)),
  ((inl (omega arith), tt), (tt, tt)),
)

two_regions-IsWellFormed : IsWellFormed two_regions
two_regions-IsWellFormed = record {
  few = omega arith;
  sane = two_regions-IsSane;
  clear = ((inl (inl (omega arith)), tt), (tt, tt));
  ordered = ((omega arith, tt), (tt, tt));
}

translated : gpa_range_to_ptr two_regions 0x200010 0x20 ≡ some 0x20200010
unfolding gpa_range_to_ptr
translated = refl

-- A range that leaves its region is refused, though the next region begins where it ends.
refused : gpa_range_to_ptr two_regions 0x1ffff0 0x20 ≡ none
unfolding gpa_range_to_ptr
refused = refl

-- A memory of 2 MiB and one page: its tail is mapped to nothing, its guard pages are kept.
abbrev taken : List Call
taken =
    mapped 0x10000000 0x601000
    ∷ mapped 0x10200000 0x201000
    ∷ mapped 0x10401000 0x1ff000
    ∷ unmapped 0x10000000 0x1ff000
    ∷ unmapped 0x10601000 0
    ∷ []

mapped_once : map_memory an_os 0x201000 3 0 ≡ (ok 0x10200000, taken)
unfolding map_memory
mapped_once = refl

unmap_memory-map_memory_example :
    (held_after false taken 0x105ffff0
      ≡ covers (0x10200000 - 0x1000) (0x400000 + 0x1000 * 2) 0x105ffff0)
    × (held_after false (taken ++ (unmap_memory an_os 0x10200000 0x201000).1) 0x105ffff0 ≡ false)
unmap_memory-map_memory_example =
    unmap_memory-map_memory 0x201000 3 0 an_os-Documented mapped_once 0x105ffff0

failed_once :
    map_memory an_os 0x201000 9 0
    ≡ (err (os 22), mapped 0x10000000 0x601000 ∷ unmapped 0x10000000 0x601000 ∷ [])
unfolding map_memory
failed_once = refl

abbrev held : MemoryMap
held = record { refcount = 1; map_cb = none; unmap_cb = none; regions = two_regions }

-- A slot behind the two of `held` is added, and one inside the first of them is refused.
added_third : (memmap_add_slot an_os held 0x300000 0x60000000 0x1000 3 0).0 ≡ none
unfolding memmap_add_slot slot_position intersects map_region map_memory
added_third = refl

refused_third : memmap_add_slot an_os held 0x100000 0x40100000 0x1000 3 0 ≡ (some einval, held, [])
unfolding memmap_add_slot intersects
refused_third = refl

add_slot-IsWellFormed_example :
    IsWellFormed (memmap_add_slot an_os held 0x300000 0x60000000 0x1000 3 0).1.regions
add_slot-IsWellFormed_example =
    add_slot-IsWellFormed held 0x300000 0x60000000 0x1000 3 0 an_os-Documented (omega arith)
      (omega arith) (omega arith) two_regions-IsWellFormed

an_os-CanUnmap : CanUnmap an_os none
an_os-CanUnmap = record { allows = λ addr len. refl; unmaps = λ addr len. refl }

del_slot-add_slot_example :
    let mm' = (memmap_add_slot an_os held 0x300000 0x60000000 0x1000 3 0).1 in
    ((memmap_del_slot an_os mm' 0x300000 0x60000000 0x1000).0 ≡ none)
    × ((memmap_del_slot an_os mm' 0x300000 0x60000000 0x1000).1 ≡ held)
del_slot-add_slot_example =
    del_slot-add_slot held 0x300000 0x60000000 0x1000 3 0 an_os-Documented an_os-CanUnmap
      (omega arith) (omega arith) (omega arith) two_regions-IsWellFormed added_third

abbrev alone : MemoryMap
alone = record { refcount = 1; map_cb = none; unmap_cb = none; regions = low ∷ [] }

abbrev intruder : Region
intruder = record { gpa = 0; uva = 0x10000000; ptr = 0x10200000; size = 0x200000 }

intruder_mapped : (map_region an_os none 0 0x10000000 0x200000 3 0).0 ≡ ok intruder
unfolding map_region map_memory
intruder_mapped = refl

abbrev refuses : ℕ → ℕ → Option Errno
refuses addr len = some (os 5)

mapped_then : (map_memory an_os 0x201000 3 0).0 ≡ ok 0x10200000
unfolding map_memory
mapped_then = refl

-- The last reference takes every region with it; an earlier one does not.
released_last :
    memmap_unref an_os held
    ≡ (none, unmapped 0x101ff000 0x202000 ∷ unmapped 0x201ff000 0x202000 ∷ [])
unfolding memmap_unref memmap_release unmap_region unmap_memory
released_last = refl

released_first : memmap_unref an_os (memmap_ref held) ≡ (some held, [])
unfolding memmap_unref memmap_ref
released_first = refl
