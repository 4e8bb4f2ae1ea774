-- ===== src/MemMap/Os.antt =====
-- `map_memory` and `unmap_memory` of memmap.c over the system calls that they make.
use ya_vhost.Prelude.{
  ℕ, ◌+◌, ◌-◌, ◌*◌, ◌/◌, ◌%◌, ◌^◌, ◌≤◌, ◌<◌, ◌≡◌, Bool, not, ◌&&◌, ◌||◌, Option, List, [], ◌∷◌,
  ◌++◌, ltb, leb, ◌==◌, if◌then◌else◌, u64, sub_u64,
}
use ya_vhost.Errno.{Errno, Result, ok, err}

abbrev pub page_size : ℕ
page_size = 0x1000

abbrev pub huge_page_size : ℕ
huge_page_size = 0x200000

-- `VHD_ALIGN_UP` on 64 bits, for a power of two `a`: clearing the low bits is rounding down.
abbrev pub align_up : ℕ → ℕ → ℕ
align_up x a = u64 (x + (a - 1)) / a * a

-- The arguments of the three `mmap` calls that `map_memory` makes.
pub data MmapRequest : Type 0 where
  reserve : (len : ℕ) → MmapRequest  -- anywhere, PROT_NONE
  shared_file : (addr len fd offset : ℕ) → MmapRequest  -- MAP_FIXED, over the reservation
  anonymous : (addr len : ℕ) → MmapRequest  -- MAP_FIXED, the tail

-- The operating system answers a call as it likes.
pub record Os : Type 0 where
  pub mmap : MmapRequest → Result ℕ
  pub munmap : ℕ → ℕ → Option Errno

-- What a function of memmap.c did outside its own memory, in order: a successful `mmap`, a
-- `munmap`, and the two callbacks of the map.
pub data Call : Type 0 where
  mapped unmapped told_map told_unmap : (addr len : ℕ) → Call

unfoldable pub map_memory : Os → ℕ → ℕ → ℕ → Result ℕ × List Call
map_memory os len fd offset = elim (os.mmap (reserve map_len)) [
  | err e ↦ (err e, [])
  | ok base ↦
      let aligned_addr = align_up (u64 (base + page_size)) huge_page_size in
      elim (os.mmap (shared_file aligned_addr len fd offset)) [
        | err e ↦ (err e, mapped base map_len ∷ unmapped base map_len ∷ [])
        | ok addr ↦
            let reserved = mapped base map_len ∷ mapped addr len ∷ [] in
            let start = u64 (addr + 2 ^ 64 - page_size) in
            let end = u64 (addr + aligned_len + page_size) in
            let trimmed =
              unmapped base (sub_u64 start base)
              ∷ unmapped end (sub_u64 (u64 (base + map_len)) end)
              ∷ [] in
            if tail_len == 0
            then (ok addr, reserved ++ trimmed)
            else elim (os.mmap (anonymous (u64 (addr + len)) tail_len)) [
              | err e ↦ (err e, reserved ++ unmapped base map_len ∷ [])
              | ok tail ↦ (ok addr, reserved ++ (mapped (u64 (addr + len)) tail_len ∷ trimmed))
            ]
      ]
]
  where
    aligned_len : ℕ
    aligned_len = align_up len huge_page_size

    map_len : ℕ
    map_len = u64 (aligned_len + huge_page_size + page_size)

    tail_len : ℕ
    tail_len = sub_u64 aligned_len len

unfoldable pub unmap_memory : Os → ℕ → ℕ → Option Errno × List Call
unmap_memory os addr len = (os.munmap base map_len, unmapped base map_len ∷ [])
  where
    map_len : ℕ
    map_len = u64 (align_up len huge_page_size + page_size * 2)

    base : ℕ
    base = sub_u64 addr page_size

-- Whether the byte `x` is mapped after the calls, if it was mapped before as `b` says.
abbrev pub covers : ℕ → ℕ → ℕ → Bool
covers addr len x = leb addr x && ltb x (addr + len)

unfoldable pub held_after : Bool → List Call → ℕ → Bool
held_after b [] x = b
held_after b (mapped addr len ∷ calls) x = held_after (covers addr len x || b) calls x
held_after b (unmapped addr len ∷ calls) x = held_after (not (covers addr len x) && b) calls x
held_after b (told_map addr len ∷ calls) x = held_after b calls x
held_after b (told_unmap addr len ∷ calls) x = held_after b calls x

-- What `mmap` documents: a reservation is page-aligned and in the user half of the address space,
-- and a fixed mapping is where it was asked for, not empty, and in that half too.
pub record Documented (os : Os) : Type 0 where
  pub reserves :
      (len base : ℕ)
      → os.mmap (reserve len) ≡ ok base
      → (base % page_size ≡ 0) × (base + len ≤ 2 ^ 47) × (0 < base)
  pub fixes :
      (addr len fd offset got : ℕ)
      → os.mmap (shared_file addr len fd offset) ≡ ok got
      → (got ≡ addr) × (0 < len) × (addr + len ≤ 2 ^ 47)
