-- ===== src/MemMap/RoundTrip.antt =====
-- Adding a slot and removing it again, and what the checks and the error path of memmap.c miss.
use ya_vhost.Prelude.{
  ℕ, zero, suc, ◌+◌, ◌-◌, ◌*◌, ◌^◌, ◌≤◌, ◌<◌, ◌≡◌, ap, true, false, inl, inr, Option, none, some,
  List, [], ◌∷◌, ◌++◌, u64, sub_u64, length, insert_at, arith, All, remove_at-insert_at,
  get_elem?-insert_at,
}
use ya_vhost.Errno.{Errno, ok, err}
use ya_vhost.MemMap.Region.{Region}
use ya_vhost.MemMap.Translate.{IsSane, Apart, IsSeparated}
use ya_vhost.MemMap.Os.{
  Os, Documented, map_memory, unmap_memory, held_after, align_up, huge_page_size, page_size,
  unmapped, told_map,
}
use ya_vhost.MemMap.Mapping.{map_memory-IsMapped, held_after-append}
use ya_vhost.MemMap.Slots.{
  MemoryMap, Callback, ask, map_region, unmap_region, intersects, slot_position, memmap_add_slot,
  memmap_del_slot, find_slot,
}
use ya_vhost.MemMap.Layout.{
  Clear, IsWellFormed, add_slot-cases, map_region-IsSane, intersects-Clear, slot_position-le,
}

-- The search finds the new slot, since no slot that is clear of it has its addresses and size.
find_slot-insert_at :
    (i : ℕ) (r : Region) (regs : List Region)
    → All (λ s. Clear s r) regs
    → 0 < r.size
    → i ≤ length regs
    → find_slot r.gpa r.uva r.size (insert_at i r regs) ≡ i
unfolding find_slot
find_slot-insert_at zero r regs c z le = ground arith
find_slot-insert_at (suc i) r [] c z le = absurd (omega arith)
find_slot-insert_at (suc i) r (s ∷ regs) c z le =
    let ih = find_slot-insert_at i r regs c.1 z (omega arith) in ground arith

-- What can refuse an unmapping: neither the callback nor `munmap` does.
pub record CanUnmap (os : Os) (cb : Callback) : Type 0 where
  pub allows : (addr len : ℕ) → ask cb addr len ≡ none
  pub unmaps : (addr len : ℕ) → os.munmap addr len ≡ none

unmap_region-none :
    {os : Os} {cb : Callback} (reg : Region) → CanUnmap os cb → (unmap_region os cb reg).0 ≡ none
unfolding unmap_region unmap_memory
unmap_region-none {os} {cb} reg c = ground (
  arith,
  c.allows reg.ptr (align_up reg.size huge_page_size),
  c.unmaps (sub_u64 reg.ptr page_size) (u64 (align_up reg.size huge_page_size + page_size * 2)),
)

del_slot-found :
    {os : Os} (mm : MemoryMap) (r : Region) (i : ℕ)
    → CanUnmap os mm.unmap_cb
    → All (λ s. Clear s r) mm.regions
    → 0 < r.size
    → i ≤ length mm.regions
    → let mm' = record mm { regions = insert_at i r mm.regions } in
      ((memmap_del_slot os mm' r.gpa r.uva r.size).0 ≡ none)
      × ((memmap_del_slot os mm' r.gpa r.uva r.size).1 ≡ mm)
unfolding memmap_del_slot
del_slot-found {os} mm r i can c z le = ground (
  arith,
  find_slot-insert_at i r mm.regions c z le,
  get_elem?-insert_at i r mm.regions le,
  remove_at-insert_at i r mm.regions le,
  unmap_region-none r can,
)

-- Removing the slot that was just added succeeds and gives back the map as it was, with its order,
-- where neither the callback nor the system refuses to unmap. The arguments are 64-bit numbers,
-- the map has the layout, and the operating system does what it documents.
pub del_slot-add_slot :
    {os : Os} (mm : MemoryMap) (gpa uva size fd offset : ℕ)
    → Documented os
    → CanUnmap os mm.unmap_cb
    → gpa < 2 ^ 64
    → uva < 2 ^ 64
    → size < 2 ^ 64
    → IsWellFormed mm.regions
    → (memmap_add_slot os mm gpa uva size fd offset).0 ≡ none
    → let mm' = (memmap_add_slot os mm gpa uva size fd offset).1 in
      ((memmap_del_slot os mm' gpa uva size).0 ≡ none)
      × ((memmap_del_slot os mm' gpa uva size).1 ≡ mm)
del_slot-add_slot {os} mm gpa uva size fd offset doc can g u z w e =
    elim (add_slot-cases os mm gpa uva size fd offset) [
      | inl (same, bad) ↦ absurd (bad e)
      | inr (done, a) ↦
          let calls = (map_region os mm.map_cb gpa uva size fd offset).1 in
          let q : map_region os mm.map_cb gpa uva size fd offset ≡ (ok a.region, calls) =
            ap (λ r. (r, calls)) a.is_mapped in
          let (sane, eg, eu, es, pos) =
            map_region-IsSane mm.map_cb gpa uva size fd offset {r = a.region} {calls = calls} doc
              (omega (arith, a.gpa_end)) (omega (arith, a.uva_end)) q in
          let free : intersects a.region.gpa a.region.uva a.region.size mm.regions ≡ false =
            rw (eg, eu, es) a.free in
          rw (a.added, ← eg, ← eu, ← es)
            (del_slot-found mm a.region (slot_position mm.regions a.region.gpa (length mm.regions))
              can (intersects-Clear a.region mm.regions sane w.sane free) pos
              (slot_position-le mm.regions a.region.gpa (length mm.regions)))
    ]

add_slot-one :
    (os : Os) (mm : MemoryMap) (r : Region) (uva fd offset : ℕ) {region : Region}
    → IsSane r
    → mm.regions ≡ r ∷ []
    → uva + r.size ≤ r.uva
    → (map_region os mm.map_cb r.gpa uva r.size fd offset).0 ≡ ok region
    → ((memmap_add_slot os mm r.gpa uva r.size fd offset).0 ≡ none)
      × ((memmap_add_slot os mm r.gpa uva r.size fd offset).1.regions ≡ region ∷ r ∷ [])
unfolding memmap_add_slot intersects slot_position
add_slot-one os mm r uva fd offset sane one below m = ground arith

same_gpa_not_Apart :
    (r s : Region) → 0 < s.size → r.gpa ≡ s.gpa → r.size ≡ s.size → ¬ Apart (λ t. t.gpa) r s
same_gpa_not_Apart r s pos e f h = ground arith

-- A map of one slot accepts a second slot of the same guest addresses, if its master addresses are
-- below those of the first and `map_region` succeeds; the map then has two slots for one guest
-- address. The first slot is not empty and does not wrap.
pub add_slot_shares_gpa :
    {os : Os} (mm : MemoryMap) (r : Region) (uva fd offset : ℕ)
    → Documented os
    → IsSane r
    → mm.regions ≡ r ∷ []
    → 0 < r.size
    → uva + r.size ≤ r.uva
    → (region : Region) → (map_region os mm.map_cb r.gpa uva r.size fd offset).0 ≡ ok region
    → ((memmap_add_slot os mm r.gpa uva r.size fd offset).0 ≡ none)
      × ¬ IsSeparated (λ s. s.gpa) (memmap_add_slot os mm r.gpa uva r.size fd offset).1.regions
add_slot_shares_gpa {os} mm r uva fd offset doc sane one pos below region m =
    let calls = (map_region os mm.map_cb r.gpa uva r.size fd offset).1 in
    let (_, eg, _, es, _) =
      map_region-IsSane mm.map_cb r.gpa uva r.size fd offset {r = region} {calls = calls} doc
        (omega arith) (omega arith) (ap (λ q. (q, calls)) m) in
    let (done, two) = add_slot-one os mm r uva fd offset sane one below m in
    (done, λ s. same_gpa_not_Apart region r pos eg es (rw two at s).0.0)

-- A `map_region` whose callback fails returns that error and keeps the last byte of the guard page
-- below the memory mapped, over an operating system that does what it documents.
pub map_region_leaks :
    {os : Os} (cb : ℕ → ℕ → Option Errno) (gpa uva size fd offset : ℕ) {ptr : ℕ} {e : Errno}
    → Documented os
    → (map_memory os size fd offset).0 ≡ ok ptr
    → cb ptr (align_up size huge_page_size) ≡ some e
    → ((map_region os (some cb) gpa uva size fd offset).0 ≡ err e)
      × (held_after false (map_region os (some cb) gpa uva size fd offset).1 (ptr - 1) ≡ true)
unfolding map_region held_after
map_region_leaks {os} cb gpa uva size fd offset {ptr} {e} doc m fails =
    let calls = (map_memory os size fd offset).1 in
    let q : map_memory os size fd offset ≡ (ok ptr, calls) = ap (λ r. (r, calls)) m in
    let mapping = map_memory-IsMapped doc size fd offset q in
    ground (
      arith,
      mapping.held (ptr - 1),
      mapping.guarded,
      held_after-append false (calls ++ told_map ptr (align_up size huge_page_size) ∷ [])
          (unmapped ptr size ∷ []) (ptr - 1),
      held_after-append false calls (told_map ptr (align_up size huge_page_size) ∷ []) (ptr - 1),
    )
