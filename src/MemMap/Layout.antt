-- ===== src/MemMap/Layout.antt =====
-- The slot operations of memmap.c keep the layout of the map.
use ya_vhost.Prelude.{
  ℕ, zero, suc, ◌+◌, ◌-◌, ◌^◌, ◌≤◌, ◌<◌, ◌≡◌, ap, false, ◌||◌, ◌⊎◌, ◌≢◌, inl, inr, none, some, List,
  [], ◌∷◌, ltb, ◌==◌, u64, length, get_elem?, insert_at, remove_at, arith, All, Pairs, Bool-cases,
  All-insert_at, All-remove_at, Pairs-insert_at, Pairs-remove_at, get_elem?-All, length-insert_at,
  length-remove_at_le, get_elem?-lt, get_elem?_of_lt,
}
use ya_vhost.Errno.{ok}
use ya_vhost.MemMap.Region.{Region, ram_slots_max}
use ya_vhost.MemMap.Translate.{IsSane, Apart}
use ya_vhost.MemMap.Os.{Os, Call, Documented, map_memory}
use ya_vhost.MemMap.Mapping.{map_memory-IsMapped, Result-cases}
use ya_vhost.MemMap.Slots.{
  MemoryMap, Callback, map_region, intersects, slot_position, memmap_add_slot, memmap_del_slot,
  find_slot,
}

-- The check of `vhd_memmap_add_slot`: the slots share no guest address, or share no master address.
abbrev pub Clear : Region → Region → Type 0
Clear r s = Apart (λ t. t.gpa) r s ⊎ Apart (λ t. t.uva) r s

abbrev pub Ordered : Region → Region → Type 0
Ordered r s = r.gpa ≤ s.gpa

pub record IsWellFormed (regs : List Region) : Type 0 where
  pub few : length regs ≤ ram_slots_max
  pub sane : All IsSane regs
  pub clear : Pairs Clear regs
  pub ordered : Pairs Ordered regs

-- The search finds no slot in the way exactly where the new one is clear of all.
pub intersects-Clear :
    (r : Region) (regs : List Region)
    → IsSane r
    → All IsSane regs
    → intersects r.gpa r.uva r.size regs ≡ false
    → All (λ s. Clear s r) regs
unfolding intersects
intersects-Clear r [] sane h e = tt
intersects-Clear r (s ∷ regs) sane h e =
    (ground arith, intersects-Clear r regs sane h.1 (ground arith))

Clear-sym : (r s : Region) → Clear r s → Clear s r
Clear-sym r s (inl (inl h)) = inl (inr h)
Clear-sym r s (inl (inr h)) = inl (inl h)
Clear-sym r s (inr (inl h)) = inr (inr h)
Clear-sym r s (inr (inr h)) = inr (inl h)

-- Where the position is, in an ordered list.
record IsPosition (regs : List Region) (gpa n pos : ℕ) : Type 0 where
  bound : pos ≤ n
  before : (j : ℕ) (s : Region) → get_elem? regs j ≡ some s → suc j ≡ pos → s.gpa < gpa
  after : (j : ℕ) (s : Region) → get_elem? regs j ≡ some s → pos ≤ j → j < n → gpa ≤ s.gpa

slot_position-IsPosition :
    (regs : List Region) (gpa n : ℕ) → IsPosition regs gpa n (slot_position regs gpa n)
unfolding slot_position
slot_position-IsPosition regs gpa zero = record {
  bound = omega arith;
  before = λ j s e h. absurd (omega arith);
  after = λ j s e p q. absurd (omega arith);
}
slot_position-IsPosition regs gpa (suc n) =
    let ih = slot_position-IsPosition regs gpa n in
    record {
      bound = ground (arith, ih.bound);
      before = λ j s e h. ground (arith, ih.before j s e);
      after = λ j s e p q. ground (arith, ih.after j s e);
    }

Ordered-get_elem? :
    (regs : List Region) (i j : ℕ) {r s : Region}
    → Pairs Ordered regs
    → get_elem? regs i ≡ some r
    → get_elem? regs j ≡ some s
    → i ≤ j
    → r.gpa ≤ s.gpa
Ordered-get_elem? [] i j h e f le = absurd (ground arith)
Ordered-get_elem? (t ∷ regs) zero zero h e f le = ground arith
Ordered-get_elem? (t ∷ regs) zero (suc j) h e f le =
    let b = get_elem?-All (Ordered t) regs j h.0 f in ground arith
Ordered-get_elem? (t ∷ regs) (suc i) zero h e f le = absurd (omega arith)
Ordered-get_elem? (t ∷ regs) (suc i) (suc j) h e f le =
    Ordered-get_elem? regs i j h.1 e f (omega arith)

-- The new slot goes between those that start below it and the others.
insert_at-Ordered :
    (v : Region) (regs : List Region)
    → Pairs Ordered regs
    → Pairs Ordered (insert_at (slot_position regs v.gpa (length regs)) v regs)
insert_at-Ordered v regs h = Pairs-insert_at Ordered pos v regs h before after
  where
    pos : ℕ
    pos = slot_position regs v.gpa (length regs)

    place : IsPosition regs v.gpa (length regs) pos
    place = slot_position-IsPosition regs v.gpa (length regs)

    last : (k : ℕ) → suc k ≡ pos → (s : Region) × (get_elem? regs k ≡ some s)
    last k e = get_elem?_of_lt regs k (omega (arith, place.bound))

    below :
        (k : ℕ)
        → suc k ≡ pos
        → (j : ℕ) (s : Region) → get_elem? regs j ≡ some s
        → j ≤ k
        → s.gpa ≤ v.gpa
    below k e j s f le =
        let (t, g) = last k e in
        let lo = place.before k t g e in let up = Ordered-get_elem? regs j k h f g le in omega arith

    before : (j : ℕ) (s : Region) → get_elem? regs j ≡ some s → j < pos → s.gpa ≤ v.gpa
    before j s f lt = below (pos - 1) (omega arith) j s f (omega arith)

    after : (j : ℕ) (s : Region) → get_elem? regs j ≡ some s → pos ≤ j → v.gpa ≤ s.gpa
    after j s f le = place.after j s f le (get_elem?-lt regs j f)

pub insert_at-IsWellFormed :
    (v : Region) (regs : List Region)
    → IsWellFormed regs
    → length regs < ram_slots_max
    → IsSane v
    → intersects v.gpa v.uva v.size regs ≡ false
    → IsWellFormed (insert_at (slot_position regs v.gpa (length regs)) v regs)
insert_at-IsWellFormed v regs w room sane free = record {
  few = omega (arith, length-insert_at pos v regs);
  sane = All-insert_at IsSane pos v regs sane w.sane;
  clear =
      Pairs-insert_at Clear pos v regs w.clear
        (λ j s e lt. get_elem?-All (λ s. Clear s v) regs j clear e)
        (λ j s e le. Clear-sym s v (get_elem?-All (λ s. Clear s v) regs j clear e));
  ordered = insert_at-Ordered v regs w.ordered;
}
  where
    pos : ℕ
    pos = slot_position regs v.gpa (length regs)

    clear : All (λ s. Clear s v) regs
    clear = intersects-Clear v regs sane w.sane free

pub remove_at-IsWellFormed :
    (i : ℕ) (regs : List Region) → IsWellFormed regs → IsWellFormed (remove_at i regs)
remove_at-IsWellFormed i regs w = record {
  few = omega (arith, w.few, length-remove_at_le i regs);
  sane = All-remove_at IsSane i regs w.sane;
  clear = Pairs-remove_at Clear i regs w.clear;
  ordered = Pairs-remove_at Ordered i regs w.ordered;
}

-- What `map_region` makes is the region that was asked for, at a sane place.
pub map_region-IsSane :
    {os : Os} (cb : Callback) (gpa uva size fd offset : ℕ) {r : Region} {calls : List Call}
    → Documented os
    → gpa + size < 2 ^ 64
    → uva + size < 2 ^ 64
    → map_region os cb gpa uva size fd offset ≡ (ok r, calls)
    → IsSane r × (r.gpa ≡ gpa) × (r.uva ≡ uva) × (r.size ≡ size) × (0 < r.size)
unfolding map_region
map_region-IsSane {os} cb gpa uva size fd offset {r} {calls} doc g u e =
    elim (Result-cases (map_memory os size fd offset).0) [
      | inr (b, h) ↦ absurd (ground arith)
      | inl (ptr, h) ↦
          let m =
            map_memory-IsMapped doc size fd offset {addr = ptr}
              {calls = (map_memory os size fd offset).1}
              (ap (λ q. (q, (map_memory os size fd offset).1)) h) in
          ground arith
    ]

-- An `add_slot` that changes the map has passed every check, and inserted the region that it mapped.
pub record IsAdded (os : Os) (mm : MemoryMap) (gpa uva size fd offset : ℕ) (mm' : MemoryMap)
    : Type 0 where
  pub region : Region
  pub is_mapped : (map_region os mm.map_cb gpa uva size fd offset).0 ≡ ok region
  pub gpa_end : gpa ≤ u64 (gpa + size)
  pub uva_end : uva ≤ u64 (uva + size)
  pub room : length mm.regions ≢ ram_slots_max
  pub free : intersects gpa uva size mm.regions ≡ false
  pub added : mm' ≡ record mm {
    regions = insert_at (slot_position mm.regions gpa (length mm.regions)) region mm.regions;
  }

pub add_slot-cases :
    (os : Os) (mm : MemoryMap) (gpa uva size fd offset : ℕ)
    → (((memmap_add_slot os mm gpa uva size fd offset).1 ≡ mm)
        × ((memmap_add_slot os mm gpa uva size fd offset).0 ≢ none))
      ⊎ (((memmap_add_slot os mm gpa uva size fd offset).0 ≡ none)
          × IsAdded os mm gpa uva size fd offset (memmap_add_slot os mm gpa uva size fd offset).1)
unfolding memmap_add_slot
add_slot-cases os mm gpa uva size fd offset =
    elim (Result-cases (map_region os mm.map_cb gpa uva size fd offset).0) [
      | inr (b, h) ↦ ground arith
      | inl (r, h) ↦ elim (Bool-cases (ltb (u64 (gpa + size)) gpa || ltb (u64 (uva + size)) uva)) [
        | inl t ↦ inl (ground arith, ground arith)
        | inr t ↦
            elim (Bool-cases
              (length mm.regions == ram_slots_max || intersects gpa uva size mm.regions)) [
                | inl f ↦ inl (ground arith, ground arith)
                | inr f ↦ inr (
                  ground arith,
                  record {
                    region = r;
                    is_mapped = h;
                    gpa_end = ground arith;
                    uva_end = ground arith;
                    room = ground arith;
                    free = ground arith;
                    added = ground arith;
                  },
                )
              ]
      ]
    ]

-- Adding a slot keeps the layout, whether it succeeds or fails: at most 32 slots, none of which
-- wraps, in the order of their guest addresses, and each two with no guest address or with no
-- master address in common. The arguments are 64-bit numbers, and the operating system does what
-- it documents.
pub add_slot-IsWellFormed :
    {os : Os} (mm : MemoryMap) (gpa uva size fd offset : ℕ)
    → Documented os
    → gpa < 2 ^ 64
    → uva < 2 ^ 64
    → size < 2 ^ 64
    → IsWellFormed mm.regions
    → IsWellFormed (memmap_add_slot os mm gpa uva size fd offset).1.regions
add_slot-IsWellFormed {os} mm gpa uva size fd offset doc g u z w =
    elim (add_slot-cases os mm gpa uva size fd offset) [
      | inl same ↦ rw same.0 w
      | inr (done, a) ↦
          let calls = (map_region os mm.map_cb gpa uva size fd offset).1 in
          let (sane, eg, eu, es, _) =
            map_region-IsSane mm.map_cb gpa uva size fd offset {r = a.region} {calls = calls} doc
              (omega (arith, a.gpa_end)) (omega (arith, a.uva_end))
              (ap (λ q. (q, calls)) a.is_mapped) in
          rw (a.added, ← eg)
            (insert_at-IsWellFormed a.region mm.regions w (omega (arith, w.few, a.room)) sane
              (rw (eg, eu, es) a.free))
    ]

del_slot-cases :
    (os : Os) (mm : MemoryMap) (gpa uva size : ℕ)
    → ((memmap_del_slot os mm gpa uva size).1 ≡ mm)
      ⊎ ((memmap_del_slot os mm gpa uva size).1
          ≡ record mm { regions = remove_at (find_slot gpa uva size mm.regions) mm.regions })
unfolding memmap_del_slot
del_slot-cases os mm gpa uva size = ground arith

-- Removing a slot keeps the layout that adding one keeps, whether it succeeds or fails.
pub del_slot-IsWellFormed :
    (os : Os) (mm : MemoryMap) (gpa uva size : ℕ)
    → IsWellFormed mm.regions
    → IsWellFormed (memmap_del_slot os mm gpa uva size).1.regions
del_slot-IsWellFormed os mm gpa uva size w = elim (del_slot-cases os mm gpa uva size) [
  | inl same ↦ rw same w
  | inr gone ↦ rw gone (remove_at-IsWellFormed (find_slot gpa uva size mm.regions) mm.regions w)
]

pub slot_position-le : (regs : List Region) (gpa n : ℕ) → slot_position regs gpa n ≤ n
slot_position-le regs gpa n = (slot_position-IsPosition regs gpa n).bound
