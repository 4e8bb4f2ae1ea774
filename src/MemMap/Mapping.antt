-- ===== src/MemMap/Mapping.antt =====
-- What `map_memory` and `unmap_memory` of memmap.c leave mapped.
use ya_vhost.Prelude.{
  ℕ, ◌+◌, ◌-◌, ◌*◌, ◌%◌, ◌^◌, ◌≤◌, ◌<◌, ◌≡◌, refl, Bool, false, not, ◌&&◌, ◌||◌, List, [], ◌∷◌,
  ◌++◌, u64, sub_u64, arith, ◌⊎◌, inl, inr,
}
use ya_vhost.Errno.{Errno, Result, ok, err}
use ya_vhost.MemMap.Os.{
  Os, Call, mapped, unmapped, told_map, told_unmap, reserve, shared_file, Documented, map_memory,
  unmap_memory, held_after, covers, align_up, page_size, huge_page_size,
}

pub Result-cases {ℓ} :
    {A : Type ℓ} (r : Result A) → ((a : A) × (r ≡ ok a)) ⊎ ((e : Errno) × (r ≡ err e))
Result-cases (ok a) = inl (a, refl)
Result-cases (err e) = inr (e, refl)

-- What a successful `map_memory` has fixed: where the memory is, and what the process holds.
pub record IsMapped (len addr : ℕ) (calls : List Call) : Type 0 where
  pub aligned : addr % huge_page_size ≡ 0
  pub guarded : page_size < addr
  pub nonempty : 0 < len
  pub bounded : addr + len ≤ 2 ^ 47
  pub held :
      (x : ℕ)
      → held_after false calls x
        ≡ covers (addr - page_size) (align_up len huge_page_size + page_size * 2) x

module _ {os : Os} (doc : Documented os) (len fd offset : ℕ) where
  abbrev map_len : ℕ
  map_len = u64 (align_up len huge_page_size + huge_page_size + page_size)

  abbrev aligned_addr : ℕ → ℕ
  aligned_addr base = align_up (u64 (base + page_size)) huge_page_size

  -- The facts of the arithmetic: the memory lies in the reservation, a page from both of its ends.
  record IsPlaced (base : ℕ) : Type 0 where
    start : base + page_size ≤ aligned_addr base
    wide : align_up len huge_page_size + huge_page_size + page_size ≡ map_len
    rounded : len ≤ align_up len huge_page_size
    fits : aligned_addr base + align_up len huge_page_size + page_size ≤ base + map_len
    low : base + map_len ≤ 2 ^ 47
    whole : aligned_addr base % huge_page_size ≡ 0

  placed :
      (base got : ℕ)
      → os.mmap (reserve map_len) ≡ ok base
      → os.mmap (shared_file (aligned_addr base) len fd offset) ≡ ok got
      → IsPlaced base
  placed base got h k =
      omega (arith, doc.reserves map_len base h, doc.fixes (aligned_addr base) len fd offset got k)

  pub map_memory-IsMapped :
      {addr : ℕ} {calls : List Call}
      → map_memory os len fd offset ≡ (ok addr, calls)
      → IsMapped len addr calls
  unfolding map_memory held_after
  map_memory-IsMapped {addr} {calls} e = elim (Result-cases (os.mmap (reserve map_len))) [
    | inr (b, h) ↦ absurd (ground arith)
    | inl (base, h) ↦
        elim (Result-cases (os.mmap (shared_file (aligned_addr base) len fd offset))) [
          | inr (b, k) ↦ absurd (ground arith)
          | inl (got, k) ↦
              let place = placed base got h k in
              let file = doc.fixes (aligned_addr base) len fd offset got k in
              record {
                aligned = ground arith;
                guarded = ground arith;
                nonempty = file.1;
                bounded = ground arith;
                held = λ x. ground arith;
              }
        ]
  ]

  -- A `map_memory` that fails leaves no byte mapped that was not mapped before, over an operating
  -- system that does what it documents.
  pub map_memory_undone :
      {e : Errno} {calls : List Call}
      → map_memory os len fd offset ≡ (err e, calls)
      → (x : ℕ) → held_after false calls x ≡ false
  unfolding map_memory held_after
  map_memory_undone {e} {calls} q x = elim (Result-cases (os.mmap (reserve map_len))) [
    | inr (b, h) ↦ ground arith
    | inl (base, h) ↦
        elim (Result-cases (os.mmap (shared_file (aligned_addr base) len fd offset))) [
          | inr (b, k) ↦ ground arith
          | inl (got, k) ↦
              let place = placed base got h k in
              let file = doc.fixes (aligned_addr base) len fd offset got k in ground arith
        ]
  ]

-- The calls of one function after those of another.
pub held_after-append :
    (b : Bool) (xs ys : List Call) (x : ℕ)
    → held_after b (xs ++ ys) x ≡ held_after (held_after b xs x) ys x
unfolding held_after
held_after-append b [] ys x = refl
held_after-append b (mapped a n ∷ xs) ys x = held_after-append (covers a n x || b) xs ys x
held_after-append b (unmapped a n ∷ xs) ys x = held_after-append (not (covers a n x) && b) xs ys x
held_after-append b (told_map a n ∷ xs) ys x = held_after-append b xs ys x
held_after-append b (told_unmap a n ∷ xs) ys x = held_after-append b xs ys x

covers_gone : (a n : ℕ) (x : ℕ) → not (covers a n x) && covers a n x ≡ false
covers_gone a n x = ground arith

-- A successful `map_memory` holds the memory rounded up to huge pages and one guard page on both
-- sides, nothing else; and `unmap_memory` at its address and length gives all of it back. That is
-- over an operating system that does what it documents, whose `munmap` succeeds.
pub unmap_memory-map_memory :
    {os : Os} (len fd offset : ℕ) {addr : ℕ} {calls : List Call}
    → Documented os
    → map_memory os len fd offset ≡ (ok addr, calls)
    → (x : ℕ)
    → (held_after false calls x
        ≡ covers (addr - page_size) (align_up len huge_page_size + page_size * 2) x)
      × (held_after false (calls ++ (unmap_memory os addr len).1) x ≡ false)
unfolding unmap_memory held_after
unmap_memory-map_memory {os} len fd offset {addr} {calls} doc e x =
    let m = map_memory-IsMapped doc len fd offset e in
    let held = m.held x in
    let wrap1 : sub_u64 addr page_size ≡ addr - page_size = omega arith in
    let wrap2 : u64 (align_up len huge_page_size + page_size * 2)
        ≡ align_up len huge_page_size + page_size * 2 =
      omega arith in
    (held, rw (held_after-append, wrap1, wrap2, held, held_after) (covers_gone _ _ x))
