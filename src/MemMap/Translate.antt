-- ===== src/MemMap/Translate.antt =====
-- What the translations of memmap.c guarantee over well-formed regions.
use ya_vhost.Prelude.{
  ℕ, suc, ◌+◌, ◌-◌, ◌^◌, ◌≤◌, ◌<◌, ◌≡◌, refl, ◌⊎◌, inl, inr, none, some, List, [], ◌∷◌, true, ◌&&◌,
  ◌||◌, ltb, leb, u64, sub_u64, arith, All, zero, get_elem?, get_elem?-All, Pairs, Bool-cases,
  if◌then◌else◌,
}
use ya_vhost.MemMap.Region.{Region, uva_to_ptr, ptr_to_gpa, gpa_range_to_ptr}

-- The ends of the region do not wrap, in any of the three address spaces: for `gpa` and `uva` the
-- slot operations see to it, for `ptr` the user half of the address space does.
pub record IsSane (r : Region) : Type 0 where
  pub gpa_end : r.gpa + r.size < 2 ^ 64
  pub uva_end : r.uva + r.size < 2 ^ 64
  pub ptr_end : r.ptr + r.size ≤ 2 ^ 47

-- Ranges of two regions have no address in common, in one of the address spaces.
abbrev pub Apart : (Region → ℕ) → Region → Region → Type 0
Apart base r s = (base r + r.size ≤ base s) ⊎ (base s + s.size ≤ base r)

abbrev pub IsSeparated : (Region → ℕ) → List Region → Type 0
IsSeparated base = Pairs (Apart base)

-- `p` is the image of the guest range in the region `r`, which holds the range whole.
pub record IsImage (r : Region) (gpa len p : ℕ) : Type 0 where
  pub starts : r.gpa ≤ gpa
  pub inside : gpa < r.gpa + r.size
  pub fits : gpa + len ≤ r.gpa + r.size
  pub image : p ≡ r.ptr + (gpa - r.gpa)

here-IsImage :
    (r : Region) (gpa len : ℕ) {p : ℕ}
    → IsSane r
    → gpa < 2 ^ 64
    → leb r.gpa gpa && ltb (sub_u64 gpa r.gpa) r.size ≡ true
    → (if ltb r.size len || ltb r.size (u64 (sub_u64 gpa r.gpa + len))
        then none
        else some (u64 (r.ptr + sub_u64 gpa r.gpa)))
      ≡ some p
    → IsImage r gpa len p
here-IsImage r gpa len s g t e = ground arith

module _ (Q : Region → Type 0) where
  -- A translated range lies whole in one region of the list.
  pub gpa_range_to_ptr-IsImage :
      (regs : List Region) (gpa len : ℕ) {p : ℕ}
      → All IsSane regs
      → All Q regs
      → gpa < 2 ^ 64
      → gpa_range_to_ptr regs gpa len ≡ some p
      → (r : Region) × IsSane r × Q r × IsImage r gpa len p
  unfolding gpa_range_to_ptr
  gpa_range_to_ptr-IsImage [] gpa len s q g e = absurd (ground arith)
  gpa_range_to_ptr-IsImage (r ∷ regs) gpa len s q g e =
      elim (Bool-cases (leb r.gpa gpa && ltb (sub_u64 gpa r.gpa) r.size)) [
        | inl t ↦ (r, s.0, q.0, here-IsImage r gpa len s.0 g t (rw t at e))
        | inr t ↦ gpa_range_to_ptr-IsImage regs gpa len s.1 q.1 g (rw t at e)
      ]

-- An address inside one region is translated back through that region only.
ptr_to_gpa-Apart :
    (r : Region) (regs : List Region) (ptr : ℕ)
    → All IsSane regs
    → All (Apart (λ s. s.ptr) r) regs
    → r.ptr ≤ ptr
    → ptr < r.ptr + r.size
    → ptr_to_gpa regs ptr ≡ none
unfolding ptr_to_gpa
ptr_to_gpa-Apart r [] ptr s d lo hi = refl
ptr_to_gpa-Apart r (t ∷ regs) ptr s d lo hi =
    ground (arith, ptr_to_gpa-Apart r regs ptr s.1 d.1 lo hi)

-- The guest address of a translated range comes back from its pointer: over regions that do not
-- wrap and of which no two share an address of this process, `ptr_to_gpa` undoes
-- `gpa_range_to_ptr` at every 64-bit guest address.
pub ptr_to_gpa-gpa_range_to_ptr :
    (regs : List Region) (gpa len : ℕ) {p : ℕ}
    → All IsSane regs
    → IsSeparated (λ r. r.ptr) regs
    → gpa < 2 ^ 64
    → gpa_range_to_ptr regs gpa len ≡ some p
    → ptr_to_gpa regs p ≡ some gpa
unfolding gpa_range_to_ptr ptr_to_gpa
ptr_to_gpa-gpa_range_to_ptr [] gpa len s d g e = absurd (ground arith)
ptr_to_gpa-gpa_range_to_ptr (r ∷ regs) gpa len {p} s d g e =
    elim (Bool-cases (leb r.gpa gpa && ltb (sub_u64 gpa r.gpa) r.size)) [
      | inl t ↦ let image = here-IsImage r gpa len s.0 g t (rw t at e) in ground arith
      | inr t ↦
          let found =
            gpa_range_to_ptr-IsImage (Apart (λ s. s.ptr) r) regs gpa len s.1 d.0 g (rw t at e) in
          let rest = ptr_to_gpa-gpa_range_to_ptr regs gpa len s.1 d.1 g (rw t at e) in ground arith
    ]

-- A guest range that starts in one of the regions and lies whole in it is translated, to its place
-- in that region, over regions that do not wrap and of which no two share a guest address.
pub gpa_range_to_ptr-get_elem? :
    (regs : List Region) (n : ℕ) (r : Region) (gpa len : ℕ)
    → All IsSane regs
    → IsSeparated (λ s. s.gpa) regs
    → get_elem? regs n ≡ some r
    → r.gpa ≤ gpa
    → gpa < r.gpa + r.size
    → gpa + len ≤ r.gpa + r.size
    → gpa_range_to_ptr regs gpa len ≡ some (r.ptr + (gpa - r.gpa))
unfolding gpa_range_to_ptr
gpa_range_to_ptr-get_elem? [] n r gpa len s d e lo hi fits = absurd (ground arith)
gpa_range_to_ptr-get_elem? (q ∷ regs) zero r gpa len s d e lo hi fits = ground arith
gpa_range_to_ptr-get_elem? (q ∷ regs) (suc n) r gpa len s d e lo hi fits =
    let sane = get_elem?-All IsSane regs n s.1 e in
    let apart = get_elem?-All (Apart (λ t. t.gpa) q) regs n d.0 e in
    ground (arith, gpa_range_to_ptr-get_elem? regs n r gpa len s.1 d.1 e lo hi fits)

-- A translated range is contiguous: every byte of it has, alone, the translation that its offset
-- asks for, over regions that do not wrap and of which no two share a guest address.
pub gpa_range_to_ptr_bytes :
    (regs : List Region) (gpa len i : ℕ) {p : ℕ}
    → All IsSane regs
    → IsSeparated (λ s. s.gpa) regs
    → gpa < 2 ^ 64
    → gpa_range_to_ptr regs gpa len ≡ some p
    → i < len
    → gpa_range_to_ptr regs (gpa + i) 1 ≡ some (p + i)
unfolding gpa_range_to_ptr
gpa_range_to_ptr_bytes [] gpa len i s d g e lt = absurd (ground arith)
gpa_range_to_ptr_bytes (r ∷ regs) gpa len i {p} s d g e lt =
    elim (Bool-cases (leb r.gpa gpa && ltb (sub_u64 gpa r.gpa) r.size)) [
      | inl t ↦ let image = here-IsImage r gpa len s.0 g t (rw t at e) in ground arith
      | inr t ↦
          let found =
            gpa_range_to_ptr-IsImage (Apart (λ s. s.gpa) r) regs gpa len s.1 d.0 g (rw t at e) in
          let rest = gpa_range_to_ptr_bytes regs gpa len i s.1 d.1 g (rw t at e) lt in ground arith
    ]

-- A master address in one of the regions is translated to its place in that region, over regions
-- that do not wrap and of which no two share a master address.
pub uva_to_ptr-get_elem? :
    (regs : List Region) (n : ℕ) (r : Region) (uva : ℕ)
    → All IsSane regs
    → IsSeparated (λ s. s.uva) regs
    → get_elem? regs n ≡ some r
    → r.uva ≤ uva
    → uva < r.uva + r.size
    → uva_to_ptr regs uva ≡ some (r.ptr + (uva - r.uva))
unfolding uva_to_ptr
uva_to_ptr-get_elem? [] n r uva s d e lo hi = absurd (ground arith)
uva_to_ptr-get_elem? (q ∷ regs) zero r uva s d e lo hi = ground arith
uva_to_ptr-get_elem? (q ∷ regs) (suc n) r uva s d e lo hi =
    let sane = get_elem?-All IsSane regs n s.1 e in
    let apart = get_elem?-All (Apart (λ t. t.uva) q) regs n d.0 e in
    ground (arith, uva_to_ptr-get_elem? regs n r uva s.1 d.1 e lo hi)
