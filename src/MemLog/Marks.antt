-- ===== src/MemLog/Marks.antt =====
-- Which pages `vhd_mark_gpa_range_dirty` marks.
use ya_vhost.Prelude.{
  ℕ, zero, suc, ◌+◌, ◌-◌, ◌*◌, ◌/◌, ◌%◌, ◌^◌, ◌≤◌, ◌<◌, ◌≡◌, refl, Bool, false, ◌&&◌, ◌||◌, ◌⊎◌,
  inl, inr, some, List, leb, ltb, ◌==◌, u64, sub_u64, arith, Bool-cases, Option-cases, leb→le, All,
}
use ya_vhost.MemMap.Region.{Region, gpa_range_to_ptr, ptr_to_gpa}
use ya_vhost.MemMap.Translate.{IsSane, IsSeparated, ptr_to_gpa-gpa_range_to_ptr}
use ya_vhost.MemLog.Log.{
  Word, MemoryLog, vhost_log_page, set_bit, or_chunk, fill_mask, mark_chunks, mark_pages,
  mark_gpa_range_dirty, mark_range_dirty, is_dirty,
}

-- What the inner loop has done: it has set the bits of the pages from `page` up to `stop`, which is
-- past the last page or at the end of the word.
record IsFilled (chunk last page : ℕ) (mask : Word) (stop : ℕ) (mask' : Word) : Type 0 where
  from : page ≤ stop
  inside : stop ≤ chunk * 64 + 64
  ended : (last < stop) ⊎ (stop ≡ chunk * 64 + 64)
  reached : (stop ≡ page) ⊎ (stop ≤ last + 1)
  bits :
      (k : ℕ)
      → k < 64
      → mask' k ≡ mask k || (leb page (chunk * 64 + k) && ltb (chunk * 64 + k) stop)

fill_mask-IsFilled :
    (fuel chunk last page : ℕ) (mask : Word)
    → last < 2 ^ 53
    → chunk * 64 ≤ page
    → page ≤ chunk * 64 + 64
    → chunk * 64 + 64 < page + fuel
    → (stop : ℕ) × (mask' : Word) × (fill_mask fuel chunk last page mask ≡ some (stop, mask'))
      × IsFilled chunk last page mask stop mask'
unfolding fill_mask
fill_mask-IsFilled zero chunk last page mask l lo hi f = absurd (omega arith)
fill_mask-IsFilled (suc fuel) chunk last page mask l lo hi f =
    elim (Bool-cases (leb page last && page / 64 == chunk)) [
      | inl t ↦
          let (stop, mask', e, filled) =
            fill_mask-IsFilled fuel chunk last (page + 1) (set_bit mask (page % 64)) l (omega arith)
              (ground arith) (omega arith) in
          (
            stop,
            mask',
            ground arith,
            record {
              from = omega arith;
              inside = filled.inside;
              ended = filled.ended;
              reached = ground arith;
              bits = λ k lt. ground (arith, filled.bits k lt);
            },
          )
      | inr t ↦ (
        page,
        mask,
        ground arith,
        record {
          from = omega arith;
          inside = hi;
          ended = ground arith;
          reached = inl refl;
          bits = λ k lt. ground arith;
        },
      )
    ]

-- What the outer loop has done, from `page` on.
IsMarked : (ℕ → Word) → (last page : ℕ) → (ℕ → Word) → Type 0
IsMarked words last page words' =
    (c k : ℕ) → k < 64 → words' c k ≡ words c k || (leb page (c * 64 + k) && leb (c * 64 + k) last)

-- One word, and then the rest.
mark_word :
    (words : ℕ → Word) (last page stop : ℕ) (mask : Word)
    → IsFilled (page / 64) last page (λ _. false) stop mask
    → (c k : ℕ) → k < 64
    → or_chunk words (page / 64) mask c k
      ≡ words c k || (leb page (c * 64 + k) && ltb (c * 64 + k) stop)
mark_word words last page stop mask f c k lt = ground (arith, f.bits k lt)

-- The pages of the word and those after it make up the range; so does the word alone at the end.
marks_join :
    (page stop last x : ℕ) (w : Bool) {b b' : Bool}
    → page ≤ stop
    → stop ≤ last
    → b ≡ w || (leb page x && ltb x stop)
    → b' ≡ b || (leb stop x && leb x last)
    → b' ≡ w || (leb page x && leb x last)
marks_join page stop last x w p q e f = ground arith

marks_end :
    (page stop last x : ℕ) (w : Bool) {b : Bool}
    → leb stop last ≡ false
    → (stop ≡ page) ⊎ (stop ≤ last + 1)
    → b ≡ w || (leb page x && ltb x stop)
    → b ≡ w || (leb page x && leb x last)
marks_end page stop last x w t r e = ground arith

mark_chunks-IsMarked :
    (fuel : ℕ) (words : ℕ → Word) (last page : ℕ)
    → last < 2 ^ 53
    → 0 < fuel
    → last < page + fuel
    → (words' : ℕ → Word) × (mark_chunks fuel words last page ≡ some words')
      × IsMarked words last page words'
unfolding mark_chunks IsMarked
mark_chunks-IsMarked zero words last page l z f = absurd (omega arith)
mark_chunks-IsMarked (suc fuel) words last page l z f =
    let (stop, mask, e, filled) =
      fill_mask-IsFilled 65 (page / 64) last page (λ _. false) l (omega arith) (omega arith)
        (omega arith) in
    let words₁ : ℕ → Word = or_chunk words (page / 64) mask in
    elim (Bool-cases (leb stop last)) [
      | inl t ↦
          let (words', e', marked) =
            mark_chunks-IsMarked fuel words₁ last stop l (ground (arith, filled.ended))
              (ground (arith, filled.ended)) in
          (
            words',
            ground arith,
            λ c k lt.
                marks_join page stop last (c * 64 + k) (words c k) filled.from (leb→le _ _ t)
                  (mark_word words last page stop mask filled c k lt) (marked c k lt),
          )
      | inr t ↦ (
        words₁,
        ground arith,
        λ c k lt.
            marks_end page stop last (c * 64 + k) (words c k) t filled.reached
              (mark_word words last page stop mask filled c k lt),
      )
    ]

mark_pages_lem :
    (log : MemoryLog) (words : ℕ → Word) (last first : ℕ)
    → last < 2 ^ 53
    → (log' : MemoryLog) × (mark_pages log words last first ≡ some log')
      × ((page : ℕ)
          → is_dirty log' page ≡ words (page / 64) (page % 64) || (leb first page && leb page last))
unfolding mark_pages IsMarked
mark_pages_lem log words last first l =
    let (words', e, marked) =
      mark_chunks-IsMarked (last + 2) words last first l (omega arith) (omega arith) in
    (
      record log { base = some words' },
      ground arith,
      λ page. ground (arith, marked (page / 64) (page % 64)),
    )

-- Marking a guest range ends, makes dirty exactly the pages that have a byte of the range and are
-- in the log, and leaves the other pages as they were. The range is not empty and does not wrap,
-- and the log has less than 2^50 bytes.
pub mark_gpa_range_dirty_pages :
    (log : MemoryLog) (words : ℕ → Word) (gpa len : ℕ)
    → log.base ≡ some words
    → 0 < len
    → gpa + len < 2 ^ 64
    → log.size < 2 ^ 50
    → (log' : MemoryLog) × (mark_gpa_range_dirty log gpa len ≡ some log')
      × ((page : ℕ)
          → is_dirty log' page
            ≡ is_dirty log page
              || (leb (gpa / vhost_log_page) page
                  && leb page ((gpa + len - 1) / vhost_log_page)
                  && ltb page (log.size * 8)))
unfolding mark_gpa_range_dirty
mark_gpa_range_dirty_pages log words gpa len b pos g z =
    elim (Bool-cases (leb (log.size * 8) ((gpa + len - 1) / vhost_log_page))) [
      | inr t ↦
          let (log', e, d) =
            mark_pages_lem log words ((gpa + len - 1) / vhost_log_page) (gpa / vhost_log_page)
              (omega arith) in
          (log', ground arith, λ page. ground (arith, d page))
      | inl t ↦ elim (Bool-cases (leb (log.size * 8) (gpa / vhost_log_page))) [
        | inl f ↦ (log, ground arith, λ page. ground arith)
        | inr f ↦
            let (log', e, d) =
              mark_pages_lem log words (log.size * 8 - 1) (gpa / vhost_log_page) (omega arith) in
            (log', ground arith, λ page. ground (arith, d page))
      ]
    ]

-- The loops end on every range, one that wraps included, and on a log of every size.
pub mark_gpa_range_dirty-total :
    (log : MemoryLog) (gpa len : ℕ)
    → (log' : MemoryLog) × (mark_gpa_range_dirty log gpa len ≡ some log')
unfolding mark_gpa_range_dirty
mark_gpa_range_dirty-total log gpa len = elim (Option-cases log.base) [
  | inl none_yet ↦ (log, ground arith)
  | inr (words, b) ↦
      let last = sub_u64 (u64 (gpa + len)) 1 / vhost_log_page in
      let limit = u64 (log.size * 8) in
      elim (Bool-cases (leb limit last)) [
        | inr t ↦
            let (log', e, _) = mark_pages_lem log words last (gpa / vhost_log_page) (omega arith) in
            (log', ground arith)
        | inl t ↦ elim (Bool-cases (leb limit (gpa / vhost_log_page))) [
          | inl f ↦ (log, ground arith)
          | inr f ↦
              let (log', e, _) =
                mark_pages_lem log words (sub_u64 limit 1) (gpa / vhost_log_page) (ground arith) in
              (log', ground arith)
        ]
      ]
]

pub mark_range_dirty-total :
    (log : MemoryLog) (regs : List Region) (ptr len : ℕ)
    → (log' : MemoryLog) × (mark_range_dirty log regs ptr len ≡ some log')
unfolding mark_range_dirty
mark_range_dirty-total log regs ptr len = elim (Option-cases (ptr_to_gpa regs ptr)) [
  | inl e ↦ (log, rw (e, mark_range_dirty))
  | inr (gpa, e) ↦
      let (log', q) = mark_gpa_range_dirty-total log gpa len in (log', rw (e, mark_range_dirty) q)
]

-- Marking no byte at guest address 0 makes every page of the log dirty, since `gpa + len - 1`
-- wraps; that is where the log is not empty, and of less than 2^49 bytes.
pub mark_gpa_range_dirty_nothing :
    (log : MemoryLog) (words : ℕ → Word)
    → log.base ≡ some words
    → 0 < log.size
    → log.size < 2 ^ 49
    → (log' : MemoryLog) × (mark_gpa_range_dirty log 0 0 ≡ some log')
      × ((page : ℕ) → is_dirty log' page ≡ is_dirty log page || ltb page (log.size * 8))
unfolding mark_gpa_range_dirty
mark_gpa_range_dirty_nothing log words b pos z =
    let (log', e, d) = mark_pages_lem log words (log.size * 8 - 1) 0 (omega arith) in
    (log', ground arith, λ page. ground (arith, d page))

-- A range that was written through its pointer has all its pages of the log dirty afterwards, and
-- no other page of the log changes: the pointer is the translation of a guest range that is not
-- empty and does not wrap, over regions that do not wrap and of which no two share an address of
-- this process, and the log has less than 2^50 bytes.
pub mark_range_dirty_translated :
    (log : MemoryLog) (words : ℕ → Word) (regs : List Region) (gpa len : ℕ) {ptr : ℕ}
    → log.base ≡ some words
    → All IsSane regs
    → IsSeparated (λ r. r.ptr) regs
    → 0 < len
    → gpa + len < 2 ^ 64
    → log.size < 2 ^ 50
    → gpa_range_to_ptr regs gpa len ≡ some ptr
    → (log' : MemoryLog) × (mark_range_dirty log regs ptr len ≡ some log')
      × ((page : ℕ)
          → is_dirty log' page
            ≡ is_dirty log page
              || (leb (gpa / vhost_log_page) page
                  && leb page ((gpa + len - 1) / vhost_log_page)
                  && ltb page (log.size * 8)))
unfolding mark_range_dirty
mark_range_dirty_translated log words regs gpa len b sane sep pos g z e =
    rw (ptr_to_gpa-gpa_range_to_ptr regs gpa len sane sep (omega arith) e, mark_range_dirty)
      (mark_gpa_range_dirty_pages log words gpa len b pos g z)
