-- ===== src/MemLog/Log.antt =====
-- The dirty log (memlog.c). The mapped log is a sequence of 64-bit words, each a function from bit
-- number to bit, so `1UL << k` is the word with bit `k` alone and `|` is `||` bit by bit. The byte
-- order is little-endian, where the swap of the mask is compiled out.
use ya_vhost.Prelude.{
  ℕ, zero, suc, ◌+◌, ◌*◌, ◌/◌, ◌%◌, Bool, false, ◌&&◌, ◌||◌, Option, none, some, List, leb, ◌==◌,
  if◌then◌else◌, u64, sub_u64,
}
use ya_vhost.MemMap.Region.{Region, ptr_to_gpa}

abbrev pub Word : Type 0
Word = ℕ → Bool

-- `struct vhd_memory_log`: `base` is what `log->base` points to, `none` for NULL.
pub record MemoryLog : Type 0 where
  pub base : Option (ℕ → Word)
  pub size : ℕ

abbrev pub vhost_log_page : ℕ
vhost_log_page = 0x1000

-- `vhd_memlog_new`: `map` is the outcome of the `mmap` of the file.
unfoldable pub memlog_new : Option (ℕ → Word) → ℕ → Option MemoryLog
memlog_new none size = none
memlog_new (some base) size = some (record { base = some base; size = size })

-- `mask |= 1LU << k`
abbrev pub set_bit : Word → ℕ → Word
set_bit mask k j = mask j || j == k

-- `atomic_or(&log_addr[chunk], mask)`
abbrev pub or_chunk : (ℕ → Word) → ℕ → Word → ℕ → Word
or_chunk words chunk mask c j = if c == chunk then words c j || mask j else words c j

-- The inner loop of `vhd_mark_gpa_range_dirty`, on fuel: `none` if that runs out.
unfoldable pub fill_mask : ℕ → (chunk last page : ℕ) → Word → Option (ℕ × Word)
fill_mask zero chunk last page mask = none
fill_mask (suc fuel) chunk last page mask =
    let rest = fill_mask fuel chunk last (u64 (page + 1)) (set_bit mask (page % 64)) in
    if leb page last && page / 64 == chunk then rest else some (page, mask)

-- The outer loop.
unfoldable pub mark_chunks : ℕ → (ℕ → Word) → (last page : ℕ) → Option (ℕ → Word)
mark_chunks zero words last page = none
mark_chunks (suc fuel) words last page = elim (fill_mask 65 (page / 64) last page (λ _. false)) [
  | none ↦ none
  | some (page', mask) ↦
      let words' = or_chunk words (page / 64) mask in
      let rest = mark_chunks fuel words' last page' in if leb page' last then rest else some words'
]

-- Both loops, over the log that `log->base` points to; the fuel is more than the pages to mark.
unfoldable pub mark_pages : MemoryLog → (ℕ → Word) → (last page : ℕ) → Option MemoryLog
mark_pages log words last page = elim (mark_chunks (last + 2) words last page) [
  | none ↦ none
  | some words' ↦ some (record log { base = some words' })
]

-- `vhd_mark_gpa_range_dirty`; `none` would be a loop that does not end.
unfoldable pub mark_gpa_range_dirty : MemoryLog → (gpa len : ℕ) → Option MemoryLog
mark_gpa_range_dirty log gpa len = elim log.base [
  | none ↦ some log
  | some words ↦
      let limit = u64 (log.size * 8) in
      let page = gpa / vhost_log_page in
      let last_page = sub_u64 (u64 (gpa + len)) 1 / vhost_log_page in
      if leb limit last_page
      then (if leb limit page then some log else mark_pages log words (sub_u64 limit 1) page)
      else mark_pages log words last_page page
]

-- `vhd_mark_range_dirty`: nothing is logged for a pointer outside the map.
unfoldable pub mark_range_dirty : MemoryLog → List Region → (ptr len : ℕ) → Option MemoryLog
mark_range_dirty log regs ptr len = elim (ptr_to_gpa regs ptr) [
  | none ↦ some log
  | some gpa ↦ mark_gpa_range_dirty log gpa len
]

-- Whether the log holds the guest page as written.
abbrev pub is_dirty : MemoryLog → ℕ → Bool
is_dirty log page = elim log.base [ none ↦ false | some words ↦ words (page / 64) (page % 64) ]
