-- ===== src/MemLog/Tests.antt =====
-- The dirty log of memlog.c at concrete inputs.
use ya_vhost.Prelude.{
  ℕ, ◌+◌, ◌-◌, ◌*◌, ◌/◌, ◌≡◌, refl, false, ◌&&◌, ◌||◌, some, List, [], ◌∷◌, leb, ltb, arith, All,
}
use ya_vhost.MemMap.Region.{Region, gpa_range_to_ptr, ptr_to_gpa}
use ya_vhost.MemMap.Translate.{IsSane}
use ya_vhost.MemLog.Log.{
  Word, MemoryLog, vhost_log_page, memlog_new, mark_gpa_range_dirty, mark_range_dirty, is_dirty,
}
use ya_vhost.MemLog.Marks.{mark_gpa_range_dirty_pages, mark_range_dirty_translated}

abbrev clean : ℕ → Word
clean chunk bit = false

-- A log of 16 bytes, for 128 pages.
abbrev clean_log : MemoryLog
clean_log = record { base = some clean; size = 16 }

opened : memlog_new (some clean) 16 ≡ some clean_log
unfolding memlog_new
opened = refl

-- Two pages on both sides of a word's end.
mark_gpa_range_dirty_pages_example :
    (log' : MemoryLog) × (mark_gpa_range_dirty clean_log 0x3ff00 0x200 ≡ some log')
    × ((page : ℕ)
        → is_dirty log' page
          ≡ is_dirty clean_log page
            || (leb (0x3ff00 / vhost_log_page) page
                && leb page ((0x3ff00 + 0x200 - 1) / vhost_log_page)
                && ltb page (16 * 8)))
mark_gpa_range_dirty_pages_example =
    mark_gpa_range_dirty_pages clean_log clean 0x3ff00 0x200 refl (omega arith) (omega arith)
      (omega arith)

abbrev one_region : List Region
one_region = record { gpa = 0x10000; uva = 0x40000000; ptr = 0x10200000; size = 0x10000 } ∷ []

one_region-IsSane : All IsSane one_region
one_region-IsSane =
    (record { gpa_end = omega arith; uva_end = omega arith; ptr_end = omega arith }, tt)

translated : gpa_range_to_ptr one_region 0x11000 0x1001 ≡ some 0x10201000
unfolding gpa_range_to_ptr
translated = refl

mark_range_dirty_translated_example :
    (log' : MemoryLog) × (mark_range_dirty clean_log one_region 0x10201000 0x1001 ≡ some log')
    × ((page : ℕ)
        → is_dirty log' page
          ≡ is_dirty clean_log page
            || (leb (0x11000 / vhost_log_page) page
                && leb page ((0x11000 + 0x1001 - 1) / vhost_log_page)
                && ltb page (16 * 8)))
mark_range_dirty_translated_example =
    mark_range_dirty_translated clean_log clean one_region 0x11000 0x1001 refl one_region-IsSane
      (tt, tt) (omega arith) (omega arith) (omega arith) translated

-- A pointer outside the memory map is not logged.
outside : mark_range_dirty clean_log one_region 0x10210000 1 ≡ some clean_log
unfolding mark_range_dirty ptr_to_gpa
outside = refl
