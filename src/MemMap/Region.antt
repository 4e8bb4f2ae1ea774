-- ===== src/MemMap/Region.antt =====
-- The regions of a memory map, and the three address translations (memmap.c).
use ya_vhost.Prelude.{
  ℕ, ◌+◌, Option, none, some, List, [], ◌∷◌, ◌&&◌, ◌||◌, ltb, leb, if◌then◌else◌, u64, sub_u64,
}

-- `struct vhd_memory_region`; an address is a number, in each of the three address spaces.
pub record Region : Type 0 where
  pub gpa : ℕ
  pub uva : ℕ
  pub ptr : ℕ
  pub size : ℕ

abbrev pub ram_slots_max : ℕ
ram_slots_max = 32

-- `uva_to_ptr`, over the first `num` entries of `mm->regions`; `none` is NULL.
unfoldable pub uva_to_ptr : List Region → ℕ → Option ℕ
uva_to_ptr [] uva = none
uva_to_ptr (reg ∷ regs) uva =
    if leb reg.uva uva && ltb (sub_u64 uva reg.uva) reg.size
    then some (u64 (reg.ptr + sub_u64 uva reg.uva))
    else uva_to_ptr regs uva

-- `ptr_to_gpa`; `none` is TRANSLATION_FAILED.
unfoldable pub ptr_to_gpa : List Region → ℕ → Option ℕ
ptr_to_gpa [] ptr = none
ptr_to_gpa (reg ∷ regs) ptr =
    if leb reg.ptr ptr && ltb ptr (u64 (reg.ptr + reg.size))
    then some (u64 (sub_u64 ptr reg.ptr + reg.gpa))
    else ptr_to_gpa regs ptr

-- `gpa_range_to_ptr`: the first region that holds `gpa` decides, whether or not the range fits it.
unfoldable pub gpa_range_to_ptr : List Region → ℕ → ℕ → Option ℕ
gpa_range_to_ptr [] gpa len = none
gpa_range_to_ptr (reg ∷ regs) gpa len =
    if leb reg.gpa gpa && ltb (sub_u64 gpa reg.gpa) reg.size
    then (if ltb reg.size len || ltb reg.size (u64 (sub_u64 gpa reg.gpa + len))
        then none
        else some (u64 (reg.ptr + sub_u64 gpa reg.gpa)))
    else gpa_range_to_ptr regs gpa len
