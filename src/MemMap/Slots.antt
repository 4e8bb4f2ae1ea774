-- ===== src/MemMap/Slots.antt =====
-- The memory map as an object: its reference count, and the operations that add and remove a slot
-- (memmap.c, objref.h). Every operation returns the calls that it made.
use ya_vhost.Prelude.{
  ℕ, zero, suc, ◌+◌, Bool, true, false, ◌&&◌, ◌||◌, Option, none, some, List, [], ◌∷◌, ◌++◌, ltb,
  leb, ◌==◌, if◌then◌else◌, u64, sub_u64, length, get_elem?, insert_at, remove_at,
}
use ya_vhost.Errno.{Errno, einval, enobufs, enxio, Result, ok, err}
use ya_vhost.MemMap.Region.{Region, ram_slots_max}
use ya_vhost.MemMap.Os.{
  Os, Call, unmapped, told_map, told_unmap, map_memory, unmap_memory, align_up, huge_page_size,
}

-- A callback of the map: what it returns for an address and a length, as an error or none.
abbrev pub Callback : Type 0
Callback = Option (ℕ → ℕ → Option Errno)

-- `struct vhd_memory_map`: `regions` are the `num` entries that are in use.
pub record MemoryMap : Type 0 where
  pub refcount : ℕ
  pub map_cb : Callback
  pub unmap_cb : Callback
  pub regions : List Region

-- A call of a callback that may be NULL.
abbrev pub ask : Callback → ℕ → ℕ → Option Errno
ask none addr len = none
ask (some cb) addr len = cb addr len

abbrev pub told : (ℕ → ℕ → Call) → Callback → ℕ → ℕ → List Call
told call none addr len = []
told call (some cb) addr len = call addr len ∷ []

unfoldable pub memmap_new : Callback → Callback → MemoryMap
memmap_new map_cb unmap_cb = record {
  refcount = 1;
  map_cb = map_cb;
  unmap_cb = unmap_cb;
  regions = [];
}

-- `map_region`: a callback that fails makes it give back `size` bytes, by `munmap`.
unfoldable pub map_region : Os → Callback → (gpa uva size fd offset : ℕ) → Result Region × List Call
map_region os cb gpa uva size fd offset =
    let (res, calls) = map_memory os size fd offset in
    elim res [
      | err e ↦ (err e, calls)
      | ok ptr ↦
          let len = align_up size huge_page_size in
          let asked = calls ++ told told_map cb ptr len in
          elim (ask cb ptr len) [
            | some e ↦ (err e, asked ++ unmapped ptr size ∷ [])
            | none ↦ (ok (record { gpa = gpa; uva = uva; ptr = ptr; size = size }), asked)
          ]
    ]

-- `munmap` that fails returns -1.
abbrev pub minus_one : Option Errno → Option Errno
minus_one none = none
minus_one (some e) = some (Errno.os 1)

-- `unmap_region`: a callback that fails leaves the region mapped.
unfoldable pub unmap_region : Os → Callback → Region → Option Errno × List Call
unmap_region os cb reg =
    let len = align_up reg.size huge_page_size in
    elim (ask cb reg.ptr len) [
      | some e ↦ (some e, told told_unmap cb reg.ptr len)
      | none ↦
          let (res, calls) = unmap_memory os reg.ptr reg.size in
          (minus_one res, told told_unmap cb reg.ptr len ++ calls)
    ]

-- `memmap_release`: the result of each `unmap_region` is dropped.
unfoldable pub memmap_release : Os → Callback → List Region → List Call
memmap_release os cb [] = []
memmap_release os cb (reg ∷ regs) = (unmap_region os cb reg).1 ++ memmap_release os cb regs

-- `vhd_memmap_ref` (`objref_get`).
unfoldable pub memmap_ref : MemoryMap → MemoryMap
memmap_ref mm = record mm { refcount = u64 (mm.refcount + 1) }

-- `vhd_memmap_unref` (`objref_put`): `none` once the map is freed.
unfoldable pub memmap_unref : Os → MemoryMap → Option MemoryMap × List Call
memmap_unref os mm =
    if mm.refcount == 1
    then (none, memmap_release os mm.unmap_cb mm.regions)
    else (some (record mm { refcount = sub_u64 mm.refcount 1 }), [])

-- The loop of `vhd_memmap_add_slot` that looks for an existing slot in the way.
unfoldable pub intersects : (gpa uva size : ℕ) → List Region → Bool
intersects gpa uva size [] = false
intersects gpa uva size (reg ∷ regs) =
    if leb (u64 (reg.gpa + reg.size)) gpa
      || leb (u64 (gpa + size)) reg.gpa
      || leb (u64 (reg.uva + reg.size)) uva
      || leb (u64 (uva + size)) reg.uva
    then intersects gpa uva size regs
    else true

-- The loop that goes down from `num` to the place of the new slot.
unfoldable pub slot_position : List Region → ℕ → ℕ → ℕ
slot_position regs gpa zero = zero
slot_position regs gpa (suc i) =
    let rest = slot_position regs gpa i in
    elim (get_elem? regs i) [ none ↦ rest | some reg ↦ if ltb reg.gpa gpa then suc i else rest ]

unfoldable pub memmap_add_slot :
    Os → MemoryMap → (gpa uva size fd offset : ℕ) → Option Errno × MemoryMap × List Call
memmap_add_slot os mm gpa uva size fd offset =
    if ltb (u64 (gpa + size)) gpa || ltb (u64 (uva + size)) uva
    then (some einval, mm, [])
    else if length mm.regions == ram_slots_max
    then (some enobufs, mm, [])
    else if intersects gpa uva size mm.regions
    then (some einval, mm, [])
    else (let i = slot_position mm.regions gpa (length mm.regions) in
        let (res, calls) = map_region os mm.map_cb gpa uva size fd offset in
        elim res [
          | err e ↦ (some e, mm, calls)
          | ok region ↦ (none, record mm { regions = insert_at i region mm.regions }, calls)
        ])

-- The loop of `vhd_memmap_del_slot`; past the end is `num`.
unfoldable pub find_slot : (gpa uva size : ℕ) → List Region → ℕ
find_slot gpa uva size [] = 0
find_slot gpa uva size (reg ∷ regs) =
    if reg.gpa == gpa && reg.uva == uva && reg.size == size
    then 0
    else suc (find_slot gpa uva size regs)

unfoldable pub memmap_del_slot :
    Os → MemoryMap → (gpa uva size : ℕ) → Option Errno × MemoryMap × List Call
memmap_del_slot os mm gpa uva size =
    let i = find_slot gpa uva size mm.regions in
    elim (get_elem? mm.regions i) [
      | none ↦ (some enxio, mm, [])
      | some reg ↦
          let (res, calls) = unmap_region os mm.unmap_cb reg in
          elim res [
            | some e ↦ (some e, mm, calls)
            | none ↦ (none, record mm { regions = remove_at i mm.regions }, calls)
          ]
    ]
