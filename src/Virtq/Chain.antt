-- ===== src/Virtq/Chain.antt =====
-- Walking a descriptor chain into the queue's buffers (virtio/virt_queue.c).
use ya_vhost.Prelude.{
  ℕ, zero, suc, ◌+◌, ◌/◌, ◌%◌, Bool, not, ◌||◌, Option, none, some, leb, ◌==◌, if◌then◌else◌, u16,
  set,
}
use ya_vhost.Errno.{Errno, einval, enobufs, efault, erange, emlink, Result, ok, err}
use ya_vhost.MemMap.Region.{gpa_range_to_ptr}
use ya_vhost.Virtq.State.{
  Desc, sizeof_desc, has_next, is_write_only, is_indirect, Virtq, GuestTables,
}

unfoldable pub add_buffer : Virtq → (addr len : ℕ) → Bool → Virtq × Option Errno
add_buffer vq addr len write_only =
    if vq.next_buffer == vq.max_chain_len then (vq, some enobufs) else (
      record vq {
        buffers =
            set vq.buffers vq.next_buffer
              (record { base = addr; len = len; write_only = write_only });
        next_buffer = u16 (vq.next_buffer + 1);
      },
      none,
    )

unfoldable pub map_buffer : Virtq → (gpa len : ℕ) → Bool → Virtq × Option Errno
map_buffer vq gpa len write_only = elim (gpa_range_to_ptr vq.mm.regions gpa len) [
  | none ↦ (vq, some efault)
  | some addr ↦ add_buffer vq addr len write_only
]

-- The loop of `walk_indirect_table`, on fuel: `none` if that runs out.
unfoldable pub walk_table :
    ℕ → (table : ℕ → Desc) → (table_len idx : ℕ) → Virtq → Option (Virtq × Option Errno)
walk_table zero table table_len idx vq = none
walk_table (suc fuel) table table_len idx vq =
    let desc = table idx in
    let (vq', res) = map_buffer vq desc.addr desc.len (is_write_only desc) in
    let rest = walk_table fuel table table_len desc.next vq' in
    if is_indirect desc then some (vq, some emlink) else elim res [
      | some e ↦ some (vq', some e)
      | none ↦
          if not (has_next desc)
          then some (vq', none)
          else if leb table_len desc.next
          then some (vq', some erange)
          else rest
    ]

-- `walk_indirect_table`; `table_len` is a uint16_t. A chain has `max_chain_len` buffers at most.
unfoldable pub walk_indirect_table : GuestTables → Virtq → Desc → Option (Virtq × Option Errno)
walk_indirect_table mem vq table_desc =
    let table_len = u16 (table_desc.len / sizeof_desc) in
    if table_desc.len == 0 || not (table_desc.len % sizeof_desc == 0)
    then some (vq, some einval)
    else elim (gpa_range_to_ptr vq.mm.regions table_desc.addr table_desc.len) [
      | none ↦ some (vq, some efault)
      | some ptr ↦ walk_table (vq.max_chain_len + 1) (mem ptr) table_len 0 vq
    ]

-- How a walk that ended in an indirect table goes on: its error, or the length of the chain.
abbrev pub chain_result : ℕ → Option Errno → Result ℕ
chain_result chain_len none = ok chain_len
chain_result chain_len (some e) = err e

-- The loop of `walk_chain`, over the descriptors `desc`.
unfoldable pub walk_descs :
    ℕ → GuestTables → (desc : ℕ → Desc) → (idx chain_len : ℕ) → Virtq → Option (Virtq × Result ℕ)
walk_descs zero mem descs idx chain_len vq = none
walk_descs (suc fuel) mem descs idx chain_len vq =
    let desc = descs idx in
    let (vq', res) = map_buffer vq desc.addr desc.len (is_write_only desc) in
    let rest = walk_descs fuel mem descs desc.next (u16 (chain_len + 1)) vq' in
    if is_indirect desc
    then (if has_next desc then some (vq, err einval) else elim (walk_indirect_table mem vq desc) [
      | none ↦ none
      | some (vq'', r) ↦ some (vq'', chain_result chain_len r)
    ])
    else elim res [
      | some e ↦ some (vq', err e)
      | none ↦
          if not (has_next desc)
          then some (vq', ok chain_len)
          else if leb vq.qsz desc.next
          then some (vq', err erange)
          else rest
    ]

-- `walk_chain`: the number of descriptors consumed, or an error; `none` would be a walk without end.
unfoldable pub walk_chain : GuestTables → Virtq → (head : ℕ) → Option (Virtq × Result ℕ)
walk_chain mem vq head =
    walk_descs (vq.max_chain_len + 1) mem vq.desc head 1 (record vq { next_buffer = 0 })
