-- ===== src/Virtq/Push.antt =====
-- Giving a request back to the driver, and notifying it (virtio/virt_queue.c).
use ya_vhost.Prelude.{
  ℕ, ◌+◌, ◌*◌, ◌%◌, Bool, not, Option, none, some, List, [], ◌∷◌, ◌==◌, if◌then◌else◌, u16, u64,
  sub_u16, has_bit,
}
use ya_vhost.MemMap.Region.{Region}
use ya_vhost.MemLog.Log.{MemoryLog, mark_gpa_range_dirty, mark_range_dirty}
use ya_vhost.Virtq.State.{Buffer, UsedElem, Virtq, Iov}
use ya_vhost.Virtq.Inflight.{inflight_used_update, inflight_used_commit}

-- `vhd_log_buffers`: the buffers that the device may have written.
unfoldable pub log_buffers : MemoryLog → List Region → List Buffer → Option MemoryLog
log_buffers log mm [] = some log
log_buffers log mm (b ∷ bs) =
    if b.write_only
    then (elim (mark_range_dirty log mm b.base b.len) [
      | none ↦ none
      | some log' ↦ log_buffers log' mm bs
    ])
    else log_buffers log mm bs

-- `vhd_log_modified`: `idx` is 2 bytes into the used ring, and its elements, of 8 bytes, 4 bytes.
unfoldable pub log_modified :
    MemoryLog → (flags used_gpa_base : ℕ) → List Region → Iov → (used_idx : ℕ) → Option MemoryLog
log_modified log flags used_gpa_base mm iov used_idx = elim (log_buffers log mm iov.buffers) [
  | none ↦ none
  | some log₁ ↦
      if has_bit flags 0
      then (elim (mark_gpa_range_dirty log₁ (u64 (used_gpa_base + 2)) 2) [
        | none ↦ none
        | some log₂ ↦ mark_gpa_range_dirty log₂ (u64 (used_gpa_base + (4 + 8 * used_idx))) 8
      ])
      else some log₁
]

-- `virtq_do_notify`
unfoldable pub do_notify : Virtq → Virtq
do_notify vq = elim vq.notify_fd [ none ↦ vq | some fd ↦ record vq { signals = fd ∷ vq.signals } ]

-- `virtq_need_notify`, with `virtq_get_used_event`.
unfoldable pub need_notify : Virtq → Bool
need_notify vq =
    if not vq.has_event_idx
    then not (has_bit vq.avail.flags 0)
    else vq.avail.ring vq.qsz == sub_u16 vq.used.idx 1

-- `virtq_notify`
unfoldable pub notify : Virtq → Virtq
notify vq = if need_notify vq then do_notify vq else vq

abbrev pub set_used : (ℕ → UsedElem) → ℕ → UsedElem → ℕ → UsedElem
set_used ring i e j = if j == i then e else ring j

-- The writes of `virtq_push` to the memory that it shares: the element of the used ring, its index,
-- and the inflight region before and after.
unfoldable pub push_used : Virtq → Iov → (len : ℕ) → Virtq
push_used vq iov len =
    let elem : UsedElem = record { id = iov.used_head; len = len } in
    let vq₁ = record vq {
      used = record (vq.used) { ring = set_used vq.used.ring (vq.used.idx % vq.qsz) elem };
    } in
    let vq₂ = inflight_used_update vq₁ iov.used_head in
    let vq₃ = record vq₂ { used = record (vq₂.used) { idx = u16 (vq₂.used.idx + 1) } } in
    inflight_used_commit vq₃ iov.used_head

-- `virtq_push`; `none` would be a loop of the dirty log that does not end.
unfoldable pub virtq_push : Virtq → Iov → (len : ℕ) → Option Virtq
virtq_push vq iov len =
    let used_idx = vq.used.idx % vq.qsz in
    let vq' = push_used vq iov len in
    elim vq'.log [
      | none ↦ some (notify vq')
      | some log ↦ elim (log_modified log vq'.flags vq'.used_gpa_base iov.mm iov used_idx) [
        | none ↦ none
        | some log' ↦ some (notify (record vq' { log = some log' }))
      ]
    ]

-- `virtq_set_notify_fd`
unfoldable pub set_notify_fd : Virtq → Option ℕ → Virtq
unfolding do_notify
set_notify_fd vq fd = do_notify (record vq { notify_fd = fd })
