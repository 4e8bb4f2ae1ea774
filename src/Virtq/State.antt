-- ===== src/Virtq/State.antt =====
-- The state of a virtqueue: `struct virtio_virtq` and the guest structures that it points to
-- (virtio/virt_queue.h, virtio/virtio_spec.h, vhost_spec.h, include/vhost/types.h).
use ya_vhost.Prelude.{ℕ, Bool, Option, List, has_bit}
use ya_vhost.MemMap.Region.{Region}
use ya_vhost.MemMap.Slots.{MemoryMap}
use ya_vhost.MemLog.Log.{MemoryLog}

-- `struct virtq_desc`
pub record Desc : Type 0 where
  pub addr : ℕ
  pub len : ℕ
  pub flags : ℕ
  pub next : ℕ

abbrev pub sizeof_desc : ℕ
sizeof_desc = 16

-- `flags & VIRTQ_DESC_F_NEXT`, `VIRTQ_DESC_F_WRITE`, `VIRTQ_DESC_F_INDIRECT`
unfoldable pub has_next : Desc → Bool
has_next d = has_bit d.flags 0

unfoldable pub is_write_only : Desc → Bool
is_write_only d = has_bit d.flags 1

unfoldable pub is_indirect : Desc → Bool
is_indirect d = has_bit d.flags 2

-- `struct vhd_buffer`
pub record Buffer : Type 0 where
  pub base : ℕ
  pub len : ℕ
  pub write_only : Bool

-- `struct virtq_avail`: `ring` is what stands behind the header, so `ring qsz` is `used_event`.
pub record Avail : Type 0 where
  pub flags : ℕ
  pub idx : ℕ
  pub ring : ℕ → ℕ

-- `struct virtq_used_elem`
pub record UsedElem : Type 0 where
  pub id : ℕ
  pub len : ℕ

-- `struct virtq_used`, with the `avail_event` that stands behind its ring.
pub record Used : Type 0 where
  pub idx : ℕ
  pub ring : ℕ → UsedElem
  pub avail_event : ℕ

-- `struct inflight_split_desc` and `struct inflight_split_region`
pub record InflightDesc : Type 0 where
  pub inflight : ℕ
  pub next : ℕ
  pub counter : ℕ

pub record InflightRegion : Type 0 where
  pub desc_num : ℕ
  pub last_batch_head : ℕ
  pub used_idx : ℕ
  pub desc : ℕ → InflightDesc

-- `struct vq_stat`, its `struct vhd_vq_metrics` included
pub record Stat : Type 0 where
  pub request_total : ℕ
  pub dispatch_total : ℕ
  pub dispatch_empty : ℕ
  pub queue_len_last : ℕ
  pub queue_len_max_60s : ℕ
  pub period_start_ts : ℕ

-- `struct virtio_virtq`. A pointer to a structure is that structure, `none` for NULL and for the
-- file descriptor -1; `signals` are the descriptors that an event was written to, latest first.
pub record Virtq : Type 0 where
  pub flags : ℕ
  pub desc : ℕ → Desc
  pub avail : Avail
  pub used : Used
  pub used_gpa_base : ℕ
  pub qsz : ℕ
  pub max_chain_len : ℕ
  pub last_avail : ℕ
  pub next_buffer : ℕ
  pub buffers : List Buffer
  pub broken : Bool
  pub has_event_idx : Bool
  pub notify_fd : Option ℕ
  pub req_cnt : ℕ
  pub inflight_region : Option InflightRegion
  pub inflight_check : Bool
  pub mm : MemoryMap
  pub log : Option MemoryLog
  pub stat : Stat
  pub signals : List ℕ

-- `struct virtq_iov_private`: the chain of one request, with the memory map it was started with.
pub record Iov : Type 0 where
  pub used_head : ℕ
  pub mm : List Region
  pub buffers : List Buffer

-- The descriptors behind a pointer, as the guest has them: the indirect tables.
abbrev pub GuestTables : Type 0
GuestTables = ℕ → ℕ → Desc
