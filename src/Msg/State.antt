-- ===== src/Msg/State.antt =====
-- A device with its connection, as the messages see it, and their payloads (vdev.c, vdev.h,
-- vhost_spec.h).
use ya_vhost.Prelude.{ℕ, List, ◌∷◌, Option, none, some, Bool, false}
use ya_vhost.Errno.{Errno, Result}
use ya_vhost.MemMap.Os.{Os, Call}
use ya_vhost.MemMap.Slots.{MemoryMap, Callback}
use ya_vhost.Vdev.Features.{Features}

-- `addr_cache`, and the resolved addresses of a virtqueue.
pub record Addrs : Type 0 where
  pub desc : ℕ
  pub used : ℕ
  pub avail : ℕ

-- `shadow_vq`, and what `vring_sync_to_virtq` copies of it. A log is its number.
pub record Shared : Type 0 where
  pub flags : ℕ
  pub addrs : Addrs
  pub mm : Option MemoryMap
  pub log : Option ℕ

-- `struct virtio_virtq`: its part that the control plane sets. `inflight_region` is an address.
pub record DataVq : Type 0 where
  pub shared : Shared
  pub notify_fd : Option ℕ
  pub qsz : ℕ
  pub last_avail : ℕ
  pub used_gpa_base : ℕ
  pub has_event_idx : Bool
  pub inflight_region : Option ℕ

-- `struct vhd_vring`; a descriptor of -1 is `none`, and `on_drain_cb` is whether it is set.
pub record Ring : Type 0 where
  pub kickfd : Option ℕ
  pub callfd : Option ℕ
  pub errfd : Option ℕ
  pub started_in_ctl : Bool
  pub disconnecting : Bool
  pub on_drain_cb : Bool
  pub addr_cache : Addrs
  pub shadow_vq : Shared
  pub vq : DataVq

-- An io handler that may be NULL.
pub data Handler : Type 0 where
  gone detached attached : Handler

-- The functions that `handle_complete` is set to.
pub data Complete : Type 0 where
  features_complete mem_table_complete call_complete kick_complete kick_fail_complete err_complete
        addr_complete log_base_complete :
      Complete

-- The bottom halves that the messages run in the loop of the request queue.
pub data RqBh : Type 0 where
  sync_bh start_bh stop_bh : RqBh

-- What a reply carries.
pub data Payload : Type 0 where
  word : Features → Payload
  number : ℕ → Payload
  status : Option Errno → Payload
  vring_state : (index num : ℕ) → Payload
  config : (offset size : ℕ) → List ℕ → Payload
  inflight_desc : (mmap_size : ℕ) → Payload

pub record Sent : Type 0 where
  pub req : ℕ
  pub payload : Payload
  pub len : ℕ
  pub fds : List ℕ

-- `struct vhd_vdev`, and what was done with it, latest first: the descriptors that were opened and
-- closed, the replies, how often `vdev_handle_finish` ran, the bottom halves that were scheduled, the
-- logs that went to `vhd_free` and to `vhd_memlog_free`, and the inflight regions that were unmapped;
-- the calls of memmap.c are in their order.
pub record Conn : Type 0 where
  pub connfd : Option ℕ
  pub conn_handler : Handler
  pub timerfd : Option ℕ
  pub timer_handler : Handler
  pub req : ℕ
  pub ack_pending : Bool
  pub supported_protocol_features : Features
  pub negotiated_protocol_features : Features
  pub supported_features : Features
  pub negotiated_features : Features
  pub vrings : List Ring
  pub map_cb : Callback
  pub unmap_cb : Callback
  pub memmap : Option MemoryMap
  pub old_memmap : Option MemoryMap
  pub memlog : Option ℕ
  pub old_memlog : Option ℕ
  pub inflight_mem : Option ℕ
  pub inflight_size : ℕ
  pub num_vrings_in_flight : ℕ
  pub num_vrings_started : ℕ
  pub num_vrings_handling_msg : ℕ
  pub handle_complete : Option Complete
  pub keep_fd : Option ℕ
  pub opened : List ℕ
  pub closed : List ℕ
  pub sent : List Sent
  pub finishes : ℕ
  pub posted : List (RqBh × ℕ)
  pub calls : List Call
  pub freed_logs : List ℕ
  pub unmapped_logs : List ℕ
  pub unmapped_inflight : List (ℕ × ℕ)

-- What the system and the device type answer while a message is handled: `fcntl(F_DUPFD_CLOEXEC)`,
-- `net_send_msg`, `mmap` and `munmap` of the memory map, `vhd_memlog_new`, `memfd_create`,
-- `ftruncate`, the `mmap` of the inflight region, and whether the assertions of `virtio_virtq_init`
-- hold on the memory that the client shares.
pub record Sys : Type 0 where
  pub dup : Result ℕ
  pub send : Option Errno
  pub os : Os
  pub memlog_new : Option ℕ
  pub memfd_create : Result ℕ
  pub ftruncate : Option Errno
  pub mmap : Result ℕ
  pub virtq_init : Bool
  pub get_features : Features
  pub get_config : (size offset : ℕ) → List ℕ

-- What a function returns, an error or none, and the device; `none` is an assertion that fails.
abbrev pub Out : Type 0
Out = Option (Option Errno × Conn)

abbrev pub no_addrs : Addrs
no_addrs = record { desc = 0; used = 0; avail = 0 }

abbrev pub no_shared : Shared
no_shared = record { flags = 0; addrs = no_addrs; mm = none; log = none }

-- `close` of a descriptor that may be -1, as `replace_fd` has it.
abbrev pub close_fd : Option ℕ → List ℕ → List ℕ
close_fd none closed = closed
close_fd (some fd) closed = fd ∷ closed

-- The descriptors that `vring_reset` closes.
abbrev pub close_ring : Ring → List ℕ → List ℕ
close_ring r closed = close_fd r.errfd (close_fd r.kickfd (close_fd r.callfd closed))

-- `vring_reset`
unfoldable pub vring_reset : Ring → Ring
vring_reset r = record r {
  callfd = none;
  kickfd = none;
  errfd = none;
  shadow_vq = no_shared;
  addr_cache = no_addrs;
  disconnecting = false;
}
