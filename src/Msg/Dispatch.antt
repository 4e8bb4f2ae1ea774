-- ===== src/Msg/Dispatch.antt =====
-- The table of the message handlers, and the payloads (vdev.c, vhost_spec.h).
use ya_vhost.Prelude.{ℕ, List, some, ◌==◌, if◌then◌else◌, length}
use ya_vhost.Errno.{enotsup}
use ya_vhost.Vdev.Features.{Features}
use ya_vhost.Msg.State.{Addrs, Conn, Sys, Out}
use ya_vhost.Msg.Features.{
  vhost_get_features, vhost_get_protocol_features, vhost_set_protocol_features, vhost_set_features,
  vhost_set_owner, vhost_get_queue_num, vhost_get_config,
}
use ya_vhost.Msg.Rings.{
  vhost_set_vring_call, vhost_set_vring_err, vhost_set_vring_kick, vhost_set_vring_num,
  vhost_set_vring_base, vhost_get_vring_base, vhost_set_vring_addr,
}
use ya_vhost.Msg.Memory.{MemRegion, vhost_set_mem_table, vhost_set_log_base}
use ya_vhost.Msg.Inflight.{vhost_get_inflight_fd, vhost_set_inflight_fd}

-- `union vhost_user_msg_payload`: its members are fields of their own, so a payload can have more
-- values than the bytes have. A `u64` that is a feature word is `features`.
pub record MsgPayload : Type 0 where
  pub u64 : ℕ
  pub features : Features
  pub config_offset : ℕ
  pub config_size : ℕ
  pub nregions : ℕ
  pub regions : List MemRegion
  pub index : ℕ
  pub num : ℕ
  pub vring_flags : ℕ
  pub vring_addrs : Addrs
  pub used_gpa_base : ℕ
  pub mmap_size : ℕ
  pub mmap_offset : ℕ
  pub num_queues : ℕ
  pub queue_size : ℕ

-- `vhost_handle_msg`
unfoldable pub vhost_handle_msg :
    Sys → (req : ℕ) → MsgPayload → (size : ℕ) → (fds : List ℕ) → Conn → Out
vhost_handle_msg sys req p size fds d =
    let num_fds = length fds in
    if req == 1
    then vhost_get_features sys num_fds d
    else if req == 2
    then vhost_set_features sys p.features size num_fds d
    else if req == 3
    then vhost_set_owner sys num_fds d
    else if req == 5
    then vhost_set_mem_table sys p.nregions p.regions size fds num_fds d
    else if req == 6
    then vhost_set_log_base sys size num_fds d
    else if req == 8
    then vhost_set_vring_num sys p.index p.num size num_fds d
    else if req == 9
    then vhost_set_vring_addr sys p.index p.vring_flags p.vring_addrs p.used_gpa_base size num_fds d
    else if req == 10
    then vhost_set_vring_base sys p.index p.num size num_fds d
    else if req == 11
    then vhost_get_vring_base sys p.index size num_fds d
    else if req == 12
    then vhost_set_vring_kick sys p.u64 size num_fds d
    else if req == 13
    then vhost_set_vring_call sys p.u64 size num_fds d
    else if req == 14
    then vhost_set_vring_err sys p.u64 size num_fds d
    else if req == 15
    then vhost_get_protocol_features sys num_fds d
    else if req == 16
    then vhost_set_protocol_features sys p.features size num_fds d
    else if req == 17
    then vhost_get_queue_num sys num_fds d
    else if req == 24
    then vhost_get_config sys p.config_offset p.config_size size num_fds d
    else if req == 31
    then vhost_get_inflight_fd sys p.num_queues p.queue_size size num_fds d
    else if req == 32
    then vhost_set_inflight_fd sys p.mmap_size p.mmap_offset p.num_queues p.queue_size size num_fds
        d
    else some (some enotsup, d)
