-- ===== src/Msg/Bottom.antt =====
-- The functions of the control loop that end a message and a connection, and the start of one:
-- vring_mark_msg_handled, vring_mark_drained and server_read (vdev.c).
use ya_vhost.Prelude.{
  ℕ, ◌-◌, [], ◌∷◌, Option, none, some, Bool, false, not, ◌==◌, if◌then◌else◌, get_elem?, replicate,
}
use ya_vhost.Errno.{Errno, eio, Result, ok, err}
use ya_vhost.MemMap.Slots.{Callback}
use ya_vhost.Vdev.Features.{Features}
use ya_vhost.Msg.State.{
  no_addrs, Ring, DataVq, no_shared, gone, detached, attached, Complete, features_complete,
  mem_table_complete, call_complete, kick_complete, kick_fail_complete, err_complete, addr_complete,
  log_base_complete, Conn, Sys, close_fd, close_ring, vring_reset,
}
use ya_vhost.Msg.Reply.{req_none, ack, put_ring}
use ya_vhost.Msg.Rings.{vring_sync_to_virtq, vhost_send_vring_base}
use ya_vhost.Msg.Memory.{complete_mem_table, complete_log_base}
use ya_vhost.Msg.Close.{vdev_disconnect, conn_maybe_drained}

-- The functions that `handle_complete` is set to.
unfoldable pub run_complete : Complete → Sys → Conn → Option Errno × Conn
run_complete features_complete sys d = ack sys none d
run_complete mem_table_complete sys d = complete_mem_table sys d
run_complete call_complete sys d =
    ack sys none (record d { keep_fd = none; closed = close_fd d.keep_fd d.closed })
run_complete kick_complete sys d = ack sys none d
run_complete kick_fail_complete sys d = ack sys (some eio) d
run_complete err_complete sys d =
    ack sys none (record d { keep_fd = none; closed = close_fd d.keep_fd d.closed })
run_complete addr_complete sys d = ack sys none d
run_complete log_base_complete sys d = complete_log_base sys d

-- The end of `vring_mark_msg_handled`, for what `handle_complete` returns.
unfoldable pub handled_out : Sys → Option Errno × Conn → Option Conn
unfolding vdev_disconnect
handled_out sys (none, d) = some (record d { handle_complete = none })
handled_out sys (some e, d) = vdev_disconnect sys (record d { handle_complete = none })

-- `vring_mark_msg_handled`
unfoldable pub vring_mark_msg_handled : Sys → Conn → Option Conn
unfolding run_complete handled_out
vring_mark_msg_handled sys d =
    let left = record d { num_vrings_handling_msg = d.num_vrings_handling_msg - 1 } in
    if d.num_vrings_handling_msg == 0
    then none
    else if not (left.num_vrings_handling_msg == 0)
    then some left
    else elim d.handle_complete [
      | none ↦ none
      | some complete ↦ handled_out sys (run_complete complete sys left)
    ]

-- A virtqueue after `virtio_virtq_release`, which zeroes it: its descriptor is 0.
abbrev pub no_vq : DataVq
no_vq = record {
  shared = no_shared;
  notify_fd = some 0;
  qsz = 0;
  last_avail = 0;
  used_gpa_base = 0;
  has_event_idx = false;
  inflight_region = none;
}

-- `virtio_virtq_release`, `vring_reset` and the counter, at the end of `vring_mark_drained`.
abbrev pub release_vring : (index : ℕ) → Ring → Conn → Conn
unfolding vring_reset
release_vring i r d = record (put_ring i (vring_reset (record r { vq = no_vq })) d) {
  closed = close_ring r d.closed;
  num_vrings_in_flight = d.num_vrings_in_flight - 1;
}

-- The part of `vring_mark_drained` behind `on_drain_cb`.
unfoldable pub drained_vring : Sys → (index : ℕ) → Conn → Option Conn
unfolding vring_reset conn_maybe_drained
drained_vring sys i d = elim (get_elem? d.vrings i) [
  | none ↦ none
  | some r ↦
      if d.num_vrings_in_flight == 0 then none else conn_maybe_drained sys (release_vring i r d)
]

-- The answer of `vhost_send_vring_base` to a vring that is drained.
unfoldable pub drained_out : Sys → (index : ℕ) → Option Errno × Conn → Option Conn
unfolding vdev_disconnect drained_vring
drained_out sys i (none, d) = drained_vring sys i d
drained_out sys i (some e, d) = elim (vdev_disconnect sys d) [
  | none ↦ none
  | some d' ↦ drained_vring sys i d'
]

-- `vring_mark_drained`
unfoldable pub vring_mark_drained : Sys → (index : ℕ) → Conn → Option Conn
unfolding vhost_send_vring_base drained_out
vring_mark_drained sys i d = elim (get_elem? d.vrings i) [
  | none ↦ none
  | some r ↦
      let stopped = record r { started_in_ctl = false } in
      let answered = record stopped { on_drain_cb = false } in
      if not r.started_in_ctl
      then none
      else if not r.on_drain_cb
      then drained_vring sys i (put_ring i stopped d)
      else drained_out sys i (vhost_send_vring_base sys i stopped (put_ring i answered d))
]

-- `vring_mark_stopped`, of a server that goes on listening.
unfoldable pub vring_mark_stopped : Sys → Conn → Option Conn
unfolding conn_maybe_drained
vring_mark_stopped sys d =
    if d.num_vrings_started == 0
    then none
    else conn_maybe_drained sys (record d { num_vrings_started = d.num_vrings_started - 1 })

abbrev pub and_then : Option Conn → (Conn → Option Conn) → Option Conn
and_then none f = none
and_then (some d) f = f d

-- `vring_start_failed_bh`
unfoldable pub vring_start_failed : Sys → (index : ℕ) → Conn → Option Conn
unfolding vring_mark_msg_handled vring_mark_stopped vring_mark_drained
vring_start_failed sys i d =
    and_then (vring_mark_msg_handled sys (record d { handle_complete = some kick_fail_complete }))
      (λ d'. and_then (vring_mark_stopped sys d') (vring_mark_drained sys i))

-- The part of `vring_start_bh` and of `vring_sync_to_virtq_bh` that copies the shadow of the vring.
unfoldable pub sync_vring : (index : ℕ) → Conn → Option Conn
unfolding vring_sync_to_virtq
sync_vring i d = elim (get_elem? d.vrings i) [
  | none ↦ none
  | some r ↦ some (put_ring i (vring_sync_to_virtq r) d)
]

-- What the calls of `server_read` answer: `accept4`, `timerfd_create`, and whether the two io
-- handlers were added.
pub record AcceptSys : Type 0 where
  pub accept : Result ℕ
  pub conn_added : Bool
  pub timerfd_create : Result ℕ
  pub timer_added : Bool

-- `server_read`
unfoldable pub server_read : AcceptSys → Conn → Option Conn
server_read sys d = elim d.connfd [
  | some fd ↦ none
  | none ↦ elim sys.accept [
    | err e ↦ some d
    | ok connfd ↦
        let accepted = record d { opened = connfd ∷ d.opened } in
        let closed = record accepted { closed = connfd ∷ d.closed } in
        if not sys.conn_added then some closed else elim sys.timerfd_create [
          | err e ↦ some closed
          | ok timerfd ↦
              let timed = timerfd ∷ (connfd ∷ d.opened) in
              if not sys.timer_added
              then some (record d { opened = timed; closed = connfd ∷ (timerfd ∷ d.closed) })
              else some (record d {
                opened = timed;
                connfd = some connfd;
                conn_handler = attached;
                timerfd = some timerfd;
                timer_handler = detached;
                negotiated_features = λ bit. false;
                negotiated_protocol_features = λ bit. false;
              })
        ]
  ]
]

-- A vring as `vhd_vdev_init_server` sets it up.
abbrev pub new_ring : Ring
new_ring = record {
  kickfd = none;
  callfd = none;
  errfd = none;
  started_in_ctl = false;
  disconnecting = false;
  on_drain_cb = false;
  addr_cache = no_addrs;
  shadow_vq = no_shared;
  vq = no_vq;
}

-- `vhd_vdev_init_server`, once it has the listening socket: the device with `max_queues` vrings.
unfoldable pub init_server : Callback → Callback → (supported : Features) → (max_queues : ℕ) → Conn
init_server map_cb unmap_cb supported max_queues = record {
  connfd = none;
  conn_handler = gone;
  timerfd = none;
  timer_handler = gone;
  req = req_none;
  ack_pending = false;
  supported_protocol_features = supported;
  negotiated_protocol_features = λ bit. false;
  supported_features = λ bit. false;
  negotiated_features = λ bit. false;
  vrings = replicate max_queues new_ring;
  map_cb = map_cb;
  unmap_cb = unmap_cb;
  memmap = none;
  old_memmap = none;
  memlog = none;
  old_memlog = none;
  inflight_mem = none;
  inflight_size = 0;
  num_vrings_in_flight = 0;
  num_vrings_started = 0;
  num_vrings_handling_msg = 0;
  handle_complete = none;
  keep_fd = none;
  opened = [];
  closed = [];
  sent = [];
  finishes = 0;
  posted = [];
  calls = [];
  freed_logs = [];
  unmapped_logs = [];
  unmapped_inflight = [];
}
