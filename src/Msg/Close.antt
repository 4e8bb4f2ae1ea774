-- ===== src/Msg/Close.antt =====
-- The end of a connection: vdev_disconnect and vdev_cleanup (vdev.c). The server goes on listening: its
-- end is part of the life of the vrings.
use ya_vhost.Prelude.{
  ℕ, List, [], ◌∷◌, Option, none, some, Bool, true, false, ◌&&◌, ◌==◌, if◌then◌else◌, map,
}
use ya_vhost.Msg.State.{
  Ring, Handler, gone, detached, attached, stop_bh, Conn, Sys, close_fd, close_ring, vring_reset,
}
use ya_vhost.Msg.Reply.{req_none, post_started}
use ya_vhost.Msg.Memory.{drop_map}
use ya_vhost.Msg.Inflight.{inflight_mem_cleanup}

abbrev is_none : {A : Type 0} → Option A → Bool
is_none none = true
is_none (some a) = false

abbrev drop_memmap : Sys → Conn → Conn
drop_memmap sys d = elim d.memmap [
  | none ↦ d
  | some mm ↦ record (drop_map sys.os mm d) { memmap = none }
]

abbrev drop_memlog : Conn → Conn
drop_memlog d = elim d.memlog [
  | none ↦ d
  | some log ↦ record d { memlog = none; unmapped_logs = log ∷ d.unmapped_logs }
]

abbrev drop_timer : Conn → Conn
drop_timer d = elim d.timer_handler [
  | gone ↦ d
  | detached ↦ record d {
    timer_handler = gone;
    timerfd = none;
    closed = close_fd d.timerfd d.closed;
  }
  | attached ↦ record d {
    timer_handler = gone;
    timerfd = none;
    closed = close_fd d.timerfd d.closed;
  }
]

-- `vdev_cleanup`: `none` if one of its assertions fails.
unfoldable pub cleanup : Sys → Conn → Option Conn
unfolding inflight_mem_cleanup drop_map
cleanup sys d =
    let d' = drop_timer (drop_memlog (drop_memmap sys (inflight_mem_cleanup d))) in
    if d.num_vrings_handling_msg == 0
      && d.req == req_none
      && is_none d.old_memmap
      && is_none d.old_memlog
      && is_none d.keep_fd
    then some (record d' { connfd = none; closed = close_fd d'.connfd d'.closed })
    else none

abbrev pub is_gone : Handler → Bool
is_gone gone = true
is_gone detached = false
is_gone attached = false

-- `vdev_maybe_drained`, of a server that goes on listening.
unfoldable pub conn_maybe_drained : Sys → Conn → Option Conn
unfolding cleanup
conn_maybe_drained sys d =
    if d.num_vrings_in_flight == 0
      && d.num_vrings_handling_msg == 0
      && is_gone d.conn_handler
      && d.num_vrings_started == 0
    then cleanup sys d
    else some d

-- `vring_disconnect`, but for what it schedules and closes.
unfoldable pub disconnect_vring : Ring → Ring
unfolding vring_reset
disconnect_vring r = if r.started_in_ctl then record r { disconnecting = true } else vring_reset r

-- The descriptors that `vring_disconnect` closes, over all vrings.
unfoldable pub close_stopped : List Ring → List ℕ → List ℕ
close_stopped [] closed = closed
close_stopped (r ∷ rs) closed =
    close_stopped rs (if r.started_in_ctl then closed else close_ring r closed)

-- The device when `vdev_disconnect` has gone over its vrings.
abbrev pub disconnected : Conn → Conn
unfolding disconnect_vring close_stopped
disconnected d = record d {
  conn_handler = gone;
  vrings = map disconnect_vring d.vrings;
  posted = post_started stop_bh 0 d.vrings d.posted;
  closed = close_stopped d.vrings d.closed;
}

-- `vdev_disconnect`
unfoldable pub vdev_disconnect : Sys → Conn → Option Conn
unfolding disconnect_vring close_stopped conn_maybe_drained
vdev_disconnect sys d =
    if is_gone d.conn_handler then some d else conn_maybe_drained sys (disconnected d)
