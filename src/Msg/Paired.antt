-- ===== src/Msg/Paired.antt =====
-- The timer of a connection lives as long as its socket, past its messages (vdev.c).
use ya_vhost.Prelude.{
  ℕ, ◌-◌, ◌≡◌, refl, List, ◌++◌, Option, none, some, Bool, true, false, get_elem?, arith,
  Option-cases, inl, inr,
}
use ya_vhost.Errno.{Errno, Result, ok, err}
use ya_vhost.Msg.Net.{net_recv_msg, max_fds}
use ya_vhost.Msg.State.{Ring, Complete, Conn, Sys, Out}
use ya_vhost.Msg.Reply.{
  handle_start, handle_finish, msg_ack_needed, ack, reply, reply_fds, put_ring,
}
use ya_vhost.Msg.Rings.{vhost_send_vring_base}
use ya_vhost.Msg.Memory.{complete_mem_table, complete_log_base, drop_map}
use ya_vhost.Msg.Inflight.{inflight_mem_cleanup}
use ya_vhost.Msg.Dispatch.{vhost_handle_msg}
use ya_vhost.Msg.Sockets.{paired, paired_in, handle_msg-paired}
use ya_vhost.Msg.Close.{cleanup, conn_maybe_drained, vdev_disconnect, disconnected}
use ya_vhost.Msg.Read.{
  Incoming, conn_read_out, conn_read_received, received, sizeof_payload, conn_read,
}
use ya_vhost.Msg.Bottom.{
  run_complete, handled_out, vring_mark_msg_handled, drained_vring, drained_out, release_vring,
  vring_mark_drained, vring_mark_stopped, sync_vring, AcceptSys, server_read,
}

unfoldable pub paired_of : Option Conn → Bool
unfolding paired
paired_of none = true
paired_of (some d) = paired d

cleanup-paired : (sys : Sys) (d : Conn) → paired d ≡ true → paired_of (cleanup sys d) ≡ true
unfolding cleanup inflight_mem_cleanup drop_map paired_of
cleanup-paired sys d h = ground (arith, h)

pub maybe_drained-paired :
    (sys : Sys) (d : Conn) → paired d ≡ true → paired_of (conn_maybe_drained sys d) ≡ true
unfolding conn_maybe_drained paired_of
maybe_drained-paired sys d h = ground (arith, h, cleanup-paired sys d h)

disconnect-paired :
    (sys : Sys) (d : Conn) → paired d ≡ true → paired_of (vdev_disconnect sys d) ≡ true
unfolding vdev_disconnect paired_of
disconnect-paired sys d h = ground (arith, h, maybe_drained-paired sys (disconnected d) h)

handle_finish-paired : (d : Conn) → paired d ≡ true → paired (handle_finish d) ≡ true
unfolding handle_finish paired
handle_finish-paired d h = ground (arith, h)

handle_start-paired :
    (req : ℕ) (acks : Bool) (d : Conn) → paired d ≡ true → paired (handle_start req acks d) ≡ true
unfolding handle_start paired
handle_start-paired req acks d h = ground (arith, h)

conn_read_out-paired :
    (sys : Sys) (fds : List ℕ) (out : Out)
    → paired_in out ≡ true
    → paired_of (conn_read_out sys fds out) ≡ true
unfolding conn_read_out paired_in paired_of
conn_read_out-paired sys fds none h = refl
conn_read_out-paired sys fds (some (none, d)) h = h
conn_read_out-paired sys fds (some (some e, d)) h =
    let d' = record d { closed = fds ++ d.closed } in
    disconnect-paired sys (handle_finish d') (handle_finish-paired d' h)

received-paired :
    (sys : Sys) (m : Incoming) (res : Result ℕ) (fds : List ℕ) (d : Conn)
    → paired d ≡ true
    → paired_of (conn_read_received sys m res fds d) ≡ true
unfolding conn_read_received paired_of
received-paired sys m (err x) fds d h = disconnect-paired sys d h
received-paired sys m (ok n) fds d h =
    let start = handle_start m.req (msg_ack_needed d m.flags) d in
    let begun = handle_start-paired m.req (msg_ack_needed d m.flags) d h in
    let out = vhost_handle_msg sys m.req m.payload m.size fds start in
    let handled = handle_msg-paired sys start begun m.req m.payload m.size fds in
    ground (arith, disconnect-paired sys d h, conn_read_out-paired sys fds out handled)

pub conn_read-paired :
    (sys : Sys) (m : Incoming) (d : Conn) → paired d ≡ true → paired_of (conn_read sys m d) ≡ true
unfolding conn_read paired_of
conn_read-paired sys m d h =
    let r = net_recv_msg m.recvmsg m.size m.read sizeof_payload max_fds in
    received-paired sys m r.result r.fds (received r d) h

run_complete-paired :
    (c : Complete) (sys : Sys) (d : Conn)
    → paired d ≡ true
    → paired_in (some (run_complete c sys d)) ≡ true
unfolding run_complete complete_mem_table complete_log_base drop_map ack reply reply_fds
    handle_finish paired_in
run_complete-paired Complete.features_complete sys d h = ground (arith, h)
run_complete-paired Complete.mem_table_complete sys d h = ground (arith, h)
run_complete-paired Complete.call_complete sys d h = ground (arith, h)
run_complete-paired Complete.kick_complete sys d h = ground (arith, h)
run_complete-paired Complete.kick_fail_complete sys d h = ground (arith, h)
run_complete-paired Complete.err_complete sys d h = ground (arith, h)
run_complete-paired Complete.addr_complete sys d h = ground (arith, h)
run_complete-paired Complete.log_base_complete sys d h = ground (arith, h)

handled_out-paired :
    (sys : Sys) (out : Option Errno × Conn)
    → paired_in (some out) ≡ true
    → paired_of (handled_out sys out) ≡ true
unfolding handled_out paired_in paired_of
handled_out-paired sys (none, d) h = h
handled_out-paired sys (some e, d) h = disconnect-paired sys (record d { handle_complete = none }) h

pub msg_handled-paired :
    (sys : Sys) (d : Conn) → paired d ≡ true → paired_of (vring_mark_msg_handled sys d) ≡ true
unfolding vring_mark_msg_handled paired_of
msg_handled-paired sys d h =
    let left = record d { num_vrings_handling_msg = d.num_vrings_handling_msg - 1 } in
    elim (Option-cases d.handle_complete) [
      | inl e ↦ ground (arith, e, h)
      | inr (c, e) ↦ ground (
        arith,
        e,
        h,
        handled_out-paired sys (run_complete c sys left) (run_complete-paired c sys left h),
      )
    ]

drained_vring-paired :
    (sys : Sys) (i : ℕ) (d : Conn) → paired d ≡ true → paired_of (drained_vring sys i d) ≡ true
unfolding drained_vring paired_of
drained_vring-paired sys i d h = elim (Option-cases (get_elem? d.vrings i)) [
  | inl e ↦ ground (arith, e)
  | inr (r, e) ↦ ground (arith, e, maybe_drained-paired sys (release_vring i r d) h)
]

send_base-paired :
    (sys : Sys) (i : ℕ) (r : Ring) (d : Conn)
    → paired d ≡ true
    → paired_in (some (vhost_send_vring_base sys i r d)) ≡ true
unfolding vhost_send_vring_base reply reply_fds handle_finish paired_in
send_base-paired sys i r d h = ground (arith, h)

drained_out-paired :
    (sys : Sys) (i : ℕ) (out : Option Errno × Conn)
    → paired_in (some out) ≡ true
    → paired_of (drained_out sys i out) ≡ true
unfolding drained_out paired_in paired_of
drained_out-paired sys i (none, d) h = drained_vring-paired sys i d h
drained_out-paired sys i (some e, d) h =
    let gone = disconnect-paired sys d h in
    elim (Option-cases (vdev_disconnect sys d)) [
      | inl f ↦ ground (arith, f)
      | inr (d', f) ↦ ground (arith, f, drained_vring-paired sys i d' (rw f at gone))
    ]

pub mark_drained-paired :
    (sys : Sys) (i : ℕ) (d : Conn) → paired d ≡ true → paired_of (vring_mark_drained sys i d) ≡ true
unfolding vring_mark_drained paired_of
mark_drained-paired sys i d h = elim (Option-cases (get_elem? d.vrings i)) [
  | inl e ↦ ground (arith, e)
  | inr (r, e) ↦
      let stopped = record r { started_in_ctl = false } in
      let d' = put_ring i stopped d in
      let d'' = put_ring i (record stopped { on_drain_cb = false }) d in
      ground (
        arith,
        e,
        h,
        drained_vring-paired sys i d' h,
        drained_out-paired sys i (vhost_send_vring_base sys i stopped d'')
            (send_base-paired sys i stopped d'' h),
      )
]

pub mark_stopped-paired :
    (sys : Sys) (d : Conn) → paired d ≡ true → paired_of (vring_mark_stopped sys d) ≡ true
unfolding vring_mark_stopped paired_of
mark_stopped-paired sys d h = ground (
  arith,
  h,
  maybe_drained-paired sys (record d { num_vrings_started = d.num_vrings_started - 1 }) h,
)

pub sync_vring-paired : (i : ℕ) (d : Conn) → paired d ≡ true → paired_of (sync_vring i d) ≡ true
unfolding sync_vring paired_of
sync_vring-paired i d h = ground (arith, h)

pub server_read-paired :
    (sys : AcceptSys) (d : Conn) → paired d ≡ true → paired_of (server_read sys d) ≡ true
unfolding server_read paired_of
server_read-paired sys d h = ground (arith, h)
