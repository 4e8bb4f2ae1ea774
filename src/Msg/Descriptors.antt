-- ===== src/Msg/Descriptors.antt =====
-- The descriptors of a device over the life of its connections (vdev.c).
use ya_vhost.Prelude.{
  ℕ, ◌+◌, ◌-◌, ◌≡◌, refl, List, [], ◌∷◌, ◌++◌, length, Option, none, some, Bool, ◌==◌,
  if◌then◌else◌, get_elem?, arith, Bool-cases, Option-cases, inl, inr, map, times, times-append,
}
use ya_vhost.Errno.{Errno, Result, ok, err}
use ya_vhost.Msg.Net.{Recv, net_recv_msg, net_recv_msg_left, arrived, max_fds}
use ya_vhost.Msg.State.{Ring, Complete, Conn, Sys, Out, close_fd, close_ring, vring_reset}
use ya_vhost.Msg.Reply.{handle_start, handle_finish, msg_ack_needed, ack, reply, reply_fds}
use ya_vhost.Msg.Memory.{complete_mem_table, complete_log_base, drop_map}
use ya_vhost.Msg.Inflight.{inflight_mem_cleanup}
use ya_vhost.Msg.Dispatch.{MsgPayload, vhost_handle_msg}
use ya_vhost.Msg.Balance
use ya_vhost.Msg.Held.{
  ring_at, rings_at, held, opened_in, settled_in, Balanced, Balances, times-close_fd, rings_at-set,
}
use ya_vhost.Msg.Close.{
  cleanup, conn_maybe_drained, vdev_disconnect, disconnected, disconnect_vring, close_stopped,
}
use ya_vhost.Msg.Bottom.{
  run_complete, handled_out, no_vq, vring_mark_msg_handled, drained_vring, release_vring,
}
use ya_vhost.Msg.Read.{
  Incoming, conn_read_out, conn_read, conn_read_received, received, sizeof_payload,
}

handle_msg-balance :
    (sys : Sys) (req : ℕ) (p : MsgPayload) (size : ℕ) (fds : List ℕ) (d : Conn) (b k : ℕ)
    → Balanced b k d
    → Balances b k (vhost_handle_msg sys req p size fds d)
unfolding vhost_handle_msg opened_in settled_in
handle_msg-balance sys req p size fds d b k h =
    let n = length fds in
    ground (
      arith,
      h,
      Balance.get_features-balance sys d b k h n,
      Balance.set_features-balance sys d b k h p.features size n,
      Balance.set_owner-balance sys d b k h n,
      Balance.set_mem_table-balance sys d b k h p.nregions p.regions size fds n,
      Balance.set_log_base-balance sys d b k h size n,
      Balance.set_vring_num-balance sys d b k h p.index p.num size n,
      Balance.set_vring_addr-balance sys d b k h p.index p.vring_flags p.vring_addrs p.used_gpa_base
          size n,
      Balance.set_vring_base-balance sys d b k h p.index p.num size n,
      Balance.get_vring_base-balance sys d b k h p.index size n,
      Balance.set_vring_kick-balance sys d b k h p.u64 size n,
      Balance.set_vring_call-balance sys d b k h p.u64 size n,
      Balance.set_vring_err-balance sys d b k h p.u64 size n,
      Balance.get_protocol_features-balance sys d b k h n,
      Balance.set_protocol_features-balance sys d b k h p.features size n,
      Balance.get_queue_num-balance sys d b k h n,
      Balance.get_config-balance sys d b k h p.config_offset p.config_size size n,
      Balance.get_inflight_fd-balance sys d b k h p.num_queues p.queue_size size n,
      Balance.set_inflight_fd-balance sys d b k h p.mmap_size p.mmap_offset p.num_queues
          p.queue_size size n,
    )

-- The same of a function that returns no error.
unfoldable pub opened_of : ℕ → Option Conn → ℕ
opened_of b none = 0
opened_of b (some d) = times b d.opened

unfoldable pub settled_of : ℕ → ℕ → Option Conn → ℕ
settled_of b k none = 0
settled_of b k (some d) = times b d.closed + held b d + k

abbrev pub BalancesIf : ℕ → ℕ → Option Conn → Type 0
BalancesIf b k o = opened_of b o ≡ settled_of b k o

cleanup-balance : (sys : Sys) (d : Conn) (b k : ℕ) → Balanced b k d → BalancesIf b k (cleanup sys d)
unfolding cleanup inflight_mem_cleanup drop_map opened_of settled_of times
cleanup-balance sys d b k h = ground (arith, h)

rings_at-disconnect :
    (b : ℕ) (rs : List Ring) (closed : List ℕ)
    → times b (close_stopped rs closed) + rings_at b (map disconnect_vring rs)
      ≡ times b closed + rings_at b rs
unfolding close_stopped rings_at disconnect_vring vring_reset
rings_at-disconnect b [] closed = refl
rings_at-disconnect b (r ∷ rs) closed = ground (
  arith,
  rings_at-disconnect b rs closed,
  rings_at-disconnect b rs (close_ring r closed),
  times-close_fd b r.callfd closed,
  times-close_fd b r.kickfd (close_fd r.callfd closed),
  times-close_fd b r.errfd (close_fd r.kickfd (close_fd r.callfd closed)),
)

pub maybe_drained-balance :
    (sys : Sys) (d : Conn) (b k : ℕ) → Balanced b k d → BalancesIf b k (conn_maybe_drained sys d)
unfolding conn_maybe_drained opened_of settled_of
maybe_drained-balance sys d b k h = ground (arith, h, cleanup-balance sys d b k h)

pub disconnect-balance :
    (sys : Sys) (d : Conn) (b k : ℕ) → Balanced b k d → BalancesIf b k (vdev_disconnect sys d)
unfolding vdev_disconnect opened_of settled_of
disconnect-balance sys d b k h =
    let apart = rings_at-disconnect b d.vrings d.closed in
    ground (arith, h, maybe_drained-balance sys (disconnected d) b k (omega (arith, h, apart)))

reset-ring_at : (b : ℕ) (r : Ring) → ring_at b (vring_reset r) ≡ 0
unfolding vring_reset
reset-ring_at b r = refl

handle_start-balance :
    (req : ℕ) (acks : Bool) (d : Conn) (b k : ℕ)
    → Balanced b k d
    → Balanced b k (handle_start req acks d)
unfolding handle_start
handle_start-balance req acks d b k h = h

handle_finish-balance : (d : Conn) (b k : ℕ) → Balanced b k d → Balanced b k (handle_finish d)
unfolding handle_finish
handle_finish-balance d b k h = h

-- The descriptors of the message are closed.
conn_read_out-balance :
    (sys : Sys) (fds : List ℕ) (out : Out) (b : ℕ)
    → Balances b (times b fds) out
    → BalancesIf b 0 (conn_read_out sys fds out)
unfolding conn_read_out opened_in settled_in opened_of settled_of
conn_read_out-balance sys fds none b h = refl
conn_read_out-balance sys fds (some (none, d)) b h = omega (arith, h, times-append b fds d.closed)
conn_read_out-balance sys fds (some (some e, d)) b h =
    let d' = record d { closed = fds ++ d.closed } in
    let h' : Balanced b 0 d' = omega (arith, h, times-append b fds d.closed) in
    disconnect-balance sys (handle_finish d') b 0 (handle_finish-balance d' b 0 h')

no_fds : (b : ℕ) (fds : List ℕ) → length fds ≡ 0 → times b fds ≡ 0
unfolding times
no_fds b [] e = refl
no_fds b (x ∷ fds) e = absurd (omega (arith, e))

conn_read_received-balance :
    (sys : Sys) (m : Incoming) (res : Result ℕ) (fds : List ℕ) (d : Conn) (b : ℕ)
    → Balanced b (times b fds) d
    → (if arrived res then 0 else length fds) ≡ 0
    → BalancesIf b 0 (conn_read_received sys m res fds d)
unfolding conn_read_received opened_of settled_of
conn_read_received-balance sys m (err x) fds d b h w =
    disconnect-balance sys d b 0 (omega (arith, h, no_fds b fds w))
conn_read_received-balance sys m (ok n) fds d b h w =
    let acks = msg_ack_needed d m.flags in
    let start = handle_start m.req acks d in
    let out = vhost_handle_msg sys m.req m.payload m.size fds start in
    elim (Bool-cases (n == 0)) [
      | inl z ↦
          let none_left = no_fds b fds (ground (arith, z, w)) in
          rw z (disconnect-balance sys d b 0 (omega (arith, h, none_left)))
      | inr z ↦
          let handled =
            handle_msg-balance sys m.req m.payload m.size fds start b (times b fds)
              (handle_start-balance m.req acks d b (times b fds) h) in
          rw z (conn_read_out-balance sys fds out b handled)
    ]

received-balance :
    (r : Recv) (d : Conn) (b : ℕ) → Balanced b 0 d → Balanced b (times b r.fds) (received r d)
received-balance r d b h = omega (
  arith,
  h,
  times-append b r.fds (r.closed ++ d.opened),
  times-append b r.closed d.opened,
  times-append b r.closed d.closed,
)

pub conn_read-balance :
    (sys : Sys) (m : Incoming) (d : Conn) (b : ℕ)
    → Balanced b 0 d
    → BalancesIf b 0 (conn_read sys m d)
unfolding conn_read opened_of settled_of
conn_read-balance sys m d b h =
    let r = net_recv_msg m.recvmsg m.size m.read sizeof_payload max_fds in
    conn_read_received-balance sys m r.result r.fds (received r d) b (received-balance r d b h)
      (net_recv_msg_left m.recvmsg m.size m.read sizeof_payload max_fds)

run_complete-balance :
    (c : Complete) (sys : Sys) (d : Conn) (b : ℕ)
    → Balanced b 0 d
    → Balances b 0 (some (run_complete c sys d))
unfolding run_complete complete_mem_table complete_log_base drop_map ack reply reply_fds
    handle_finish opened_in settled_in
run_complete-balance Complete.features_complete sys d b h = ground (arith, h)
run_complete-balance Complete.mem_table_complete sys d b h = ground (arith, h)
run_complete-balance Complete.call_complete sys d b h =
    ground (arith, h, times-close_fd b d.keep_fd d.closed)
run_complete-balance Complete.kick_complete sys d b h = ground (arith, h)
run_complete-balance Complete.kick_fail_complete sys d b h = ground (arith, h)
run_complete-balance Complete.err_complete sys d b h =
    ground (arith, h, times-close_fd b d.keep_fd d.closed)
run_complete-balance Complete.addr_complete sys d b h = ground (arith, h)
run_complete-balance Complete.log_base_complete sys d b h = ground (arith, h)

handled_out-balance :
    (sys : Sys) (out : Option Errno × Conn) (b : ℕ)
    → Balances b 0 (some out)
    → BalancesIf b 0 (handled_out sys out)
unfolding handled_out opened_in settled_in opened_of settled_of
handled_out-balance sys (none, d) b h = h
handled_out-balance sys (some e, d) b h =
    disconnect-balance sys (record d { handle_complete = none }) b 0 h

pub msg_handled-balance :
    (sys : Sys) (d : Conn) (b : ℕ) → Balanced b 0 d → BalancesIf b 0 (vring_mark_msg_handled sys d)
unfolding vring_mark_msg_handled opened_of settled_of
msg_handled-balance sys d b h =
    let left = record d { num_vrings_handling_msg = d.num_vrings_handling_msg - 1 } in
    elim (Option-cases d.handle_complete) [
      | inl e ↦ ground (arith, e, h)
      | inr (c, e) ↦ ground (
        arith,
        e,
        h,
        handled_out-balance sys (run_complete c sys left) b (run_complete-balance c sys left b h),
      )
    ]

pub drained_vring-balance :
    (sys : Sys) (i : ℕ) (d : Conn) (b : ℕ) → Balanced b 0 d → BalancesIf b 0 (drained_vring sys i d)
unfolding drained_vring opened_of settled_of
drained_vring-balance sys i d b h = elim (Option-cases (get_elem? d.vrings i)) [
  | inl e ↦ ground (arith, e)
  | inr (r, e) ↦
      let closed : Balanced b 0 (release_vring i r d) = omega (
        arith,
        h,
        rings_at-set b d.vrings i r (vring_reset (record r { vq = no_vq })) e,
        reset-ring_at b (record r { vq = no_vq }),
        times-close_fd b r.callfd d.closed,
        times-close_fd b r.kickfd (close_fd r.callfd d.closed),
        times-close_fd b r.errfd (close_fd r.kickfd (close_fd r.callfd d.closed)),
      ) in
      ground (arith, e, maybe_drained-balance sys (release_vring i r d) b 0 closed)
]
