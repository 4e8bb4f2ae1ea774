-- ===== src/Msg/Stranded.antt =====
-- A reply that cannot be sent once the vrings have handled a message (vdev.c).
use ya_vhost.Prelude.{
  ℕ, ◌≡◌, ◌≢◌, refl, none, some, true, false, get_elem?, arith, Option-cases, inl, inr,
}
use ya_vhost.Errno.{Errno}
use ya_vhost.Msg.State.{Ring, Conn, Sys}
use ya_vhost.Msg.Reply.{req_none, reply, reply_fds, put_ring}
use ya_vhost.Msg.Rings.{vhost_send_vring_base}
use ya_vhost.Msg.Close.{is_gone, cleanup, conn_maybe_drained, vdev_disconnect, disconnected}
use ya_vhost.Msg.Bottom.{drained_vring, vring_mark_drained, drained_out, release_vring}

-- The connection is gone, and its message was not finished.
pub record IsStranded (d : Conn) : Type 0 where
  pub gone : is_gone d.conn_handler ≡ true
  pub unfinished : d.req ≢ req_none

-- Such a connection cannot be closed: `vdev_cleanup` asserts that there is no message.
cleanup-IsStranded : (sys : Sys) (d : Conn) → IsStranded d → cleanup sys d ≡ none
unfolding cleanup
cleanup-IsStranded sys d s = ground (arith, s.unfinished)

maybe_drained-IsStranded :
    (sys : Sys) (d : Conn)
    → IsStranded d
    → d.num_vrings_in_flight ≡ 0
    → d.num_vrings_handling_msg ≡ 0
    → d.num_vrings_started ≡ 0
    → conn_maybe_drained sys d ≡ none
unfolding conn_maybe_drained
maybe_drained-IsStranded sys d s f h t = ground (arith, cleanup-IsStranded sys d s, s.gone)

drained_vring-IsStranded :
    (sys : Sys) (i : ℕ) (d : Conn)
    → IsStranded d
    → d.num_vrings_in_flight ≡ 1
    → d.num_vrings_handling_msg ≡ 0
    → d.num_vrings_started ≡ 0
    → drained_vring sys i d ≡ none
unfolding drained_vring
drained_vring-IsStranded sys i d s f h t = elim (Option-cases (get_elem? d.vrings i)) [
  | inl e ↦ rw (e, drained_vring)
  | inr (r, e) ↦
      let last = release_vring i r d in
      let closed =
        maybe_drained-IsStranded sys last (record { gone = s.gone; unfinished = s.unfinished })
          (omega arith) h t in
      rw (e, drained_vring) (ground (arith, closed))
]

-- A connection that is in use is only taken apart.
disconnect-used :
    (sys : Sys) (d : Conn)
    → is_gone d.conn_handler ≡ false
    → d.num_vrings_in_flight ≢ 0
    → vdev_disconnect sys d ≡ some (disconnected d)
unfolding vdev_disconnect conn_maybe_drained
disconnect-used sys d c f = ground (arith, c)

-- The client asked for the base of a vring that runs, the last one that may have requests in flight. Once
-- it is drained, its state cannot be sent, because the client has closed the connection. Then the
-- function that ends the connection fails an assertion.
pub mark_drained-unsent :
    (sys : Sys) (i : ℕ) (d : Conn) (r : Ring) (e : Errno)
    → get_elem? d.vrings i ≡ some r
    → r.started_in_ctl ≡ true
    → r.on_drain_cb ≡ true
    → sys.send ≡ some e
    → is_gone d.conn_handler ≡ false
    → d.req ≢ req_none
    → d.num_vrings_in_flight ≡ 1
    → d.num_vrings_handling_msg ≡ 0
    → d.num_vrings_started ≡ 0
    → vring_mark_drained sys i d ≡ none
unfolding vring_mark_drained drained_out vhost_send_vring_base reply reply_fds
mark_drained-unsent sys i d r e here started waits lost listens req f h t =
    let d' = put_ring i (record r { started_in_ctl = false; on_drain_cb = false }) d in
    let after = disconnect-used sys d' listens (omega arith) in
    let last =
      drained_vring-IsStranded sys i (disconnected d') (record { gone = refl; unfinished = req }) f
        h t in
    rw (here, vring_mark_drained) (ground (arith, after, last))
