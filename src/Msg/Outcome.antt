-- ===== src/Msg/Outcome.antt =====
-- How a message that comes over a connection ends (conn_read of vdev.c).
use ya_vhost.Prelude.{
  ℕ, suc, ◌≡◌, ◌≢◌, ◌<◌, ◌≤◌, refl, ap, List, ◌++◌, length, Option, none, some, Bool, true, false,
  ◌&&◌, ◌==◌, ltb, arith, Bool-cases, ◌⊎◌, inl, inr, subst, ◌∙◌, sym, if_true, if_false,
}
use mathlib.Core.Option.{some-injective}
use ya_vhost.Errno.{Result, ok, err}
use ya_vhost.Msg.Net.{net_recv_msg, max_fds, Recv}
use ya_vhost.Msg.State.{Conn, Sys, Out}
use ya_vhost.Msg.Reply.{req_none, handle_start, handle_finish, msg_ack_needed, started_vrings}
use ya_vhost.Msg.Dispatch.{MsgPayload, vhost_handle_msg}
use ya_vhost.Msg.Settles
use ya_vhost.Msg.Settles.{
  settles, finished, unfinished, awaited, is_attached, is_detached, IsHandling,
}
use ya_vhost.Msg.Close.{is_gone, cleanup, conn_maybe_drained, vdev_disconnect, disconnected}
use ya_vhost.Msg.Read.{
  Incoming, conn_read_out, conn_read, conn_read_received, received, sizeof_payload,
}

handle_msg-settles :
    (sys : Sys) (req : ℕ) (p : MsgPayload) (size : ℕ) (fds : List ℕ) (d : Conn)
    → IsHandling d
    → settles d (vhost_handle_msg sys req p size fds d) ≡ true
unfolding vhost_handle_msg settles
handle_msg-settles sys req p size fds d h =
    let n = length fds in
    ground (
      arith,
      h.closed,
      Settles.get_features-settles sys d h n,
      Settles.set_features-settles sys d h p.features size n,
      Settles.set_owner-settles sys d h n,
      Settles.set_mem_table-settles sys d h p.nregions p.regions size fds n,
      Settles.set_log_base-settles sys d h size n,
      Settles.set_vring_num-settles sys d h p.index p.num size n,
      Settles.set_vring_addr-settles sys d h p.index p.vring_flags p.vring_addrs p.used_gpa_base
          size n,
      Settles.set_vring_base-settles sys d h p.index p.num size n,
      Settles.get_vring_base-settles sys d h p.index size n,
      Settles.set_vring_kick-settles sys d h p.u64 size n,
      Settles.set_vring_call-settles sys d h p.u64 size n,
      Settles.set_vring_err-settles sys d h p.u64 size n,
      Settles.get_protocol_features-settles sys d h n,
      Settles.set_protocol_features-settles sys d h p.features size n,
      Settles.get_queue_num-settles sys d h n,
      Settles.get_config-settles sys d h p.config_offset p.config_size size n,
      Settles.get_inflight_fd-settles sys d h p.num_queues p.queue_size size n,
      Settles.set_inflight_fd-settles sys d h p.mmap_size p.mmap_offset p.num_queues p.queue_size
          size n,
    )

-- The connection is gone, and what the message did is as it was.
unfoldable pub dropped : Conn → Option Conn → Bool
dropped d none = true
dropped d (some d') =
    is_gone d'.conn_handler
    && d'.req == d.req
    && d'.finishes == d.finishes
    && length d'.sent == length d.sent

cleanup-dropped :
    (sys : Sys) (d : Conn) → is_gone d.conn_handler ≡ true → dropped d (cleanup sys d) ≡ true
unfolding cleanup dropped
cleanup-dropped sys d g = ground (arith, g)

disconnect-dropped :
    (sys : Sys) (d : Conn)
    → is_gone d.conn_handler ≡ false
    → dropped d (vdev_disconnect sys d) ≡ true
unfolding vdev_disconnect conn_maybe_drained dropped
disconnect-dropped sys d g = ground (arith, g, cleanup-dropped sys (disconnected d) refl)

-- The message was finished, once, with one reply at most, and the next one is accepted.
pub record IsAnswered (d d' : Conn) : Type 0 where
  pub finishes : d'.finishes ≡ suc d.finishes
  pub accepts : is_attached d'.conn_handler ≡ true
  pub req : d'.req ≡ req_none
  pub sent : length d'.sent ≤ suc (length d.sent)

-- The message `req` is in handling, without a reply so far; no other is accepted, and a bottom half was
-- scheduled that goes on with it.
pub record IsAwaited (req : ℕ) (d d' : Conn) : Type 0 where
  pub finishes : d'.finishes ≡ d.finishes
  pub waits : is_detached d'.conn_handler ≡ true
  pub pending : d'.req ≡ req
  pub sent : length d'.sent ≡ length d.sent
  pub scheduled : (0 < d'.num_vrings_handling_msg) ⊎ (length d'.posted ≡ suc (length d.posted))

-- The message was finished, without a reply, and the connection is gone.
pub record IsRefused (d d' : Conn) : Type 0 where
  pub gone : is_gone d'.conn_handler ≡ true
  pub sent : length d'.sent ≡ length d.sent
  pub finishes : d'.finishes ≡ suc d.finishes
  pub req : d'.req ≡ req_none

-- No message came, and the connection is gone.
pub record IsUnread (d d' : Conn) : Type 0 where
  pub gone : is_gone d'.conn_handler ≡ true
  pub sent : length d'.sent ≡ length d.sent
  pub finishes : d'.finishes ≡ d.finishes
  pub req : d'.req ≡ d.req

abbrev pub Ends : ℕ → Conn → Conn → Type 0
Ends req d d' = IsAnswered d d' ⊎ IsAwaited req d d' ⊎ IsRefused d d'

finished-IsAnswered : (d d' : Conn) → finished d d' ≡ true → IsAnswered d d'
unfolding finished
finished-IsAnswered d d' e = record {
  finishes = ground (arith, e);
  accepts = ground (arith, e);
  req = ground (arith, e);
  sent = ground (arith, e);
}

awaited-scheduled :
    (d d' : Conn)
    → awaited d d' ≡ true
    → (0 < d'.num_vrings_handling_msg) ⊎ (length d'.posted ≡ suc (length d.posted))
unfolding awaited
awaited-scheduled d d' e = elim (Bool-cases (ltb 0 d'.num_vrings_handling_msg)) [
  | inl y ↦ inl (ground arith)
  | inr n ↦ inr (ground (arith, e))
]

unfinished-IsAwaited :
    (d d' : Conn) → unfinished d d' ≡ true → awaited d d' ≡ true → IsAwaited d.req d d'
unfolding unfinished
unfinished-IsAwaited d d' e a = record {
  finishes = ground (arith, e);
  waits = ground (arith, e);
  pending = ground (arith, e);
  sent = ground (arith, e);
  scheduled = awaited-scheduled d d' a;
}

dropped-IsRefused :
    (d x d' : Conn)
    → unfinished d x ≡ true
    → dropped (handle_finish x) (some d') ≡ true
    → IsRefused d d'
unfolding unfinished dropped handle_finish
dropped-IsRefused d x d' u e = record {
  gone = ground (arith, e);
  sent = ground (arith, e, u);
  finishes = ground (arith, e, u);
  req = ground (arith, e);
}

unfinished-kept :
    (d x : Conn) → unfinished d x ≡ true → is_gone (handle_finish x).conn_handler ≡ false
unfolding unfinished handle_finish
unfinished-kept d x u = ground (arith, u)

conn_read_out-Ends :
    (sys : Sys) (fds : List ℕ) (out : Out) (d d' : Conn)
    → settles d out ≡ true
    → conn_read_out sys fds out ≡ some d'
    → Ends d.req d d'
unfolding conn_read_out settles
conn_read_out-Ends sys fds none d d' s e = absurd (ground (arith, e))
conn_read_out-Ends sys fds (some (none, x)) d d' s e =
    let x' = record x { closed = fds ++ x.closed } in
    subst (Ends d.req d) (some-injective x' d' e) (elim (Bool-cases (finished d x)) [
      | inl f ↦ inl (finished-IsAnswered d x' f)
      | inr n ↦ inr (inl (unfinished-IsAwaited d x' (ground (arith, s, n)) (ground (arith, s, n))))
    ])
conn_read_out-Ends sys fds (some (some er, x)) d d' s e =
    let x' = record x { closed = fds ++ x.closed } in
    let g = disconnect-dropped sys (handle_finish x') (unfinished-kept d x' s) in
    inr (inr (dropped-IsRefused d x' d' s (rw e at g)))

-- What `vdev_handle_start` changes is not what the end of a message is told by.
Ends-handle_start :
    (req : ℕ) (ack : Bool) (d x d' : Conn)
    → x.finishes ≡ d.finishes
    → x.sent ≡ d.sent
    → x.posted ≡ d.posted
    → Ends req (handle_start req ack x) d'
    → Ends req d d'
unfolding handle_start
Ends-handle_start req ack d x d' f s p (inl a) = inl (record {
  finishes = a.finishes ∙ ap suc f;
  accepts = a.accepts;
  req = a.req;
  sent = ground (arith, a.sent);
})
Ends-handle_start req ack d x d' f s p (inr (inl w)) = inr (
    inl (record {
      finishes = w.finishes ∙ f;
      waits = w.waits;
      pending = w.pending;
      sent = w.sent ∙ ap length s;
      scheduled = elim w.scheduled [
        | inl h ↦ inl h
        | inr e ↦ inr (e ∙ ap (λ xs. suc (length xs)) p)
      ];
    }))
Ends-handle_start req ack d x d' f s p (inr (inr r)) = inr (
    inr (record {
      gone = r.gone;
      sent = r.sent ∙ ap length s;
      finishes = r.finishes ∙ ap suc f;
      req = r.req;
    }))

Ends-received : (req : ℕ) (r : Recv) (d d' : Conn) → Ends req (received r d) d' → Ends req d d'
Ends-received req r d d' (inl a) =
    inl (record { finishes = a.finishes; accepts = a.accepts; req = a.req; sent = a.sent })
Ends-received req r d d' (inr (inl w)) = inr (
    inl (record {
      finishes = w.finishes;
      waits = w.waits;
      pending = w.pending;
      sent = w.sent;
      scheduled = w.scheduled;
    }))
Ends-received req r d d' (inr (inr x)) =
    inr (inr (record { gone = x.gone; sent = x.sent; finishes = x.finishes; req = x.req }))

dropped-IsUnread : (d d' : Conn) → dropped d (some d') ≡ true → IsUnread d d'
unfolding dropped
dropped-IsUnread d d' e = record {
  gone = ground (arith, e);
  sent = ground (arith, e);
  finishes = ground (arith, e);
  req = ground (arith, e);
}

received-Ends :
    (sys : Sys) (m : Incoming) (res : Result ℕ) (fds : List ℕ) (d d' : Conn)
    → is_gone d.conn_handler ≡ false
    → (d.num_vrings_in_flight ≢ 0 → 0 < started_vrings d.vrings)
    → conn_read_received sys m res fds d ≡ some d'
    → Ends m.req d d' ⊎ IsUnread d d'
unfolding conn_read_received handle_start
received-Ends sys m (err x) fds d d' c used e =
    inr (dropped-IsUnread d d' (rw e at (disconnect-dropped sys d c)))
received-Ends sys m (ok n) fds d d' c used e =
    let acks = msg_ack_needed d m.flags in
    let start = handle_start m.req acks d in
    let out = vhost_handle_msg sys m.req m.payload m.size fds start in
    let handling : IsHandling start = record { closed = refl; used = used } in
    elim (Bool-cases (n == 0)) [
      | inl z ↦
          let gone = sym (if_true (vdev_disconnect sys d) (conn_read_out sys fds out) z) ∙ e in
          inr (dropped-IsUnread d d' (rw gone at (disconnect-dropped sys d c)))
      | inr z ↦
          let read = sym (if_false (vdev_disconnect sys d) (conn_read_out sys fds out) z) ∙ e in
          inl (
            Ends-handle_start m.req acks d d d' refl refl refl (
              conn_read_out-Ends sys fds out start d'
                (handle_msg-settles sys m.req m.payload m.size fds start handling) read))
    ]

-- A message on a connection that is open ends in one of four ways: it was finished once, with one reply
-- at most, and the next one is accepted; it waits, unfinished, for a bottom half that was scheduled; it
-- was refused, finished once, without a reply, and the connection is gone; or it did not come whole,
-- and the connection is gone. If a vring may have requests in flight, one is started.
pub conn_read-Ends :
    (sys : Sys) (m : Incoming) (d d' : Conn)
    → is_gone d.conn_handler ≡ false
    → (d.num_vrings_in_flight ≢ 0 → 0 < started_vrings d.vrings)
    → conn_read sys m d ≡ some d'
    → Ends m.req d d' ⊎ IsUnread d d'
unfolding conn_read
conn_read-Ends sys m d d' listens used e =
    let r = net_recv_msg m.recvmsg m.size m.read sizeof_payload max_fds in
    elim (received-Ends sys m r.result r.fds (received r d) d' listens used e) [
      | inl ends ↦ inl (Ends-received m.req r d d' ends)
      | inr u ↦ inr (record { gone = u.gone; sent = u.sent; finishes = u.finishes; req = u.req })
    ]
