-- ===== src/Msg/Settles.antt =====
-- What every handler of a message leaves behind (vdev.c).
use ya_vhost.Prelude.{
  ℕ, suc, ◌≡◌, ◌≢◌, ◌<◌, refl, List, [], ◌∷◌, length, Option, none, some, Bool, true, false, ◌&&◌,
  ◌||◌, ◌==◌, ltb, leb, arith, Option-cases, inl, inr, map, take,
}
use ya_vhost.Errno.{Errno}
use ya_vhost.MemMap.Slots.{MemoryMap, memmap_new}
use ya_vhost.Msg.Memory.{
  MemRegion, add_slots, update_started, vhost_set_mem_table, vhost_set_log_base,
}
use ya_vhost.Msg.Inflight.{vhost_get_inflight_fd, vhost_set_inflight_fd}
use ya_vhost.Msg.State.{
  Addrs, Ring, Handler, gone, attached, detached, Payload, Conn, Sys, Out, RqBh,
}
use ya_vhost.Msg.Reply.{
  req_none, reply, reply_fds, ack, handle_finish, handle_msg, handle_all, started_vrings,
}
use ya_vhost.Msg.Features.{
  vhost_get_features, vhost_get_protocol_features, vhost_set_protocol_features, vhost_set_features,
  vhost_set_owner, vhost_get_queue_num, vhost_get_config, with_log, shadow_log,
}
use ya_vhost.Msg.Rings.{
  swap_fd, vhost_set_vring_call, vhost_set_vring_err, vhost_set_vring_kick, start_vring,
  vhost_set_vring_num, vhost_set_vring_base, set_stopped_vring, vhost_get_vring_base,
  vhost_send_vring_base, vhost_set_vring_addr, vring_update_shadow_vq_addrs,
}

abbrev pub is_attached : Handler → Bool
is_attached gone = false
is_attached detached = false
is_attached attached = true

abbrev pub is_detached : Handler → Bool
is_detached gone = false
is_detached detached = true
is_detached attached = false

-- The message was finished once, the device accepts the next one, and it sent one reply at most.
unfoldable pub finished : Conn → Conn → Bool
finished d d' =
    d'.finishes == suc d.finishes
    && is_attached d'.conn_handler
    && d'.req == req_none
    && leb (length d'.sent) (suc (length d.sent))

-- The message is not finished, and nothing was replied.
unfoldable pub unfinished : Conn → Conn → Bool
unfinished d d' =
    d'.finishes == d.finishes
    && is_detached d'.conn_handler
    && d'.req == d.req
    && length d'.sent == length d.sent

-- A bottom half is to end it.
unfoldable pub awaited : Conn → Conn → Bool
awaited d d' = ltb 0 d'.num_vrings_handling_msg || length d'.posted == suc (length d.posted)

-- A message that succeeds is finished or awaited, and one that fails is not finished.
unfoldable pub settles : Conn → Out → Bool
unfolding finished unfinished awaited
settles d none = true
settles d (some (none, d')) = finished d d' || (unfinished d d' && awaited d d')
settles d (some (some e, d')) = unfinished d d'

-- `vdev_handle_start` was called, and a vring that may have requests in flight is a started one.
pub record IsHandling (d : Conn) : Type 0 where
  pub closed : d.conn_handler ≡ detached
  pub used : d.num_vrings_in_flight ≢ 0 → 0 < started_vrings d.vrings

-- Two devices that a handler has not told apart.
pub record Same (d d' : Conn) : Type 0 where
  pub finishes : d'.finishes ≡ d.finishes
  pub conn_handler : d'.conn_handler ≡ detached
  pub req : d'.req ≡ d.req
  pub sent : length d'.sent ≡ length d.sent

reply-settles :
    (d d' : Conn) (sys : Sys) (p : Payload) (len : ℕ) (fds : List ℕ)
    → Same d d'
    → settles d (some (reply_fds sys p len fds d')) ≡ true
unfolding reply_fds handle_finish settles
reply-settles d d' sys p len fds s = elim (Option-cases sys.send) [
  | inl e ↦ ground (arith, s.conn_handler)
  | inr (x, e) ↦ ground (arith, s.conn_handler)
]

ack-settles :
    (d d' : Conn) (sys : Sys) (ret : Option Errno)
    → Same d d'
    → settles d (some (ack sys ret d')) ≡ true
unfolding ack reply handle_finish settles
ack-settles d d' sys ret s =
    ground (arith, reply-settles d d' sys (Payload.status ret) 8 [] s, s.conn_handler)

-- A reply to what a handler sends, whose refusals are left to the caller.
refuse-settles : (d : Conn) (e : Errno) → IsHandling d → settles d (some (some e, d)) ≡ true
unfolding settles
refuse-settles d e h = ground (arith, h.closed)

-- The vrings that are started end the message.
handle_all-settles :
    (d d' : Conn) (bh : RqBh)
    → Same d d'
    → 0 < started_vrings d'.vrings
    → settles d (some (none, handle_all bh d')) ≡ true
unfolding handle_all settles
handle_all-settles d d' bh s used = ground (arith, s.finishes, s.conn_handler, s.req, s.sent)

handle_msg-settles :
    (d d' : Conn) (bh : RqBh) (i : ℕ) (r : Ring)
    → Same d d'
    → r.started_in_ctl ≡ true
    → settles d (some (none, handle_msg bh i r d')) ≡ true
unfolding handle_msg settles
handle_msg-settles d d' bh i r s started = ground (arith, s.finishes, s.conn_handler, s.req, s.sent)

started_vrings-with_log :
    (log : Option ℕ) (rs : List Ring) → started_vrings (map (with_log log) rs) ≡ started_vrings rs
unfolding started_vrings
started_vrings-with_log log [] = refl
started_vrings-with_log log (r ∷ rs) = ground (arith, started_vrings-with_log log rs)

update_started-started_vrings :
    (mm : MemoryMap) (rs : List Ring) → started_vrings (update_started mm rs).1 ≡ started_vrings rs
unfolding started_vrings update_started vring_update_shadow_vq_addrs
update_started-started_vrings mm [] = refl
update_started-started_vrings mm (r ∷ rs) = ground (arith, update_started-started_vrings mm rs)

module _ (sys : Sys) (d : Conn) (h : IsHandling d) where
  pub get_features-settles : (n : ℕ) → settles d (vhost_get_features sys n d) ≡ true
  unfolding vhost_get_features reply reply_fds handle_finish settles
  get_features-settles n = ground (arith, h.closed)

  pub get_protocol_features-settles :
      (n : ℕ) → settles d (vhost_get_protocol_features sys n d) ≡ true
  unfolding vhost_get_protocol_features reply reply_fds handle_finish settles
  get_protocol_features-settles n = ground (arith, h.closed)

  pub set_protocol_features-settles :
      (f : ℕ → Bool) (s n : ℕ) → settles d (vhost_set_protocol_features sys f s n d) ≡ true
  unfolding vhost_set_protocol_features ack reply reply_fds handle_finish settles
  set_protocol_features-settles f s n = ground (arith, h.closed)

  pub set_owner-settles : (n : ℕ) → settles d (vhost_set_owner sys n d) ≡ true
  unfolding vhost_set_owner ack reply reply_fds handle_finish settles
  set_owner-settles n = ground (arith, h.closed)

  pub get_queue_num-settles : (n : ℕ) → settles d (vhost_get_queue_num sys n d) ≡ true
  unfolding vhost_get_queue_num reply reply_fds handle_finish settles
  get_queue_num-settles n = ground (arith, h.closed)

  pub get_config-settles : (o a s n : ℕ) → settles d (vhost_get_config sys o a s n d) ≡ true
  unfolding vhost_get_config reply reply_fds handle_finish settles
  get_config-settles o a s n = ground (arith, h.closed)

  pub set_features-settles :
      (f : ℕ → Bool) (s n : ℕ) → settles d (vhost_set_features sys f s n d) ≡ true
  unfolding vhost_set_features ack reply reply_fds handle_finish settles handle_all
  set_features-settles f s n = ground (
    arith,
    h.closed,
    h.used,
    started_vrings-with_log (shadow_log (record d { negotiated_features = f })) d.vrings,
  )

  pub set_vring_call-settles : (u s n : ℕ) → settles d (vhost_set_vring_call sys u s n d) ≡ true
  unfolding vhost_set_vring_call swap_fd handle_msg ack reply reply_fds handle_finish settles
  set_vring_call-settles u s n = ground (arith, h.closed)

  pub set_vring_err-settles : (u s n : ℕ) → settles d (vhost_set_vring_err sys u s n d) ≡ true
  unfolding vhost_set_vring_err swap_fd handle_msg ack reply reply_fds handle_finish settles
  set_vring_err-settles u s n = ground (arith, h.closed)

  pub set_vring_kick-settles : (u s n : ℕ) → settles d (vhost_set_vring_kick sys u s n d) ≡ true
  unfolding vhost_set_vring_kick start_vring handle_msg settles
  set_vring_kick-settles u s n = ground (arith, h.closed)

  pub set_vring_num-settles : (i v s n : ℕ) → settles d (vhost_set_vring_num sys i v s n d) ≡ true
  unfolding vhost_set_vring_num set_stopped_vring ack reply reply_fds handle_finish settles
  set_vring_num-settles i v s n = ground (arith, h.closed)

  pub set_vring_base-settles : (i v s n : ℕ) → settles d (vhost_set_vring_base sys i v s n d) ≡ true
  unfolding vhost_set_vring_base set_stopped_vring ack reply reply_fds handle_finish settles
  set_vring_base-settles i v s n = ground (arith, h.closed)

  pub get_vring_base-settles : (i s n : ℕ) → settles d (vhost_get_vring_base sys i s n d) ≡ true
  unfolding vhost_get_vring_base vhost_send_vring_base reply reply_fds handle_finish settles
  get_vring_base-settles i s n = ground (arith, h.closed)

  pub set_vring_addr-settles :
      (i f : ℕ) (a : Addrs) (u s n : ℕ) → settles d (vhost_set_vring_addr sys i f a u s n d) ≡ true
  unfolding vhost_set_vring_addr handle_msg ack reply reply_fds handle_finish settles
  set_vring_addr-settles i f a u s n = ground (arith, h.closed)

  pub get_inflight_fd-settles :
      (q z s n : ℕ) → settles d (vhost_get_inflight_fd sys q z s n d) ≡ true
  unfolding vhost_get_inflight_fd reply_fds handle_finish settles
  get_inflight_fd-settles q z s n = ground (arith, h.closed)

  pub set_inflight_fd-settles :
      (m o q z s n : ℕ) → settles d (vhost_set_inflight_fd sys m o q z s n d) ≡ true
  unfolding vhost_set_inflight_fd ack reply reply_fds handle_finish settles
  set_inflight_fd-settles m o q z s n = ground (arith, h.closed)

  pub set_log_base-settles : (s n : ℕ) → settles d (vhost_set_log_base sys s n d) ≡ true
  unfolding vhost_set_log_base handle_all reply reply_fds handle_finish settles
  set_log_base-settles s n = ground (
    arith,
    h.closed,
    h.used,
    started_vrings-with_log
        (elim sys.memlog_new [
          | none ↦ none
          | some log ↦ shadow_log (record d { memlog = some log })
        ])
        d.vrings,
  )

  pub set_mem_table-settles :
      (k : ℕ) (rs : List MemRegion) (s : ℕ) (fds : List ℕ) (n : ℕ)
      → settles d (vhost_set_mem_table sys k rs s fds n d) ≡ true
  unfolding vhost_set_mem_table handle_all ack reply reply_fds handle_finish settles
  set_mem_table-settles k rs s fds n =
      let mm = (add_slots sys.os (take k rs) fds (memmap_new d.map_cb d.unmap_cb)).1 in
      ground (arith, h.closed, h.used, update_started-started_vrings mm d.vrings)
