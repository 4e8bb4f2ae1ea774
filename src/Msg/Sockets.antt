-- ===== src/Msg/Sockets.antt =====
-- The timer of a connection lives as long as its socket (vdev.c).
use ya_vhost.Prelude.{
  ℕ, ◌≡◌, List, length, Option, none, some, Bool, true, false, not, ◌&&◌, ◌||◌, arith, Bool-cases,
  Option-cases, inl, inr,
}
use ya_vhost.Msg.Dispatch.{MsgPayload, vhost_handle_msg}
use ya_vhost.MemMap.Mapping.{Result-cases}
use ya_vhost.Msg.Memory.{
  MemRegion, vhost_set_mem_table, vhost_set_log_base, drop_map, complete_mem_table,
  complete_log_base,
}
use ya_vhost.Msg.Inflight.{
  vhost_get_inflight_fd, vhost_set_inflight_fd, inflight_mmap_region, inflight_mem_cleanup,
}
use ya_vhost.Msg.State.{Addrs, Ring, Complete, Handler, gone, attached, detached, Conn, Sys, Out}
use ya_vhost.Msg.Reply.{
  reply, reply_fds, ack, handle_finish, handle_msg, handle_all, msg_u64_get_vring,
}
use ya_vhost.Msg.Features.{
  vhost_get_features, vhost_get_protocol_features, vhost_set_protocol_features, vhost_set_features,
  vhost_set_owner, vhost_get_queue_num, vhost_get_config,
}
use ya_vhost.Msg.Rings.{
  swap_fd, dup_fd, open_fd, vhost_set_vring_call, vhost_set_vring_err, vhost_set_vring_kick,
  kick_vring, start_vring, vhost_set_vring_num, vhost_set_vring_base, set_stopped_vring,
  vhost_get_vring_base, vhost_send_vring_base, vhost_set_vring_addr,
}

abbrev is_none : {A : Type 0} → Option A → Bool
is_none none = true
is_none (some a) = false

abbrev is_gone : Handler → Bool
is_gone gone = true
is_gone detached = false
is_gone attached = false

-- A device that has a timer has its handler and a connection.
unfoldable pub paired : Conn → Bool
paired d = is_none d.timerfd || (not (is_none d.connfd) && not (is_gone d.timer_handler))

unfoldable pub paired_in : Out → Bool
unfolding paired
paired_in none = true
paired_in (some (res, d)) = paired d

swap_fd-paired :
    (sys : Sys) (c : Complete) (i : ℕ) (old : Option ℕ) (install : Option ℕ → Ring) (new : Option ℕ)
    (d : Conn)
    → paired d ≡ true
    → paired_in (swap_fd sys c i old install new d) ≡ true
unfolding swap_fd handle_msg ack reply reply_fds handle_finish paired_in
swap_fd-paired sys c i old install new d h = elim (Option-cases d.keep_fd) [
  | inl e ↦ elim (Bool-cases (install new).started_in_ctl) [
    | inl f ↦ ground (arith, e, f, h)
    | inr f ↦ ground (arith, e, f, h)
  ]
  | inr (fd, e) ↦ ground (arith, e)
]

module _ (sys : Sys) (d : Conn) (h : paired d ≡ true) where
  get_features-paired : (n : ℕ) → paired_in (vhost_get_features sys n d) ≡ true
  unfolding vhost_get_features reply reply_fds handle_finish paired_in
  get_features-paired n = ground (arith, h)

  get_protocol_features-paired : (n : ℕ) → paired_in (vhost_get_protocol_features sys n d) ≡ true
  unfolding vhost_get_protocol_features reply reply_fds handle_finish paired_in
  get_protocol_features-paired n = ground (arith, h)

  set_protocol_features-paired :
      (f : ℕ → Bool) (s n : ℕ) → paired_in (vhost_set_protocol_features sys f s n d) ≡ true
  unfolding vhost_set_protocol_features ack reply reply_fds handle_finish paired_in
  set_protocol_features-paired f s n = ground (arith, h)

  set_owner-paired : (n : ℕ) → paired_in (vhost_set_owner sys n d) ≡ true
  unfolding vhost_set_owner ack reply reply_fds handle_finish paired_in
  set_owner-paired n = ground (arith, h)

  get_queue_num-paired : (n : ℕ) → paired_in (vhost_get_queue_num sys n d) ≡ true
  unfolding vhost_get_queue_num reply reply_fds handle_finish paired_in
  get_queue_num-paired n = ground (arith, h)

  get_config-paired : (o a s n : ℕ) → paired_in (vhost_get_config sys o a s n d) ≡ true
  unfolding vhost_get_config reply reply_fds handle_finish paired_in
  get_config-paired o a s n = ground (arith, h)

  set_features-paired : (f : ℕ → Bool) (s n : ℕ) → paired_in (vhost_set_features sys f s n d) ≡ true
  unfolding vhost_set_features ack reply reply_fds handle_finish handle_all paired_in
  set_features-paired f s n = ground (arith, h)

  set_vring_call-paired : (u s n : ℕ) → paired_in (vhost_set_vring_call sys u s n d) ≡ true
  unfolding vhost_set_vring_call paired_in
  set_vring_call-paired u s n = elim (Option-cases (msg_u64_get_vring d u s n)) [
    | inl e ↦ ground (arith, e, h)
    | inr ((i, r), e) ↦ elim (Result-cases (dup_fd sys n)) [
      | inr (x, f) ↦ ground (arith, e, f, h)
      | inl (new, f) ↦ ground (
        arith,
        e,
        f,
        swap_fd-paired sys Complete.call_complete i r.callfd (λ x. record r { callfd = x }) new
            (open_fd new d) h,
      )
    ]
  ]

  set_vring_err-paired : (u s n : ℕ) → paired_in (vhost_set_vring_err sys u s n d) ≡ true
  unfolding vhost_set_vring_err paired_in
  set_vring_err-paired u s n = elim (Option-cases (msg_u64_get_vring d u s n)) [
    | inl e ↦ ground (arith, e, h)
    | inr ((i, r), e) ↦ elim (Result-cases (dup_fd sys n)) [
      | inr (x, f) ↦ ground (arith, e, f, h)
      | inl (new, f) ↦ ground (
        arith,
        e,
        f,
        swap_fd-paired sys Complete.err_complete i r.errfd (λ x. record r { errfd = x }) new
            (open_fd new d) h,
      )
    ]
  ]

  set_vring_kick-paired : (u s n : ℕ) → paired_in (vhost_set_vring_kick sys u s n d) ≡ true
  unfolding vhost_set_vring_kick kick_vring start_vring handle_msg paired_in
  set_vring_kick-paired u s n = ground (arith, h)

  set_vring_num-paired : (i v s n : ℕ) → paired_in (vhost_set_vring_num sys i v s n d) ≡ true
  unfolding vhost_set_vring_num set_stopped_vring ack reply reply_fds handle_finish paired_in
  set_vring_num-paired i v s n = ground (arith, h)

  set_vring_base-paired : (i v s n : ℕ) → paired_in (vhost_set_vring_base sys i v s n d) ≡ true
  unfolding vhost_set_vring_base set_stopped_vring ack reply reply_fds handle_finish paired_in
  set_vring_base-paired i v s n = ground (arith, h)

  get_vring_base-paired : (i s n : ℕ) → paired_in (vhost_get_vring_base sys i s n d) ≡ true
  unfolding vhost_get_vring_base vhost_send_vring_base reply reply_fds handle_finish paired_in
  get_vring_base-paired i s n = ground (arith, h)

  set_vring_addr-paired :
      (i f : ℕ) (a : Addrs) (u s n : ℕ) → paired_in (vhost_set_vring_addr sys i f a u s n d) ≡ true
  unfolding vhost_set_vring_addr handle_msg ack reply reply_fds handle_finish paired_in
  set_vring_addr-paired i f a u s n = ground (arith, h)

  get_inflight_fd-paired : (q z s n : ℕ) → paired_in (vhost_get_inflight_fd sys q z s n d) ≡ true
  unfolding vhost_get_inflight_fd inflight_mmap_region inflight_mem_cleanup reply_fds handle_finish
      paired_in
  get_inflight_fd-paired q z s n = ground (arith, h)

  set_inflight_fd-paired :
      (m o q z s n : ℕ) → paired_in (vhost_set_inflight_fd sys m o q z s n d) ≡ true
  unfolding vhost_set_inflight_fd inflight_mmap_region inflight_mem_cleanup ack reply reply_fds
      handle_finish paired_in
  set_inflight_fd-paired m o q z s n = ground (arith, h)

  set_log_base-paired : (s n : ℕ) → paired_in (vhost_set_log_base sys s n d) ≡ true
  unfolding vhost_set_log_base complete_log_base handle_all reply reply_fds handle_finish paired_in
  set_log_base-paired s n = ground (arith, h)

  set_mem_table-paired :
      (k : ℕ) (rs : List MemRegion) (s : ℕ) (fds : List ℕ) (n : ℕ)
      → paired_in (vhost_set_mem_table sys k rs s fds n d) ≡ true
  unfolding vhost_set_mem_table drop_map complete_mem_table handle_all ack reply reply_fds
      handle_finish paired_in
  set_mem_table-paired k rs s fds n = ground (arith, h)

  pub handle_msg-paired :
      (req : ℕ) (p : MsgPayload) (size : ℕ) (fds : List ℕ)
      → paired_in (vhost_handle_msg sys req p size fds d) ≡ true
  unfolding vhost_handle_msg paired_in
  handle_msg-paired req p size fds =
      let n = length fds in
      ground (
        arith,
        h,
        get_features-paired n,
        set_features-paired p.features size n,
        set_owner-paired n,
        set_mem_table-paired p.nregions p.regions size fds n,
        set_log_base-paired size n,
        set_vring_num-paired p.index p.num size n,
        set_vring_addr-paired p.index p.vring_flags p.vring_addrs p.used_gpa_base size n,
        set_vring_base-paired p.index p.num size n,
        get_vring_base-paired p.index size n,
        set_vring_kick-paired p.u64 size n,
        set_vring_call-paired p.u64 size n,
        set_vring_err-paired p.u64 size n,
        get_protocol_features-paired n,
        set_protocol_features-paired p.features size n,
        get_queue_num-paired n,
        get_config-paired p.config_offset p.config_size size n,
        get_inflight_fd-paired p.num_queues p.queue_size size n,
        set_inflight_fd-paired p.mmap_size p.mmap_offset p.num_queues p.queue_size size n,
      )
