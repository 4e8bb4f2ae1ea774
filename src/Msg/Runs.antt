-- ===== src/Msg/Runs.antt =====
-- No handler of a message fails an assertion on a device that is between messages (vdev.c).
use ya_vhost.Prelude.{
  ◌==◌, ◌&&◌, get_elem?, ℕ, ◌≡◌, List, length, Option, none, some, Bool, true, false, ◌&&◌, arith,
  Bool-cases, Option-cases, inl, inr,
}
use ya_vhost.Msg.Held.{get_vring-elem}
use ya_vhost.Msg.Dispatch.{MsgPayload, vhost_handle_msg}
use ya_vhost.MemMap.Slots.{MemoryMap}
use ya_vhost.MemMap.Mapping.{Result-cases}
use ya_vhost.Msg.Memory.{
  MemRegion, vhost_set_mem_table, vhost_set_log_base, drop_map, complete_mem_table,
  complete_log_base,
}
use ya_vhost.Msg.Inflight.{
  vhost_get_inflight_fd, vhost_set_inflight_fd, inflight_mmap_region, inflight_mem_cleanup,
}
use ya_vhost.Msg.State.{Addrs, Ring, Complete, Conn, Sys, Out}
use ya_vhost.Msg.Reply.{
  reply, reply_fds, ack, handle_finish, handle_msg, handle_all, msg_u64_get_vring,
}
use ya_vhost.Msg.Features.{
  vhost_get_features, vhost_get_protocol_features, vhost_set_protocol_features, vhost_set_features,
  vhost_set_owner, vhost_get_queue_num, vhost_get_config,
}
use ya_vhost.Msg.Rings.{
  vring_update_shadow_vq_addrs, swap_fd, dup_fd, open_fd, vhost_set_vring_call, vhost_set_vring_err,
  vhost_set_vring_kick, kick_vring, start_vring, vhost_set_vring_num, vhost_set_vring_base,
  set_stopped_vring, vhost_get_vring_base, vhost_send_vring_base, vhost_set_vring_addr,
}

abbrev pub is_none : {A : Type 0} → Option A → Bool
is_none none = true
is_none (some a) = false

-- No message is in handling, and nothing is kept for the end of one.
unfoldable pub clear : Conn → Bool
clear d =
    d.num_vrings_handling_msg == 0
    && is_none d.old_memmap
    && is_none d.old_memlog
    && is_none d.keep_fd

-- No assertion fails, and a message that is refused leaves the device between messages.
unfoldable pub runs : Out → Bool
unfolding clear
runs none = false
runs (some (none, d)) = true
runs (some (some e, d)) = clear d

-- A vring that is stopped has no kick descriptor.
abbrev pub Kickless : Conn → Type 0
Kickless d =
    (i : ℕ) (r : Ring) → get_elem? d.vrings i ≡ some r → r.started_in_ctl ≡ false → r.kickfd ≡ none

swap_fd-runs :
    (sys : Sys) (c : Complete) (i : ℕ) (old : Option ℕ) (install : Option ℕ → Ring) (new : Option ℕ)
    (d : Conn)
    → clear d ≡ true
    → runs (swap_fd sys c i old install new d) ≡ true
unfolding swap_fd handle_msg ack reply reply_fds handle_finish runs
swap_fd-runs sys c i old install new d h = elim (Option-cases d.keep_fd) [
  | inl e ↦ elim (Bool-cases (install new).started_in_ctl) [
    | inl f ↦ ground (arith, e, f, h)
    | inr f ↦ ground (arith, e, f, h)
  ]
  | inr (fd, e) ↦ ground (arith, e, h)
]

update_shadow-kickfd :
    (r r' : Ring) (mm : MemoryMap)
    → vring_update_shadow_vq_addrs r mm ≡ some r'
    → r'.kickfd ≡ r.kickfd
unfolding vring_update_shadow_vq_addrs
update_shadow-kickfd r r' mm e = ground (arith, e)

kick_vring-runs :
    (sys : Sys) (d : Conn)
    → clear d ≡ true
    → (i : ℕ) (r : Ring) (n : ℕ) → is_none d.memmap ≡ false
    → (r.started_in_ctl ≡ false → r.kickfd ≡ none)
    → sys.virtq_init ≡ true
    → runs (kick_vring sys n i r d) ≡ true
unfolding kick_vring start_vring runs
kick_vring-runs sys d h i r n m kick init = elim (Option-cases d.memmap) [
  | inl e ↦ ground (arith, e, m)
  | inr (mm, e) ↦ elim (Option-cases (vring_update_shadow_vq_addrs r mm)) [
    | inl f ↦ ground (arith, e, f, h)
    | inr (r', f) ↦ ground (arith, e, f, h, kick, init, update_shadow-kickfd r r' mm f)
  ]
]

module _ (sys : Sys) (d : Conn) (h : clear d ≡ true) where
  get_features-runs : (n : ℕ) → runs (vhost_get_features sys n d) ≡ true
  unfolding vhost_get_features reply reply_fds handle_finish runs
  get_features-runs n = ground (arith, h)

  get_protocol_features-runs : (n : ℕ) → runs (vhost_get_protocol_features sys n d) ≡ true
  unfolding vhost_get_protocol_features reply reply_fds handle_finish runs
  get_protocol_features-runs n = ground (arith, h)

  set_protocol_features-runs :
      (f : ℕ → Bool) (s n : ℕ) → runs (vhost_set_protocol_features sys f s n d) ≡ true
  unfolding vhost_set_protocol_features ack reply reply_fds handle_finish runs
  set_protocol_features-runs f s n = ground (arith, h)

  set_owner-runs : (n : ℕ) → runs (vhost_set_owner sys n d) ≡ true
  unfolding vhost_set_owner ack reply reply_fds handle_finish runs
  set_owner-runs n = ground (arith, h)

  get_queue_num-runs : (n : ℕ) → runs (vhost_get_queue_num sys n d) ≡ true
  unfolding vhost_get_queue_num reply reply_fds handle_finish runs
  get_queue_num-runs n = ground (arith, h)

  get_config-runs : (o a s n : ℕ) → runs (vhost_get_config sys o a s n d) ≡ true
  unfolding vhost_get_config reply reply_fds handle_finish runs
  get_config-runs o a s n = ground (arith, h)

  set_features-runs : (f : ℕ → Bool) (s n : ℕ) → runs (vhost_set_features sys f s n d) ≡ true
  unfolding vhost_set_features ack reply reply_fds handle_finish handle_all runs
  set_features-runs f s n = ground (arith, h)

  set_vring_call-runs : (u s n : ℕ) → runs (vhost_set_vring_call sys u s n d) ≡ true
  unfolding vhost_set_vring_call runs
  set_vring_call-runs u s n = elim (Option-cases (msg_u64_get_vring d u s n)) [
    | inl e ↦ ground (arith, e, h)
    | inr ((i, r), e) ↦ elim (Result-cases (dup_fd sys n)) [
      | inr (x, f) ↦ ground (arith, e, f, h)
      | inl (new, f) ↦ ground (
        arith,
        e,
        f,
        swap_fd-runs sys Complete.call_complete i r.callfd (λ x. record r { callfd = x }) new
            (open_fd new d) h,
      )
    ]
  ]

  set_vring_err-runs : (u s n : ℕ) → runs (vhost_set_vring_err sys u s n d) ≡ true
  unfolding vhost_set_vring_err runs
  set_vring_err-runs u s n = elim (Option-cases (msg_u64_get_vring d u s n)) [
    | inl e ↦ ground (arith, e, h)
    | inr ((i, r), e) ↦ elim (Result-cases (dup_fd sys n)) [
      | inr (x, f) ↦ ground (arith, e, f, h)
      | inl (new, f) ↦ ground (
        arith,
        e,
        f,
        swap_fd-runs sys Complete.err_complete i r.errfd (λ x. record r { errfd = x }) new
            (open_fd new d) h,
      )
    ]
  ]

  set_vring_kick-runs :
      (u s n : ℕ)
      → Kickless d
      → is_none d.memmap ≡ false
      → sys.virtq_init ≡ true
      → runs (vhost_set_vring_kick sys u s n d) ≡ true
  unfolding vhost_set_vring_kick runs
  set_vring_kick-runs u s n kicks m init = elim (Option-cases (msg_u64_get_vring d u s n)) [
    | inl e ↦ ground (arith, e, h)
    | inr ((i, r), e) ↦
        let here = get_vring-elem d u s n i r e in
        ground (arith, e, h, kick_vring-runs sys d h i r n m (kicks i r here) init)
  ]

  set_vring_num-runs : (i v s n : ℕ) → runs (vhost_set_vring_num sys i v s n d) ≡ true
  unfolding vhost_set_vring_num set_stopped_vring ack reply reply_fds handle_finish runs
  set_vring_num-runs i v s n = ground (arith, h)

  set_vring_base-runs : (i v s n : ℕ) → runs (vhost_set_vring_base sys i v s n d) ≡ true
  unfolding vhost_set_vring_base set_stopped_vring ack reply reply_fds handle_finish runs
  set_vring_base-runs i v s n = ground (arith, h)

  get_vring_base-runs : (i s n : ℕ) → runs (vhost_get_vring_base sys i s n d) ≡ true
  unfolding vhost_get_vring_base vhost_send_vring_base reply reply_fds handle_finish runs
  get_vring_base-runs i s n = ground (arith, h)

  set_vring_addr-runs :
      (i f : ℕ) (a : Addrs) (u s n : ℕ) → runs (vhost_set_vring_addr sys i f a u s n d) ≡ true
  unfolding vhost_set_vring_addr handle_msg ack reply reply_fds handle_finish runs
  set_vring_addr-runs i f a u s n = ground (arith, h)

  get_inflight_fd-runs : (q z s n : ℕ) → runs (vhost_get_inflight_fd sys q z s n d) ≡ true
  unfolding vhost_get_inflight_fd inflight_mmap_region inflight_mem_cleanup reply_fds handle_finish
      runs
  get_inflight_fd-runs q z s n = ground (arith, h)

  set_inflight_fd-runs : (m o q z s n : ℕ) → runs (vhost_set_inflight_fd sys m o q z s n d) ≡ true
  unfolding vhost_set_inflight_fd inflight_mmap_region inflight_mem_cleanup ack reply reply_fds
      handle_finish runs
  set_inflight_fd-runs m o q z s n = ground (arith, h)

  set_log_base-runs : (s n : ℕ) → runs (vhost_set_log_base sys s n d) ≡ true
  unfolding vhost_set_log_base complete_log_base handle_all reply reply_fds handle_finish runs
  set_log_base-runs s n = ground (arith, h)

  set_mem_table-runs :
      (k : ℕ) (rs : List MemRegion) (s : ℕ) (fds : List ℕ) (n : ℕ)
      → runs (vhost_set_mem_table sys k rs s fds n d) ≡ true
  unfolding vhost_set_mem_table drop_map complete_mem_table handle_all ack reply reply_fds
      handle_finish runs
  set_mem_table-runs k rs s fds n = ground (arith, h)

  pub handle_msg-runs :
      (req : ℕ) (p : MsgPayload) (size : ℕ) (fds : List ℕ)
      → (req ≡ 12 → is_none d.memmap ≡ false)
      → (req ≡ 12 → sys.virtq_init ≡ true)
      → Kickless d
      → runs (vhost_handle_msg sys req p size fds d) ≡ true
  unfolding vhost_handle_msg runs
  handle_msg-runs req p size fds mapped init kicks =
      let n = length fds in
      ground (
        arith,
        h,
        get_features-runs n,
        set_features-runs p.features size n,
        set_owner-runs n,
        set_mem_table-runs p.nregions p.regions size fds n,
        set_log_base-runs size n,
        set_vring_num-runs p.index p.num size n,
        set_vring_addr-runs p.index p.vring_flags p.vring_addrs p.used_gpa_base size n,
        set_vring_base-runs p.index p.num size n,
        get_vring_base-runs p.index size n,
        set_vring_kick-runs p.u64 size n kicks,
        set_vring_call-runs p.u64 size n,
        set_vring_err-runs p.u64 size n,
        get_protocol_features-runs n,
        set_protocol_features-runs p.features size n,
        get_queue_num-runs n,
        get_config-runs p.config_offset p.config_size size n,
        get_inflight_fd-runs p.num_queues p.queue_size size n,
        set_inflight_fd-runs p.mmap_size p.mmap_offset p.num_queues p.queue_size size n,
      )
