-- ===== src/Msg/Balance.antt =====
-- What the handlers of messages do to the descriptors of a device (vdev.c).
use ya_vhost.Prelude.{
  ℕ, ◌+◌, ◌≡◌, refl, ap, List, ◌∷◌, length, Option, none, some, Bool, true, false, get_elem?,
  get_elem?-set_self, get_elem?-lt, min, arith, Bool-cases, Option-cases, inl, inr, take, times,
  u16,
}
use ya_vhost.MemMap.Mapping.{Result-cases}
use ya_vhost.MemMap.Slots.{MemoryMap, memmap_new}
use ya_vhost.Msg.State.{Addrs, Ring, Complete, Conn, Sys, close_fd}
use ya_vhost.Msg.Reply.{
  reply, reply_fds, ack, handle_finish, handle_msg, handle_all, put_ring, get_vring,
  msg_u64_get_vring,
}
use ya_vhost.Msg.Features.{
  vhost_get_features, vhost_get_protocol_features, vhost_set_protocol_features, vhost_set_features,
  vhost_set_owner, vhost_get_queue_num, vhost_get_config, with_log, shadow_log,
}
use ya_vhost.Msg.Rings.{
  swap_fd, dup_fd, open_fd, vhost_set_vring_call, vhost_set_vring_err, vhost_set_vring_kick,
  kick_vring, start_vring, vhost_set_vring_num, vhost_set_vring_base, set_stopped_vring,
  vhost_get_vring_base, vhost_send_vring_base, vhost_set_vring_addr, vring_update_shadow_vq_addrs,
  vring_sync_to_virtq,
}
use ya_vhost.Msg.Memory.{MemRegion, add_slots, vhost_set_mem_table, vhost_set_log_base}
use ya_vhost.Msg.Inflight.{
  vhost_get_inflight_fd, vhost_set_inflight_fd, inflight_mmap_region, vring_inflight_buf_size,
  inflight_mem_cleanup,
}
use ya_vhost.Msg.Held.{
  at, ring_at, held, opened_in, settled_in, Balanced, Balances, times-close_fd, rings_at-set,
  rings_at-set_same, set-set, rings_at-map, rings_at-set_regions, rings_at-update_started,
  get_vring-elem,
}

start_vring-balance :
    (sys : Sys) (d : Conn) (b k i fd : ℕ) (r : Ring)
    → get_elem? d.vrings i ≡ some r
    → times b d.opened ≡ times b d.closed + held b d + k + at b (some fd)
    → Balances b k (start_vring sys i r fd d)
unfolding start_vring handle_msg opened_in settled_in
start_vring-balance sys d b k i fd r here h = elim (Option-cases r.kickfd) [
  | inl e ↦
      let r' = record (vring_sync_to_virtq (record r { kickfd = some fd })) {
        started_in_ctl = true;
      } in
      ground (arith, e, h, rings_at-set b d.vrings i r r' here)
  | inr (x, e) ↦ ground (arith, e)
]

-- The shadow of a vring holds no descriptors.
update_shadow-ring_at :
    (b : ℕ) (r r' : Ring) (mm : MemoryMap)
    → vring_update_shadow_vq_addrs r mm ≡ some r'
    → ring_at b r' ≡ ring_at b r
unfolding vring_update_shadow_vq_addrs
update_shadow-ring_at b r r' mm e = ground (arith, e)

kick_vring-balance :
    (sys : Sys) (d : Conn) (b k i : ℕ) (r : Ring) (n : ℕ)
    → get_elem? d.vrings i ≡ some r
    → Balanced b k d
    → Balances b k (kick_vring sys n i r d)
unfolding kick_vring opened_in settled_in
kick_vring-balance sys d b k i r n here h = elim (Option-cases d.memmap) [
  | inl e ↦ ground (arith, e, h)
  | inr (mm, e) ↦ elim (Option-cases (vring_update_shadow_vq_addrs r mm)) [
    | inl f ↦ ground (arith, e, f, h)
    | inr (r', f) ↦
        let same = rings_at-set_same b d.vrings i r r' here (update_shadow-ring_at b r r' mm f) in
        elim (Result-cases sys.dup) [
          | inr (x, g) ↦ ground (arith, e, f, g, h, same)
          | inl (fd, g) ↦
              let d' = open_fd (some fd) (put_ring i r' d) in
              let there = get_elem?-set_self d.vrings i r' (get_elem?-lt d.vrings i here) in
              let started =
                start_vring-balance sys d' b k i fd r' there
                  (omega (arith, h, same, times-close_fd b (some fd) d.opened)) in
              ground (arith, e, f, g, h, started)
        ]
  ]
]

-- The mapping of an inflight region moves no descriptor.
record IsUnmoved (b : ℕ) (d d' : Conn) : Type 0 where
  opened : d'.opened ≡ d.opened
  closed : d'.closed ≡ d.closed
  held : held b d' ≡ held b d

mmap_region-IsUnmoved :
    (b : ℕ) (sys : Sys) (size n : ℕ) (d : Conn)
    → IsUnmoved b d (inflight_mmap_region sys size n d).1
unfolding inflight_mmap_region inflight_mem_cleanup
mmap_region-IsUnmoved b sys size n d =
    let kept = λ (buf : ℕ). rings_at-set_regions b buf size (min n (length d.vrings)) 0 d.vrings in
    elim (Result-cases sys.mmap) [
      | inl (buf, e) ↦ record {
        opened = ground (arith, e);
        closed = ground (arith, e);
        held = ground (arith, e, kept buf);
      }
      | inr (x, e) ↦ record {
        opened = ground (arith, e);
        closed = ground (arith, e);
        held = ground (arith, e);
      }
    ]

-- The end of two messages, which put the descriptor `new`, just opened, in place of `old`.
module _ (sys : Sys) (d : Conn) (b k i : ℕ) (r : Ring) (old new : Option ℕ)
    (install : Option ℕ → Ring) (here : get_elem? d.vrings i ≡ some r)
    (changes : (x : Option ℕ) → ring_at b (install x) + at b old ≡ ring_at b r + at b x)
    (h : times b d.opened ≡ times b d.closed + held b d + k + at b new) where
  swap_fd-idle :
      (c : Complete)
      → d.keep_fd ≡ none
      → (install new).started_in_ctl ≡ false
      → Balances b k (swap_fd sys c i old install new d)
  unfolding swap_fd ack reply reply_fds handle_finish opened_in settled_in
  swap_fd-idle c e f = ground (
    arith,
    e,
    f,
    h,
    changes new,
    changes none,
    rings_at-set b d.vrings i r (install new) here,
    rings_at-set b d.vrings i r (install none) here,
    set-set d.vrings i (install new) (install none),
    times-close_fd b old d.closed,
    times-close_fd b new (close_fd old d.closed),
  )

  swap_fd-running :
      (c : Complete)
      → d.keep_fd ≡ none
      → (install new).started_in_ctl ≡ true
      → Balances b k (swap_fd sys c i old install new d)
  unfolding swap_fd handle_msg opened_in settled_in
  swap_fd-running c e f =
      ground (arith, e, f, h, changes new, rings_at-set b d.vrings i r (install new) here)

  swap_fd-balance : (c : Complete) → Balances b k (swap_fd sys c i old install new d)
  unfolding swap_fd opened_in settled_in
  swap_fd-balance c = elim (Option-cases d.keep_fd) [
    | inl e ↦ elim (Bool-cases (install new).started_in_ctl) [
      | inl f ↦ swap_fd-running c e f
      | inr f ↦ swap_fd-idle c e f
    ]
    | inr (fd, e) ↦ ground (arith, e)
  ]

module _ (sys : Sys) (d : Conn) (b k : ℕ) (h : Balanced b k d) where
  pub get_features-balance : (n : ℕ) → Balances b k (vhost_get_features sys n d)
  unfolding vhost_get_features reply reply_fds handle_finish opened_in settled_in
  get_features-balance n = ground (arith, h)

  pub get_protocol_features-balance : (n : ℕ) → Balances b k (vhost_get_protocol_features sys n d)
  unfolding vhost_get_protocol_features reply reply_fds handle_finish opened_in settled_in
  get_protocol_features-balance n = ground (arith, h)

  pub set_protocol_features-balance :
      (f : ℕ → Bool) (s n : ℕ) → Balances b k (vhost_set_protocol_features sys f s n d)
  unfolding vhost_set_protocol_features ack reply reply_fds handle_finish opened_in settled_in
  set_protocol_features-balance f s n = ground (arith, h)

  pub set_owner-balance : (n : ℕ) → Balances b k (vhost_set_owner sys n d)
  unfolding vhost_set_owner ack reply reply_fds handle_finish opened_in settled_in
  set_owner-balance n = ground (arith, h)

  pub get_queue_num-balance : (n : ℕ) → Balances b k (vhost_get_queue_num sys n d)
  unfolding vhost_get_queue_num reply reply_fds handle_finish opened_in settled_in
  get_queue_num-balance n = ground (arith, h)

  pub get_config-balance : (o a s n : ℕ) → Balances b k (vhost_get_config sys o a s n d)
  unfolding vhost_get_config reply reply_fds handle_finish opened_in settled_in
  get_config-balance o a s n = ground (arith, h)

  pub set_features-balance :
      (f : ℕ → Bool) (s n : ℕ) → Balances b k (vhost_set_features sys f s n d)
  unfolding vhost_set_features ack reply reply_fds handle_finish handle_all opened_in settled_in
  set_features-balance f s n = ground (
    arith,
    h,
    rings_at-map b (with_log (shadow_log (record d { negotiated_features = f }))) d.vrings
        (λ r. refl),
    rings_at-map b (λ (r : Ring). record r { vq = record (r.vq) { has_event_idx = f 29 } }) d.vrings
        (λ r. refl),
  )

  opened-balance :
      (new : Option ℕ)
      → times b (open_fd new d).opened
        ≡ times b (open_fd new d).closed + held b (open_fd new d) + k + at b new
  opened-balance new = omega (arith, h, times-close_fd b new d.opened)

  pub set_vring_call-balance : (u s n : ℕ) → Balances b k (vhost_set_vring_call sys u s n d)
  unfolding vhost_set_vring_call opened_in settled_in
  set_vring_call-balance u s n = elim (Option-cases (msg_u64_get_vring d u s n)) [
    | inl e ↦ ground (arith, e, h)
    | inr ((i, r), e) ↦ elim (Result-cases (dup_fd sys n)) [
      | inr (x, f) ↦ ground (arith, e, f, h)
      | inl (new, f) ↦
          let swapped =
            swap_fd-balance sys (open_fd new d) b k i r r.callfd new (λ x. record r { callfd = x })
              (get_vring-elem d u s n i r e) (λ x. omega arith) (opened-balance new)
              Complete.call_complete in
          rw (e, vhost_set_vring_call) (rw (f, dup_fd) swapped)
    ]
  ]

  pub set_vring_err-balance : (u s n : ℕ) → Balances b k (vhost_set_vring_err sys u s n d)
  unfolding vhost_set_vring_err opened_in settled_in
  set_vring_err-balance u s n = elim (Option-cases (msg_u64_get_vring d u s n)) [
    | inl e ↦ ground (arith, e, h)
    | inr ((i, r), e) ↦ elim (Result-cases (dup_fd sys n)) [
      | inr (x, f) ↦ ground (arith, e, f, h)
      | inl (new, f) ↦
          let swapped =
            swap_fd-balance sys (open_fd new d) b k i r r.errfd new (λ x. record r { errfd = x })
              (get_vring-elem d u s n i r e) (λ x. omega arith) (opened-balance new)
              Complete.err_complete in
          rw (e, vhost_set_vring_err) (rw (f, dup_fd) swapped)
    ]
  ]

  pub set_vring_kick-balance : (u s n : ℕ) → Balances b k (vhost_set_vring_kick sys u s n d)
  unfolding vhost_set_vring_kick opened_in settled_in
  set_vring_kick-balance u s n = elim (Option-cases (msg_u64_get_vring d u s n)) [
    | inl e ↦ ground (arith, e, h)
    | inr ((i, r), e) ↦
        rw (e, vhost_set_vring_kick)
          (kick_vring-balance sys d b k i r n (get_vring-elem d u s n i r e) h)
  ]

  pub set_stopped-balance :
      (i s n : ℕ) (f : Ring → Ring)
      → ((r : Ring) → ring_at b (f r) ≡ ring_at b r)
      → Balances b k (set_stopped_vring sys i s n f d)
  unfolding set_stopped_vring ack reply reply_fds handle_finish get_vring opened_in settled_in
  set_stopped-balance i s n f same = elim (Option-cases (get_elem? d.vrings (u16 i))) [
    | inl e ↦ ground (arith, e, h)
    | inr (r, e) ↦ ground (arith, e, h, rings_at-set_same b d.vrings (u16 i) r (f r) e (same r))
  ]

  pub set_vring_num-balance : (i v s n : ℕ) → Balances b k (vhost_set_vring_num sys i v s n d)
  unfolding vhost_set_vring_num
  set_vring_num-balance i v s n = set_stopped-balance i s n _ (λ r. refl)

  pub set_vring_base-balance : (i v s n : ℕ) → Balances b k (vhost_set_vring_base sys i v s n d)
  unfolding vhost_set_vring_base
  set_vring_base-balance i v s n = set_stopped-balance i s n _ (λ r. refl)

  pub get_vring_base-balance : (i s n : ℕ) → Balances b k (vhost_get_vring_base sys i s n d)
  unfolding vhost_get_vring_base vhost_send_vring_base reply reply_fds handle_finish get_vring
      opened_in settled_in
  get_vring_base-balance i s n = elim (Option-cases (get_elem? d.vrings (u16 i))) [
    | inl e ↦ ground (arith, e, h)
    | inr (r, e) ↦ ground (
      arith,
      e,
      h,
      rings_at-set_same b d.vrings (u16 i) r (record r { on_drain_cb = true }) e refl,
    )
  ]

  pub set_vring_addr-balance :
      (i f : ℕ) (a : Addrs) (u s n : ℕ) → Balances b k (vhost_set_vring_addr sys i f a u s n d)
  unfolding vhost_set_vring_addr handle_msg ack reply reply_fds handle_finish get_vring opened_in
      settled_in
  set_vring_addr-balance i f a u s n = elim (Option-cases (get_elem? d.vrings (u16 i))) [
    | inl e ↦ ground (arith, e, h)
    | inr (r, e) ↦
        let flagged = record r { shadow_vq = record (r.shadow_vq) { flags = f } } in
        let placed = record flagged { addr_cache = a; vq = record (r.vq) { used_gpa_base = u } } in
        ground (
          arith,
          e,
          h,
          rings_at-set_same b d.vrings (u16 i) r flagged e refl,
          rings_at-set_same b d.vrings (u16 i) r placed e refl,
        )
  ]

  pub get_inflight_fd-balance : (q z s n : ℕ) → Balances b k (vhost_get_inflight_fd sys q z s n d)
  unfolding vhost_get_inflight_fd reply_fds handle_finish opened_in settled_in times
  get_inflight_fd-balance q z s n =
      let size = vring_inflight_buf_size z in
      elim (Result-cases sys.memfd_create) [
        | inr (x, e) ↦ ground (arith, e, h)
        | inl (fd, e) ↦
            let created = record d { opened = fd ∷ d.opened } in
            let same = mmap_region-IsUnmoved b sys size (u16 q) created in
            ground (arith, e, h, ap (times b) same.opened, ap (times b) same.closed, same.held)
      ]

  pub set_inflight_fd-balance :
      (m o q z s n : ℕ) → Balances b k (vhost_set_inflight_fd sys m o q z s n d)
  unfolding vhost_set_inflight_fd ack reply reply_fds handle_finish opened_in settled_in
  set_inflight_fd-balance m o q z s n =
      let same = mmap_region-IsUnmoved b sys (vring_inflight_buf_size z) (u16 q) d in
      ground (arith, h, ap (times b) same.opened, ap (times b) same.closed, same.held)

  pub set_log_base-balance : (s n : ℕ) → Balances b k (vhost_set_log_base sys s n d)
  unfolding vhost_set_log_base handle_all reply reply_fds handle_finish opened_in settled_in
  set_log_base-balance s n = ground (
    arith,
    h,
    rings_at-map b
        (with_log (elim sys.memlog_new [
          | none ↦ none
          | some log ↦ shadow_log (record d { memlog = some log })
        ]))
        d.vrings (λ r. refl),
  )

  pub set_mem_table-balance :
      (j : ℕ) (rs : List MemRegion) (s : ℕ) (fds : List ℕ) (n : ℕ)
      → Balances b k (vhost_set_mem_table sys j rs s fds n d)
  unfolding vhost_set_mem_table handle_all ack reply reply_fds handle_finish opened_in settled_in
  set_mem_table-balance j rs s fds n =
      let mm = (add_slots sys.os (take j rs) fds (memmap_new d.map_cb d.unmap_cb)).1 in
      ground (arith, h, rings_at-update_started b mm d.vrings)
