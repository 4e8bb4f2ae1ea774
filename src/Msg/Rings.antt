-- ===== src/Msg/Rings.antt =====
-- The messages about one vring: its descriptors, its size and base, and its addresses (vdev.c). The
-- index and the size of a message are those that it came with.
use ya_vhost.Prelude.{
  ℕ, suc, List, ◌∷◌, Option, none, some, Bool, true, not, ◌&&◌, ◌||◌, ◌==◌, ltb, if◌then◌else◌, u16,
}
use ya_vhost.Errno.{Errno, einval, eisconn, enotsup, Result, ok, err}
use ya_vhost.MemMap.Region.{Region, uva_to_ptr}
use ya_vhost.MemMap.Slots.{MemoryMap}
use ya_vhost.Msg.State.{
  Addrs, Ring, Complete, call_complete, err_complete, kick_complete, addr_complete, sync_bh,
  start_bh, stop_bh, vring_state, Conn, Sys, Out, close_fd,
}
use ya_vhost.Msg.Reply.{reply, ack, handle_msg, get_vring, msg_u64_get_vring, put_ring}

-- A pointer that is not NULL.
abbrev resolve : List Region → ℕ → Option ℕ
resolve regs uva = elim (uva_to_ptr regs uva) [
  | none ↦ none
  | some ptr ↦ if ptr == 0 then none else some ptr
]

-- `vring_update_shadow_vq_addrs`: `none` is -EINVAL.
unfoldable pub vring_update_shadow_vq_addrs : Ring → MemoryMap → Option Ring
vring_update_shadow_vq_addrs r mm = elim (resolve mm.regions r.addr_cache.desc) [
  | none ↦ none
  | some desc ↦ elim (resolve mm.regions r.addr_cache.used) [
    | none ↦ none
    | some used ↦ elim (resolve mm.regions r.addr_cache.avail) [
      | none ↦ none
      | some avail ↦ some (record r {
        shadow_vq = record (r.shadow_vq) {
          addrs = record { desc = desc; used = used; avail = avail };
          mm = some mm;
        };
      })
    ]
  ]
]

-- `vring_sync_to_virtq`
unfoldable pub vring_sync_to_virtq : Ring → Ring
vring_sync_to_virtq r = record r {
  vq = record (r.vq) { shared = r.shadow_vq; notify_fd = r.callfd };
}

-- The end of `vhost_set_vring_call` and of `vhost_set_vring_err`, from the assertion on: `install`
-- puts the descriptor in the field that held `old`.
unfoldable pub swap_fd :
    Sys → Complete → (index : ℕ) → (old : Option ℕ) → (Option ℕ → Ring) → Option ℕ → Conn → Out
unfolding ack handle_msg
swap_fd sys complete i old install new d = elim d.keep_fd [
  | some fd ↦ none
  | none ↦
      if not (install new).started_in_ctl
      then (let closed_old = record (put_ring i (install new) d) {
        closed = close_fd old d.closed;
      } in
          let (res, d') = ack sys none closed_old in
          elim res [
            | none ↦ some (none, d')
            | some e ↦
                some (
                  some e,
                  record (put_ring i (install none) d') { closed = close_fd new d'.closed },
                )
          ])
      else (let kept = record (put_ring i (install new) d) {
        keep_fd = old;
        handle_complete = some complete;
      } in
          some (none, handle_msg sync_bh i (install new) kept))
]

-- The duplicate of the descriptor that the message brings, if it brings one.
unfoldable pub dup_fd : Sys → (num_fds : ℕ) → Result (Option ℕ)
dup_fd sys num_fds =
    if ltb 0 num_fds then elim sys.dup [ ok fd ↦ ok (some fd) | err e ↦ err e ] else ok none

abbrev pub open_fd : Option ℕ → Conn → Conn
open_fd fd d = record d { opened = close_fd fd d.opened }

-- `vhost_set_vring_call`
unfoldable pub vhost_set_vring_call : Sys → (u64 size num_fds : ℕ) → Conn → Out
unfolding dup_fd
vhost_set_vring_call sys u64 size num_fds d = elim (msg_u64_get_vring d u64 size num_fds) [
  | none ↦ some (some einval, d)
  | some (i, r) ↦ elim (dup_fd sys num_fds) [
    | err e ↦ some (some e, d)
    | ok fd ↦
        swap_fd sys call_complete i r.callfd (λ new. record r { callfd = new }) fd (open_fd fd d)
  ]
]

-- `vhost_set_vring_err`
unfoldable pub vhost_set_vring_err : Sys → (u64 size num_fds : ℕ) → Conn → Out
unfolding dup_fd
vhost_set_vring_err sys u64 size num_fds d = elim (msg_u64_get_vring d u64 size num_fds) [
  | none ↦ some (some einval, d)
  | some (i, r) ↦ elim (dup_fd sys num_fds) [
    | err e ↦ some (some e, d)
    | ok fd ↦ swap_fd sys err_complete i r.errfd (λ new. record r { errfd = new }) fd (open_fd fd d)
  ]
]

-- The end of `vhost_set_vring_kick`, from the assertion on; `sys.virtq_init` is whether the assertions
-- of `virtio_virtq_init` hold on the inflight memory and the used ring that the client gives.
unfoldable pub start_vring : Sys → (index : ℕ) → Ring → (kickfd : ℕ) → Conn → Out
unfolding vring_sync_to_virtq handle_msg
start_vring sys i r kickfd d = elim r.kickfd [
  | some fd ↦ none
  | none ↦
      let r' = record (vring_sync_to_virtq (record r { kickfd = some kickfd })) {
        started_in_ctl = true;
      } in
      if not sys.virtq_init
      then none
      else some (
        none,
        handle_msg start_bh i r' (record (put_ring i r' d) {
          num_vrings_started = u16 (suc d.num_vrings_started);
          num_vrings_in_flight = u16 (suc d.num_vrings_in_flight);
          handle_complete = some kick_complete;
        }),
      )
]

-- `vhost_set_vring_kick`, once it has the vring: without a memory map it reads through a null pointer.
unfoldable pub kick_vring : Sys → (num_fds index : ℕ) → Ring → Conn → Out
unfolding vring_update_shadow_vq_addrs start_vring
kick_vring sys num_fds i r d =
    if num_fds == 0
    then some (some enotsup, d)
    else if r.started_in_ctl
    then some (some eisconn, d)
    else elim d.memmap [
      | none ↦ none
      | some mm ↦ elim (vring_update_shadow_vq_addrs r mm) [
        | none ↦ some (some einval, d)
        | some r' ↦ elim sys.dup [
          | err e ↦ some (some e, put_ring i r' d)
          | ok fd ↦ start_vring sys i r' fd (open_fd (some fd) (put_ring i r' d))
        ]
      ]
    ]

-- `vhost_set_vring_kick`
unfoldable pub vhost_set_vring_kick : Sys → (u64 size num_fds : ℕ) → Conn → Out
unfolding kick_vring
vhost_set_vring_kick sys u64 size num_fds d = elim (msg_u64_get_vring d u64 size num_fds) [
  | none ↦ some (some einval, d)
  | some (i, r) ↦ kick_vring sys num_fds i r d
]

-- `vhost_set_vring_num` and `vhost_set_vring_base`: `change` sets the field.
unfoldable pub set_stopped_vring : Sys → (index size num_fds : ℕ) → (Ring → Ring) → Conn → Out
set_stopped_vring sys index size num_fds change d =
    if not (num_fds == 0) || ltb size 8 then some (some einval, d) else elim (get_vring d index) [
      | none ↦ some (some einval, d)
      | some r ↦
          if r.started_in_ctl
          then some (some eisconn, d)
          else some (ack sys none (put_ring (u16 index) (change r) d))
    ]

unfoldable pub vhost_set_vring_num : Sys → (index num size num_fds : ℕ) → Conn → Out
unfolding set_stopped_vring
vhost_set_vring_num sys index num size num_fds d =
    set_stopped_vring sys index size num_fds
      (λ r. record r { vq = record (r.vq) { qsz = u16 num } }) d

unfoldable pub vhost_set_vring_base : Sys → (index num size num_fds : ℕ) → Conn → Out
unfolding set_stopped_vring
vhost_set_vring_base sys index num size num_fds d =
    set_stopped_vring sys index size num_fds
      (λ r. record r { vq = record (r.vq) { last_avail = u16 num } }) d

-- `vhost_send_vring_base`
unfoldable pub vhost_send_vring_base : Sys → (index : ℕ) → Ring → Conn → Option Errno × Conn
unfolding reply
vhost_send_vring_base sys i r d = reply sys (vring_state i r.vq.last_avail) 8 d

-- `vhost_get_vring_base`
unfoldable pub vhost_get_vring_base : Sys → (index size num_fds : ℕ) → Conn → Out
unfolding vhost_send_vring_base
vhost_get_vring_base sys index size num_fds d =
    if not (num_fds == 0) || ltb size 8 then some (some einval, d) else elim (get_vring d index) [
      | none ↦ some (some einval, d)
      | some r ↦
          if not r.started_in_ctl
          then some (vhost_send_vring_base sys (u16 index) r d)
          else some (
            none,
            record (put_ring (u16 index) (record r { on_drain_cb = true }) d) {
              posted = (stop_bh, u16 index) ∷ d.posted;
            },
          )
    ]

-- `sizeof(struct vhost_user_vring_addr)`
abbrev pub sizeof_vring_addr : ℕ
sizeof_vring_addr = 40

abbrev same_addrs : Addrs → Addrs → Bool
same_addrs a b = a.desc == b.desc && a.used == b.used && a.avail == b.avail

-- `vhost_set_vring_addr`
unfoldable pub vhost_set_vring_addr :
    Sys → (index flags : ℕ) → Addrs → (used_gpa_base size num_fds : ℕ) → Conn → Out
vhost_set_vring_addr sys index flags addrs used_gpa_base size num_fds d =
    if not (num_fds == 0) || ltb size sizeof_vring_addr
    then some (some einval, d)
    else elim (get_vring d index) [
      | none ↦ some (some einval, d)
      | some r ↦
          let flagged = record r { shadow_vq = record (r.shadow_vq) { flags = flags } } in
          let settled = record flagged {
            addr_cache = addrs;
            vq = record (r.vq) { used_gpa_base = used_gpa_base };
          } in
          if not r.started_in_ctl
          then some (ack sys none (put_ring (u16 index) settled d))
          else if not (same_addrs r.addr_cache addrs && r.vq.used_gpa_base == used_gpa_base)
          then some (some eisconn, d)
          else some (
            none,
            handle_msg sync_bh (u16 index) flagged
                (record (put_ring (u16 index) flagged d) { handle_complete = some addr_complete }),
          )
    ]
