-- ===== src/Msg/Leaks.antt =====
-- The descriptors of a device over any run: of its connections, their messages, and the bottom halves
-- that end them (vdev.c).
use ya_vhost.Prelude.{
  ℕ, zero, suc, ◌+◌, ◌-◌, ◌≡◌, refl, List, [], ◌∷◌, Option, none, some, true, false, get_elem?,
  arith, Option-cases, inl, inr, times, subst, replicate,
}
use mathlib.Core.Option.{some-injective}
use ya_vhost.Errno.{Errno}
use ya_vhost.MemMap.Slots.{Callback}
use ya_vhost.Vdev.Features.{Features}
use ya_vhost.Msg.State.{Ring, kick_fail_complete, Conn, Sys}
use ya_vhost.Msg.Reply.{handle_finish, reply, reply_fds, put_ring}
use ya_vhost.Msg.Rings.{vring_sync_to_virtq, vhost_send_vring_base}
use ya_vhost.Msg.Held.{rings_at, held, Balanced, Balances, opened_in, settled_in, rings_at-set_same}
use ya_vhost.Msg.Descriptors.{
  opened_of, settled_of, BalancesIf, conn_read-balance, msg_handled-balance, drained_vring-balance,
  maybe_drained-balance, disconnect-balance,
}
use ya_vhost.Msg.Close.{vdev_disconnect}
use ya_vhost.Msg.Read.{Incoming, conn_read}
use ya_vhost.Msg.Bottom.{
  vring_mark_msg_handled, drained_out, vring_mark_drained, vring_mark_stopped, vring_start_failed,
  and_then, sync_vring, AcceptSys, server_read, init_server, new_ring,
}
use ya_vhost.Msg.Sockets.{paired}
use ya_vhost.Msg.Paired.{
  paired_of, conn_read-paired, msg_handled-paired, mark_drained-paired, mark_stopped-paired,
  sync_vring-paired, server_read-paired,
}

send_base-balance :
    (sys : Sys) (i : ℕ) (r : Ring) (d : Conn) (b : ℕ)
    → Balanced b 0 d
    → Balances b 0 (some (vhost_send_vring_base sys i r d))
unfolding vhost_send_vring_base reply reply_fds handle_finish opened_in settled_in
send_base-balance sys i r d b h = ground (arith, h)

drained_out-balance :
    (sys : Sys) (i : ℕ) (out : Option Errno × Conn) (b : ℕ)
    → Balances b 0 (some out)
    → BalancesIf b 0 (drained_out sys i out)
unfolding drained_out opened_in settled_in opened_of settled_of
drained_out-balance sys i (none, d) b h = drained_vring-balance sys i d b h
drained_out-balance sys i (some e, d) b h =
    let gone = disconnect-balance sys d b 0 h in
    elim (Option-cases (vdev_disconnect sys d)) [
      | inl f ↦ ground (arith, f)
      | inr (d', f) ↦ ground (arith, f, drained_vring-balance sys i d' b (rw f at gone))
    ]

mark_drained-balance :
    (sys : Sys) (i : ℕ) (d : Conn) (b : ℕ)
    → Balanced b 0 d
    → BalancesIf b 0 (vring_mark_drained sys i d)
unfolding vring_mark_drained opened_of settled_of
mark_drained-balance sys i d b h = elim (Option-cases (get_elem? d.vrings i)) [
  | inl e ↦ ground (arith, e)
  | inr (r, e) ↦
      let stopped = record r { started_in_ctl = false } in
      let answered = record stopped { on_drain_cb = false } in
      let same = rings_at-set_same b d.vrings i r stopped e refl in
      let same' = rings_at-set_same b d.vrings i r answered e refl in
      let d' = put_ring i stopped d in
      let d'' = put_ring i answered d in
      ground (
        arith,
        e,
        h,
        drained_vring-balance sys i d' b (omega (arith, h, same)),
        drained_out-balance sys i (vhost_send_vring_base sys i stopped d'') b
            (send_base-balance sys i stopped d'' b (omega (arith, h, same'))),
      )
]

mark_stopped-balance :
    (sys : Sys) (d : Conn) (b : ℕ) → Balanced b 0 d → BalancesIf b 0 (vring_mark_stopped sys d)
unfolding vring_mark_stopped opened_of settled_of
mark_stopped-balance sys d b h = ground (
  arith,
  h,
  maybe_drained-balance sys (record d { num_vrings_started = d.num_vrings_started - 1 }) b 0 h,
)

sync_vring-balance : (i : ℕ) (d : Conn) (b : ℕ) → Balanced b 0 d → BalancesIf b 0 (sync_vring i d)
unfolding sync_vring vring_sync_to_virtq opened_of settled_of
sync_vring-balance i d b h = elim (Option-cases (get_elem? d.vrings i)) [
  | inl e ↦ ground (arith, e)
  | inr (r, e) ↦
      ground (arith, e, h, rings_at-set_same b d.vrings i r (vring_sync_to_virtq r) e refl)
]

server_read-balance :
    (sys : AcceptSys) (d : Conn) (b : ℕ)
    → Balanced b 0 d
    → paired d ≡ true
    → BalancesIf b 0 (server_read sys d)
unfolding server_read paired opened_of settled_of times
server_read-balance sys d b h p = ground (arith, h, p)

-- Every descriptor was opened as often as it was closed or is held, and a timer has its connection.
pub record IsSound (d : Conn) : Type 0 where
  pub balanced : (b : ℕ) → times b d.opened ≡ times b d.closed + held b d
  pub paired : paired d ≡ true

abbrev SoundIf : Option Conn → Type 0
SoundIf none = Unit
SoundIf (some d) = IsSound d

to_SoundIf : (o : Option Conn) → ((b : ℕ) → BalancesIf b 0 o) → paired_of o ≡ true → SoundIf o
unfolding opened_of settled_of paired_of
to_SoundIf none h p = tt
to_SoundIf (some d) h p = record { balanced = λ b. omega (arith, h b); paired = p }

-- The steps of the control loop, and the copy of a shadow in the loop of the request queue. The client
-- and the system answer as they like.
pub data Move : Type 0 where
  accept : AcceptSys → Move
  read : Sys → Incoming → Move
  msg_handled : Sys → Move
  stopped : Sys → Move
  drained : Sys → (index : ℕ) → Move
  start_failed : Sys → (index : ℕ) → Move
  sync : (index : ℕ) → Move

unfoldable pub move : Move → Conn → Option Conn
move (accept sys) d = server_read sys d
move (read sys m) d = conn_read sys m d
move (msg_handled sys) d = vring_mark_msg_handled sys d
move (stopped sys) d = vring_mark_stopped sys d
move (drained sys i) d = vring_mark_drained sys i d
move (start_failed sys i) d = vring_start_failed sys i d
move (sync i) d = sync_vring i d

-- Any steps, until an assertion fails.
unfoldable pub moves : List Move → Conn → Option Conn
unfolding move
moves [] d = some d
moves (m ∷ ms) d = elim (move m d) [ none ↦ none | some d' ↦ moves ms d' ]

module _ (d : Conn) (s : IsSound d) where
  balance : (b : ℕ) → Balanced b 0 d
  balance b = omega (arith, s.balanced b)

  msg_handled-SoundIf : (sys : Sys) → SoundIf (vring_mark_msg_handled sys d)
  msg_handled-SoundIf sys =
      to_SoundIf (vring_mark_msg_handled sys d) (λ b. msg_handled-balance sys d b (balance b))
        (msg_handled-paired sys d s.paired)

  stopped-SoundIf : (sys : Sys) → SoundIf (vring_mark_stopped sys d)
  stopped-SoundIf sys =
      to_SoundIf (vring_mark_stopped sys d) (λ b. mark_stopped-balance sys d b (balance b))
        (mark_stopped-paired sys d s.paired)

  drained-SoundIf : (sys : Sys) (i : ℕ) → SoundIf (vring_mark_drained sys i d)
  drained-SoundIf sys i =
      to_SoundIf (vring_mark_drained sys i d) (λ b. mark_drained-balance sys i d b (balance b))
        (mark_drained-paired sys i d s.paired)

and_then-SoundIf :
    (o : Option Conn) (f : Conn → Option Conn)
    → SoundIf o
    → ((d : Conn) → IsSound d → SoundIf (f d))
    → SoundIf (and_then o f)
and_then-SoundIf none f s g = tt
and_then-SoundIf (some d) f s g = g d s

start_failed-SoundIf :
    (sys : Sys) (i : ℕ) (d : Conn) → IsSound d → SoundIf (vring_start_failed sys i d)
unfolding vring_start_failed paired
start_failed-SoundIf sys i d s =
    let d' = record d { handle_complete = some kick_fail_complete } in
    and_then-SoundIf (vring_mark_msg_handled sys d')
      (λ x. and_then (vring_mark_stopped sys x) (vring_mark_drained sys i))
      (msg_handled-SoundIf d' (record { balanced = s.balanced; paired = s.paired }) sys)
      (λ x sx.
        and_then-SoundIf (vring_mark_stopped sys x) (vring_mark_drained sys i)
          (stopped-SoundIf x sx sys) (λ y sy. drained-SoundIf y sy sys i))

move-SoundIf : (m : Move) (d : Conn) → IsSound d → SoundIf (move m d)
unfolding move
move-SoundIf (accept sys) d s =
    to_SoundIf (server_read sys d) (λ b. server_read-balance sys d b (balance d s b) s.paired)
      (server_read-paired sys d s.paired)
move-SoundIf (read sys m) d s =
    to_SoundIf (conn_read sys m d) (λ b. conn_read-balance sys m d b (balance d s b))
      (conn_read-paired sys m d s.paired)
move-SoundIf (msg_handled sys) d s = msg_handled-SoundIf d s sys
move-SoundIf (stopped sys) d s = stopped-SoundIf d s sys
move-SoundIf (drained sys i) d s = drained-SoundIf d s sys i
move-SoundIf (start_failed sys i) d s = start_failed-SoundIf sys i d s
move-SoundIf (sync i) d s =
    to_SoundIf (sync_vring i d) (λ b. sync_vring-balance i d b (balance d s b))
      (sync_vring-paired i d s.paired)

moves-IsSound : (ms : List Move) (d d' : Conn) → IsSound d → moves ms d ≡ some d' → IsSound d'
unfolding moves
moves-IsSound [] d d' s e = subst IsSound (some-injective d d' e) s
moves-IsSound (m ∷ ms) d d' s e = elim (Option-cases (move m d)) [
  | inl f ↦ absurd (ground (arith, f, e))
  | inr (x, f) ↦ moves-IsSound ms x d' (subst SoundIf f (move-SoundIf m d s)) (ground (arith, f, e))
]

rings_at-replicate : (b n : ℕ) → rings_at b (replicate n new_ring) ≡ 0
unfolding rings_at
rings_at-replicate b zero = refl
rings_at-replicate b (suc n) = omega (arith, rings_at-replicate b n)

-- After any connections, messages and bottom halves of a new device, in any order, every descriptor
-- was opened as often as it was closed or is held by the device: none is lost on an error path, and
-- none is closed twice. The device has a timer only with the connection.
pub moves-init_server :
    (map_cb unmap_cb : Callback) (supported : Features) (n : ℕ) (ms : List Move) (d : Conn)
    → moves ms (init_server map_cb unmap_cb supported n) ≡ some d
    → IsSound d
unfolding init_server times paired
moves-init_server map_cb unmap_cb supported n ms d e =
    moves-IsSound ms (init_server map_cb unmap_cb supported n) d
      (record { balanced = λ b. omega (arith, rings_at-replicate b n); paired = refl }) e
