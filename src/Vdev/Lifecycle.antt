-- ===== src/Vdev/Lifecycle.antt =====
-- No assertion of the life of the vrings of a device (vdev.c) fails.
use ya_vhost.Prelude.{
  ℕ, suc, ◌+◌, ◌<◌, ◌≡◌, refl, sym, ap, ◌∙◌, subst, Bool, true, false, Option, none, some,
  if◌then◌else◌, if_true, if_false, inl, inr, arith, Bool-cases,
}
use mathlib.Core.Option.{some-injective}
use ya_vhost.Vdev.Life.{
  Life, Device, put, and_then, vring_disconnect, settle, disconnect, mark_msg_handled, mark_stopped,
  leave, mark_drained, start_failed, stop,
}
use ya_vhost.Vdev.Counts.{
  Counts, IsCounted, Counts-zero, Counts-put, Counts-disconnect, bit, token, started_part,
  flight_part, handling_part,
}
use ya_vhost.Vdev.Handlers.{
  Flags, Ends, disconnect-Ends, mark_msg_handled-Ends, mark_stopped-Ends, leave-Ends, settle-Ends,
  from_equal,
}

and_then-Ends :
    {q x k a b c x' k' a' b' c' : ℕ} (o : Option Device) (f : Device → Option Device)
    → Ends q x k a b c o
    → ((d : Device) → Flags d → Counts q x k a b c d → Ends q x' k' a' b' c' (f d))
    → Ends q x' k' a' b' c' (and_then o f)
and_then-Ends o f h next =
    from_equal (ap (λ p. and_then p f) h.ends) (next h.device h.flags h.counts)

-- The flags do not depend on the vrings.
pub Flags-put : (d : Device) (i : ℕ) (l : Life) → Flags d → Flags (put d i l)
Flags-put d i l f = record {
  work = f.work;
  released = f.released;
  clean = f.clean;
  closed = λ z.
      let q = f.closed z in
      record { conn = q.conn; started = q.started; flight = q.flight; handling = q.handling };
  shut = f.shut;
}

pub mark_drained-Ends :
    (d : Device) (i : ℕ) (fails : Bool) {q a b c : ℕ}
    → i < q
    → Flags d
    → Counts q i 1 a b c d
    → Ends q i 0 a b c (mark_drained i fails d)
unfolding mark_drained
mark_drained-Ends d i fails {q} {a} {b} {c} lt f n =
    let l : Life = record (d.vrings i) { started_in_ctl = false; disconnecting = false } in
    let reset : Device = put d i l in
    let here = n.alive i in
    let ctl : (d.vrings i).started_in_ctl ≡ true = ground (arith, here) in
    let counts : Counts q i 0 a (suc b) c reset =
      Counts-put d q i 1 0 a b c a (suc b) c d.num_vrings_started d.num_vrings_in_flight
        d.num_vrings_handling_msg l lt n (ground (arith, here)) refl (ground arith) refl in
    from_equal (if_true _ none ctl) (
      and_then-Ends (if fails then disconnect reset else some reset) leave
        (go fails reset (Flags-put d i l f) counts) (λ d' f' n'. leave-Ends d' f' n'))
  where
    go :
        (fails : Bool) (r : Device) {q x k a b c : ℕ}
        → Flags r
        → Counts q x k a b c r
        → Ends q x k a b c (if fails then disconnect r else some r)
    go true r f n = disconnect-Ends r f n
    go false r f n = record { device = r; ends = refl; flags = f; counts = n }

start_failed-Ends :
    (d : Device) (i : ℕ) (fails drain_fails : Bool) {q a b c : ℕ}
    → i < q
    → Flags d
    → Counts q i 1 (suc a) b (suc c) d
    → Ends q i 0 a b c (start_failed i fails drain_fails d)
unfolding start_failed
start_failed-Ends d i fails drain_fails lt f n =
    and_then-Ends (and_then (mark_msg_handled fails d) mark_stopped) (mark_drained i drain_fails)
      (and_then-Ends (mark_msg_handled fails d) mark_stopped (mark_msg_handled-Ends d fails f n)
        (λ d' f' n'. mark_stopped-Ends d' f' n'))
      (λ d' f' n'. mark_drained-Ends d' i drain_fails lt f' n')

pub stop-Ends :
    (d : Device) {q x k a b c : ℕ}
    → d.listen_handler ≡ true
    → Flags d
    → Counts q x k a b c d
    → Ends q x k a b c (stop d)
unfolding stop disconnect
stop-Ends d {q} {x} {k} {a} {b} {c} l f n =
    let closing : Device = record d { listen_handler = false; work = true } in
    let gone : Device = record closing {
      conn_handler = false;
      vrings = λ j. vring_disconnect (d.vrings j);
    } in
    let fresh : d.released ≡ false = ground (arith, f.released) in
    elim (Bool-cases d.conn_handler) [
      | inl e ↦ from_equal (if_true _ _ e ∙ if_true (settle gone) (some closing) e) (
          settle-Ends gone fresh f.clean refl (λ z. absurd (ground (arith, (f.closed z).conn)))
            (λ z. refl)
            (let m = Counts-disconnect q x k a b c d n in
              record {
                queues = m.queues;
                alive = m.alive;
                started = m.started;
                flight = m.flight;
                handling = m.handling;
              }))
      | inr e ↦ from_equal (if_false _ (settle closing) e) (
          settle-Ends closing fresh f.clean refl
            (λ z.
              let w = f.closed z in
              record {
                conn = w.conn;
                started = w.started;
                flight = w.flight;
                handling = w.handling;
              })
            (λ z. e)
            (record {
              queues = n.queues;
              alive = n.alive;
              started = n.started;
              flight = n.flight;
              handling = n.handling;
            }))
    ]

-- A vring changes, and the counters do not.
pub Counts-take :
    (d : Device) (q i k a b c : ℕ) (l : Life)
    → i < q
    → IsCounted q d
    → bit l.started_in_ctl ≡ token l + k
    → started_part (d.vrings i) ≡ a + started_part l
    → flight_part (d.vrings i) ≡ b + flight_part l
    → handling_part (d.vrings i) ≡ c + handling_part l
    → Counts q i k a b c (put d i l)
Counts-take d q i k a b c l lt n ends es ef eh =
    Counts-put d q i 0 k 0 0 0 a b c d.num_vrings_started d.num_vrings_in_flight
      d.num_vrings_handling_msg l lt (Counts-zero q 0 i 0 0 0 d n) ends (omega (arith, es))
      (omega (arith, ef)) (omega (arith, eh))

pub record Inv (q : ℕ) (d : Device) : Type 0 where
  pub flags : Flags d
  pub counts : IsCounted q d

-- The bottom halves of the control loop that are scheduled end.
pub msg_handled-Ends :
    (d : Device) (q i n : ℕ) (fails : Bool)
    → Inv q d
    → i < q
    → (d.vrings i).msg_handled_bh ≡ suc n
    → Ends q i 0 0 0 0
        (mark_msg_handled fails (put d i (record (d.vrings i) { msg_handled_bh = n })))
msg_handled-Ends d q i n fails inv lt e =
    let l : Life = record (d.vrings i) { msg_handled_bh = n } in
    mark_msg_handled-Ends (put d i l) fails (Flags-put d i l inv.flags) (
      Counts-take d q i 0 0 0 1 l lt inv.counts (ground (arith, inv.counts.alive i)) (omega arith)
        (omega arith) (omega arith))

pub vring_stopped-Ends :
    (d : Device) (q i n : ℕ)
    → Inv q d
    → i < q
    → (d.vrings i).mark_stopped_bh ≡ suc n
    → Ends q i 0 0 0 0 (mark_stopped (put d i (record (d.vrings i) { mark_stopped_bh = n })))
vring_stopped-Ends d q i n inv lt e =
    let l : Life = record (d.vrings i) { mark_stopped_bh = n } in
    mark_stopped-Ends (put d i l) (Flags-put d i l inv.flags) (
      Counts-take d q i 0 1 0 0 l lt inv.counts (ground (arith, inv.counts.alive i)) (omega arith)
        (omega arith) (omega arith))

pub vring_drained-Ends :
    (d : Device) (q i n : ℕ) (fails : Bool)
    → Inv q d
    → i < q
    → (d.vrings i).mark_drained_bh ≡ suc n
    → Ends q i 0 0 0 0
        (mark_drained i fails (put d i (record (d.vrings i) { mark_drained_bh = n })))
vring_drained-Ends d q i n fails inv lt e =
    let l : Life = record (d.vrings i) { mark_drained_bh = n } in
    mark_drained-Ends (put d i l) i fails lt (Flags-put d i l inv.flags) (
      Counts-take d q i 1 0 0 0 l lt inv.counts (ground (arith, inv.counts.alive i)) (omega arith)
        (omega arith) (omega arith))

pub not_started-Ends :
    (d : Device) (q i n : ℕ) (fails drain_fails : Bool)
    → Inv q d
    → i < q
    → (d.vrings i).start_failed_bh ≡ suc n
    → Ends q i 0 0 0 0
        (start_failed i fails drain_fails (put d i (record (d.vrings i) { start_failed_bh = n })))
not_started-Ends d q i n fails drain_fails inv lt e =
    let l : Life = record (d.vrings i) { start_failed_bh = n } in
    start_failed-Ends (put d i l) i fails drain_fails lt (Flags-put d i l inv.flags) (
      Counts-take d q i 1 1 0 1 l lt inv.counts (ground (arith, inv.counts.alive i)) (omega arith)
        (omega arith) (omega arith))

pub Ends-Inv :
    {q x : ℕ} {o : Option Device} {d : Device} → Ends q x 0 0 0 0 o → o ≡ some d → Inv q d
Ends-Inv {q} {x} {o} {d} h e =
    subst (Inv q) (some-injective h.device d (sym h.ends ∙ e))
      (record { flags = h.flags; counts = Counts-zero q x 0 0 0 0 h.device h.counts })
