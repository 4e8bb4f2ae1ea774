-- ===== src/Vdev/Handlers.antt =====
-- The functions of the control loop (vdev.c) keep the counters and the flags of a device.
use ya_vhost.Prelude.{
  ℕ, suc, ◌+◌, ◌-◌, ◌<◌, ◌≡◌, refl, ◌∙◌, subst, Bool, true, false, not, ◌&&◌, Option, none, some,
  ◌==◌, ltb, if_true, if_false, inl, inr, arith, Bool-cases,
}
use ya_vhost.Vdev.Life.{
  Device, vring_disconnect, in_use, settle, maybe_drained, disconnect, mark_msg_handled,
  mark_stopped, leave,
}
use ya_vhost.Vdev.Settle.{idle, calm, settled, maybe_drained-calm, settle-settled}
use ya_vhost.Vdev.Counts.{Counts, Counts-disconnect}

-- Nothing of a connection is left.
pub record IsQuiet (d : Device) : Type 0 where
  pub conn : d.conn_handler ≡ false
  pub started : d.num_vrings_started ≡ 0
  pub flight : d.num_vrings_in_flight ≡ 0
  pub handling : d.num_vrings_handling_msg ≡ 0

-- The work that stops the device waits exactly while it is stopping and a vring is started, and the
-- device is released exactly if it is stopping and its last connection is closed.
pub record Flags (d : Device) : Type 0 where
  pub work : d.work ≡ (ltb 0 d.num_vrings_started && not d.listen_handler)
  pub released : d.released ≡ (not d.connfd && not d.listen_handler)
  pub clean : d.clean ≡ true
  pub closed : d.connfd ≡ false → IsQuiet d
  pub shut : d.listen_handler ≡ false → d.conn_handler ≡ false

IsQuiet-idle : (d : Device) → IsQuiet d → idle d ≡ true
unfolding in_use
IsQuiet-idle d q = rw (q.conn, q.started, q.flight, q.handling, in_use) refl

idle-IsQuiet : (d : Device) → idle d ≡ true → IsQuiet d
unfolding in_use
idle-IsQuiet d e = record {
  conn = ground arith;
  started = ground arith;
  flight = ground arith;
  handling = ground arith;
}

-- Whatever the flags of the work are, the other flags are right after `vdev_maybe_drained`.
settled-released :
    (idle connfd listen : Bool)
    → (connfd ≡ false → idle ≡ true)
    → (idle && not listen) ≡ (not (not idle && connfd) && not listen)
settled-released true connfd listen h = refl
settled-released false true listen h = refl
settled-released false false listen h = absurd (ground (arith, h refl))

settled-closed :
    (d : Device) → (d.connfd ≡ false → IsQuiet d) → (not (idle d) && d.connfd) ≡ false → IsQuiet d
settled-closed d closed e = elim (Bool-cases (idle d)) [
  | inl t ↦ idle-IsQuiet d t
  | inr t ↦ closed (subst (λ b. (not b && d.connfd) ≡ false) t e)
]

settled-Flags :
    (d : Device)
    → (d.connfd ≡ false → IsQuiet d)
    → (d.listen_handler ≡ false → d.conn_handler ≡ false)
    → d.clean ≡ true
    → Flags (settled d)
unfolding in_use
settled-Flags d closed shut clean = record {
  work = refl;
  released = settled-released (idle d) d.connfd d.listen_handler (λ e. IsQuiet-idle d (closed e));
  closed = λ e.
      let q = settled-closed d closed e in
      record { conn = q.conn; started = q.started; flight = q.flight; handling = q.handling };
  shut = shut;
  clean = clean;
}

calm-Flags :
    (d : Device)
    → d.work ≡ (ltb 0 d.num_vrings_started && not d.listen_handler)
    → (d.connfd ≡ false → IsQuiet d)
    → (d.listen_handler ≡ false → d.conn_handler ≡ false)
    → d.clean ≡ true
    → Flags (calm d)
unfolding in_use
calm-Flags d work closed shut clean =
    let f = settled-Flags d closed shut clean in
    record {
      work = work;
      released = f.released;
      clean = f.clean;
      closed = λ e.
          let q = f.closed e in
          record { conn = q.conn; started = q.started; flight = q.flight; handling = q.handling };
      shut = shut;
    }

-- Where a connection is not closed, the device is not released.
open-fresh : (d : Device) → Flags d → d.connfd ≡ true → d.released ≡ false
open-fresh d f e = ground (arith, f.released)

-- What is counted keeps the connection open.
counted-open :
    (d : Device)
    → Flags d
    → 0 < d.num_vrings_started + (d.num_vrings_in_flight + d.num_vrings_handling_msg)
    → d.connfd ≡ true
counted-open d f lt = elim (Bool-cases d.connfd) [
  | inl e ↦ e
  | inr e ↦ let q = f.closed e in absurd (omega (arith, q.started, q.flight, q.handling))
]

-- A function of the control loop that ends, with the flags and the counters right after it.
pub record Ends (q x k a b c : ℕ) (out : Option Device) : Type 0 where
  pub device : Device
  pub ends : out ≡ some device
  pub flags : Flags device
  pub counts : Counts q x k a b c device

pub from_equal :
    {q x k a b c : ℕ} {o p : Option Device} → p ≡ o → Ends q x k a b c o → Ends q x k a b c p
from_equal e h = record { device = h.device; ends = e ∙ h.ends; flags = h.flags; counts = h.counts }

pub settle-Ends :
    (d : Device) {q x k a b c : ℕ}
    → d.released ≡ false
    → d.clean ≡ true
    → d.work ≡ not d.listen_handler
    → (d.connfd ≡ false → IsQuiet d)
    → (d.listen_handler ≡ false → d.conn_handler ≡ false)
    → Counts q x k a b c d
    → Ends q x k a b c (settle d)
settle-Ends d fresh clean busy closed shut n = record {
  device = settled d;
  ends = settle-settled d fresh clean busy;
  flags = settled-Flags d closed shut clean;
  counts = record {
    queues = n.queues;
    alive = n.alive;
    started = n.started;
    flight = n.flight;
    handling = n.handling;
  };
}

-- Whatever the flag says, it is not `false`.
pub conn-open : (d : Device) → Flags d → d.conn_handler ≡ true → d.connfd ≡ true
conn-open d f e = elim (Bool-cases d.connfd) [
  | inl t ↦ t
  | inr t ↦ let q = (f.closed t).conn in absurd (ground (arith, q))
]

pub conn-listening : (d : Device) → Flags d → d.conn_handler ≡ true → d.listen_handler ≡ true
conn-listening d f e = elim (Bool-cases d.listen_handler) [
  | inl t ↦ t
  | inr t ↦ let q = f.shut t in absurd (ground (arith, q))
]

pub disconnect-Ends :
    (d : Device) {q x k a b c : ℕ}
    → Flags d
    → Counts q x k a b c d
    → Ends q x k a b c (disconnect d)
unfolding disconnect
disconnect-Ends d {q} {x} {k} {a} {b} {c} f n = elim (Bool-cases d.conn_handler) [
  | inl e ↦
      let gone : Device = record d {
        conn_handler = false;
        vrings = λ j. vring_disconnect (d.vrings j);
      } in
      let open_ = conn-open d f e in
      let listening = conn-listening d f e in
      from_equal (if_true (settle gone) (some d) e) (
        settle-Ends gone (open-fresh d f open_) f.clean (ground (arith, f.work))
          (λ z. absurd (ground (arith, z, open_))) (λ z. refl) (Counts-disconnect q x k a b c d n))
  | inr e ↦ record { device = d; ends = if_false _ (some d) e; flags = f; counts = n }
]

pub mark_msg_handled-Ends :
    (d : Device) (fails : Bool) {q x k a b c : ℕ}
    → Flags d
    → Counts q x k a b (suc c) d
    → Ends q x k a b c (mark_msg_handled fails d)
unfolding mark_msg_handled
mark_msg_handled-Ends d fails f n =
    let some_left : (d.num_vrings_handling_msg == 0) ≡ false = ground (arith, n.handling) in
    let open_ = counted-open d f (ground arith) in
    let handled : Device = record d { num_vrings_handling_msg = d.num_vrings_handling_msg - 1 } in
    let flags : Flags handled = record {
      work = f.work;
      released = f.released;
      clean = f.clean;
      closed = λ z. absurd (ground (arith, z, open_));
      shut = f.shut;
    } in
    let counts : Counts _ _ _ _ _ _ handled = record {
      queues = n.queues;
      alive = n.alive;
      started = n.started;
      flight = n.flight;
      handling = omega (arith, n.handling);
    } in
    from_equal (if_false none _ some_left)
      (elim (Bool-cases ((d.num_vrings_handling_msg - 1 == 0) && fails)) [
        | inl e ↦ from_equal (if_true _ _ e) (disconnect-Ends handled flags counts)
        | inr e ↦ record { device = handled; ends = if_false _ _ e; flags = flags; counts = counts }
      ])

pub mark_stopped-Ends :
    (d : Device) {q x k a b c : ℕ}
    → Flags d
    → Counts q x k (suc a) b c d
    → Ends q x k a b c (mark_stopped d)
unfolding mark_stopped
mark_stopped-Ends d f n =
    let some_left : (d.num_vrings_started == 0) ≡ false = ground (arith, n.started) in
    let open_ = counted-open d f (ground arith) in
    let stopped : Device = record d { num_vrings_started = d.num_vrings_started - 1 } in
    from_equal (if_false none (settle stopped) some_left) (
      settle-Ends stopped (open-fresh d f open_) f.clean (ground (arith, f.work))
        (λ z. absurd (ground (arith, z, open_))) f.shut
        (record {
          queues = n.queues;
          alive = n.alive;
          started = omega (arith, n.started);
          flight = n.flight;
          handling = n.handling;
        }))

pub leave-Ends :
    (d : Device) {q x k a b c : ℕ}
    → Flags d
    → Counts q x k a (suc b) c d
    → Ends q x k a b c (leave d)
unfolding leave
leave-Ends d f n =
    let some_left : (d.num_vrings_in_flight == 0) ≡ false = ground (arith, n.flight) in
    let open_ = counted-open d f (ground arith) in
    let left : Device = record d { num_vrings_in_flight = d.num_vrings_in_flight - 1 } in
    from_equal (if_false none (maybe_drained left) some_left) (record {
      device = calm left;
      ends = maybe_drained-calm left (open-fresh d f open_) f.clean;
      flags = calm-Flags left f.work (λ z. absurd (ground (arith, z, open_))) f.shut f.clean;
      counts = record {
        queues = n.queues;
        alive = n.alive;
        started = n.started;
        flight = omega (arith, n.flight);
        handling = n.handling;
      };
    })
