-- ===== src/Vdev/Moves.antt =====
-- Each step of a device (vdev.c) keeps what holds between two steps.
use ya_vhost.Prelude.{
  ℕ, zero, suc, ◌<◌, ◌≡◌, refl, ◌∙◌, Bool, true, false, not, ◌||◌, some, if_true, if_false, inl,
  inr, ◌⊎◌, arith, Bool-cases,
}
use ya_vhost.Vdev.Life.{
  Life, Device, put, vring_start, vring_stop, vring_sync, vring_inc, vring_dec,
}
use ya_vhost.Vdev.Running.{new_life, new_device, set_vring_kick, handle_msg, accept}
use ya_vhost.Vdev.Counts.{
  total, Counts-zero, Counts-put, put_counters, bit, token, started_part, flight_part,
  handling_part,
}
use ya_vhost.Vdev.Handlers.{conn-open, conn-listening, Flags}
use ya_vhost.Vdev.Lifecycle.{Inv, Flags-put, Counts-take}

total-new : (f : Life → ℕ) (n : ℕ) → f new_life ≡ 0 → total f n (λ i. new_life) ≡ 0
unfolding total
total-new f zero e = refl
total-new f (suc n) e = omega (arith, e, total-new f n e)

pub new_device-Inv : (n : ℕ) → Inv n (new_device n)
new_device-Inv n = record {
  flags = record {
    work = refl;
    released = refl;
    clean = refl;
    closed = λ e. record { conn = refl; started = refl; flight = refl; handling = refl };
    shut = λ e. refl;
  };
  counts = record {
    queues = refl;
    alive = λ j. ground arith;
    started = omega (arith, total-new started_part n refl);
    flight = omega (arith, total-new flight_part n refl);
    handling = omega (arith, total-new handling_part n refl);
  };
}

-- A vring changes by itself.
put-Inv :
    (d : Device) (q i : ℕ) (l : Life)
    → i < q
    → Inv q d
    → bit l.started_in_ctl ≡ token l
    → started_part (d.vrings i) ≡ started_part l
    → flight_part (d.vrings i) ≡ flight_part l
    → handling_part (d.vrings i) ≡ handling_part l
    → Inv q (put d i l)
put-Inv d q i l lt inv ends es ef eh = record {
  flags = Flags-put d i l inv.flags;
  counts = Counts-zero q i 0 0 0 0 (put d i l) (
      Counts-take d q i 0 0 0 0 l lt inv.counts (omega (arith, ends)) (omega (arith, es))
        (omega (arith, ef)) (omega (arith, eh)));
}

pub accept-Inv :
    (d : Device) (q : ℕ) → d.connfd ≡ false → d.listen_handler ≡ true → Inv q d → Inv q (accept d)
accept-Inv d q e l inv = record {
  flags = record {
    work = inv.flags.work;
    released = ground (arith, inv.flags.released);
    clean = inv.flags.clean;
    closed = λ z. absurd (ground (arith, z));
    shut = λ z. absurd (ground (arith, z, l));
  };
  counts = record {
    queues = inv.counts.queues;
    alive = inv.counts.alive;
    started = inv.counts.started;
    flight = inv.counts.flight;
    handling = inv.counts.handling;
  };
}

-- A message adds to the counters; the connection is open, and nothing is stopping.
message-Flags :
    (d : Device) (i s f h : ℕ) (l : Life)
    → d.conn_handler ≡ true
    → Flags d
    → Flags (put_counters d i l s f h)
message-Flags d i s f h l e fl =
    let open_ = conn-open d fl e in
    let listening = conn-listening d fl e in
    record {
      work = ground (arith, fl.work);
      released = fl.released;
      clean = fl.clean;
      closed = λ z. absurd (ground (arith, z, open_));
      shut = λ z. absurd (ground (arith, z, listening));
    }

pub kicked-Inv :
    (d : Device) (q i : ℕ)
    → i < q
    → d.conn_handler ≡ true
    → (d.vrings i).started_in_ctl ≡ false
    → Inv q d
    → Inv q (set_vring_kick i d)
unfolding set_vring_kick
kicked-Inv d q i lt e ctl inv =
    let l : Life = record (d.vrings i) {
      started_in_ctl = true;
      start_bh = suc (d.vrings i).start_bh;
    } in
    let here = inv.counts.alive i in
    let s = suc d.num_vrings_started in
    let f = suc d.num_vrings_in_flight in
    let h = suc d.num_vrings_handling_msg in
    record {
      flags = message-Flags d i s f h l e inv.flags;
      counts = Counts-zero q i 0 0 0 0 (put_counters d i l s f h) (
          Counts-put d q i 0 0 0 0 0 0 0 0 s f h l lt (Counts-zero q 0 i 0 0 0 d inv.counts)
            (ground (arith, here)) (omega arith) (ground arith) (omega arith));
    }

pub synced-Inv :
    (d : Device) (q i : ℕ) → i < q → d.conn_handler ≡ true → Inv q d → Inv q (handle_msg i d)
unfolding handle_msg
synced-Inv d q i lt e inv =
    let l : Life = record (d.vrings i) { sync_bh = suc (d.vrings i).sync_bh } in
    let here = inv.counts.alive i in
    let s = d.num_vrings_started in
    let f = d.num_vrings_in_flight in
    let h = suc d.num_vrings_handling_msg in
    record {
      flags = message-Flags d i s f h l e inv.flags;
      counts = Counts-zero q i 0 0 0 0 (put_counters d i l s f h) (
          Counts-put d q i 0 0 0 0 0 0 0 0 s f h l lt (Counts-zero q 0 i 0 0 0 d inv.counts)
            (ground (arith, here)) (omega arith) (omega arith) (omega arith));
    }

pub start-Inv :
    (d : Device) (q i n : ℕ) (attached : Bool)
    → i < q
    → (d.vrings i).start_bh ≡ suc n
    → Inv q d
    → (l : Life) × (vring_start attached (record (d.vrings i) { start_bh = n }) ≡ some l)
      × Inv q (put d i l)
unfolding vring_start
start-Inv d q i n attached lt e inv =
    let here = inv.counts.alive i in
    let off : (d.vrings i).started_in_rq ≡ false = ground (arith, here) in
    let base : Life = record (d.vrings i) { start_bh = n } in
    elim (Bool-cases ((d.vrings i).disconnecting || not attached)) [
      | inl b ↦
          let l : Life = record base { start_failed_bh = suc base.start_failed_bh } in
          (
            l,
            if_false _ _ off ∙ if_true _ _ b,
            put-Inv d q i l lt inv (ground (arith, here)) (omega arith) refl (omega arith),
          )
      | inr b ↦
          let l : Life = record base {
            started_in_rq = true;
            msg_handled_bh = suc base.msg_handled_bh;
          } in
          (
            l,
            if_false _ _ off ∙ if_false _ _ b,
            put-Inv d q i l lt inv (ground (arith, here)) (ground arith) refl (omega arith),
          )
    ]

pub stop_vring-Inv :
    (d : Device) (q i n queued : ℕ)
    → i < q
    → (d.vrings i).stop_bh ≡ suc n
    → (queued ≡ 0) ⊎ (queued < (d.vrings i).num_in_flight)
    → Inv q d
    → Inv q (put d i (vring_stop queued (record (d.vrings i) { stop_bh = n })))
unfolding vring_stop
stop_vring-Inv d q i n queued lt e some_left inv =
    let here = inv.counts.alive i in
    let stopped_ = vring_stop queued (record (d.vrings i) { stop_bh = n }) in
    elim (Bool-cases (d.vrings i).started_in_rq) [
      | inl b ↦
          put-Inv d q i stopped_ lt inv (ground (arith, here)) (ground arith) (ground arith)
            (ground arith)
      | inr b ↦
          put-Inv d q i stopped_ lt inv (ground (arith, here)) (ground arith) (ground arith)
            (ground arith)
    ]

pub submitted-Inv :
    (d : Device) (q i : ℕ)
    → i < q
    → (d.vrings i).started_in_rq ≡ true
    → Inv q d
    → Inv q (put d i (vring_inc (d.vrings i)))
unfolding vring_inc
submitted-Inv d q i lt e inv =
    let here = inv.counts.alive i in
    put-Inv d q i (vring_inc (d.vrings i)) lt inv (ground (arith, here)) refl refl refl

pub completed-Inv :
    (d : Device) (q i : ℕ)
    → i < q
    → 0 < (d.vrings i).num_in_flight
    → Inv q d
    → Inv q (put d i (vring_dec (d.vrings i)))
unfolding vring_dec
completed-Inv d q i lt pos inv =
    let here = inv.counts.alive i in
    put-Inv d q i (vring_dec (d.vrings i)) lt inv (ground (arith, here)) refl refl refl

pub bounded : (d : Device) (q i : ℕ) → i < d.num_queues → Inv q d → i < q
bounded d q i lt inv = omega (arith, inv.counts.queues)

pub sync-Inv :
    (d : Device) (q i n : ℕ)
    → i < q
    → (d.vrings i).sync_bh ≡ suc n
    → Inv q d
    → Inv q (put d i (vring_sync (record (d.vrings i) { sync_bh = n })))
unfolding vring_sync
sync-Inv d q i n lt e inv =
    let here = inv.counts.alive i in
    put-Inv d q i (vring_sync (record (d.vrings i) { sync_bh = n })) lt inv (ground (arith, here))
      refl refl (omega arith)

pub base_asked-Inv :
    (d : Device) (q i m : ℕ)
    → i < q
    → Inv q d
    → Inv q (put d i (record (d.vrings i) { stop_bh = m }))
base_asked-Inv d q i m lt inv =
    let here = inv.counts.alive i in
    put-Inv d q i (record (d.vrings i) { stop_bh = m }) lt inv (ground (arith, here)) refl refl refl
