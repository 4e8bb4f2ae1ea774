-- ===== src/Vdev/Stuck.antt =====
-- A device (vdev.c) that is stopping, and whose last bottom half is that of a message.
use ya_vhost.Prelude.{
  ℕ, suc, ◌-◌, ◌<◌, ◌≡◌, refl, sym, ap, ◌∙◌, subst, Bool, true, false, ◌&&◌, Option, none, some,
  ◌==◌, if◌then◌else◌, if_true, if_false, inl, inr, arith, Bool-cases,
}
use mathlib.Core.Option.{some-injective}
use ya_vhost.Vdev.Life.{
  Life, Device, put, and_then, vring_stop, vring_sync, vring_inc, vring_dec, disconnect,
  mark_msg_handled, mark_stopped, mark_drained, start_failed, leave,
}
use ya_vhost.Vdev.Running.{
  connected, kicked, synced, base_asked, disconnected, stopped, start, stop_vring, sync, submitted,
  completed, msg_handled, vring_stopped, vring_drained, not_started, Step, Reach, later,
}
use ya_vhost.Vdev.Safe.{Reach-Flags}

-- A device that is stopping, has nothing left to wait for, and did not close its connection.
pub record IsStuck (d : Device) : Type 0 where
  pub conn : d.conn_handler ≡ false
  pub connection : d.connfd ≡ true
  pub listening : d.listen_handler ≡ false
  pub started : d.num_vrings_started ≡ 0
  pub flight : d.num_vrings_in_flight ≡ 0
  pub handling : d.num_vrings_handling_msg ≡ 0

put-IsStuck : (d : Device) (i : ℕ) (l : Life) → IsStuck d → IsStuck (put d i l)
put-IsStuck d i l h = record {
  conn = h.conn;
  connection = h.connection;
  listening = h.listening;
  started = h.started;
  flight = h.flight;
  handling = h.handling;
}

-- The functions that need something that is counted fail.
mark_msg_handled-IsStuck : (d : Device) (fails : Bool) → IsStuck d → mark_msg_handled fails d ≡ none
unfolding mark_msg_handled
mark_msg_handled-IsStuck d fails h =
    let zero_left : (d.num_vrings_handling_msg == 0) ≡ true = ground (arith, h.handling) in
    if_true none _ zero_left

mark_stopped-IsStuck : (d : Device) → IsStuck d → mark_stopped d ≡ none
unfolding mark_stopped
mark_stopped-IsStuck d h =
    let zero_left : (d.num_vrings_started == 0) ≡ true = ground (arith, h.started) in
    if_true none _ zero_left

leave-IsStuck : (d : Device) → IsStuck d → leave d ≡ none
unfolding leave
leave-IsStuck d h =
    let zero_left : (d.num_vrings_in_flight == 0) ≡ true = ground (arith, h.flight) in
    if_true none _ zero_left

disconnect-IsStuck : (d : Device) → IsStuck d → disconnect d ≡ some d
unfolding disconnect
disconnect-IsStuck d h = if_false _ (some d) h.conn

same :
    (fails : Bool) (r : Device)
    → disconnect r ≡ some r
    → (if fails then disconnect r else some r) ≡ some r
same true r e = e
same false r e = refl

mark_drained-IsStuck :
    (d : Device) (i : ℕ) (fails : Bool) → IsStuck d → mark_drained i fails d ≡ none
unfolding mark_drained
mark_drained-IsStuck d i fails h =
    let reset : Device =
      put d i (record (d.vrings i) { started_in_ctl = false; disconnecting = false }) in
    let stuck =
      put-IsStuck d i (record (d.vrings i) { started_in_ctl = false; disconnecting = false }) h in
    elim (Bool-cases (d.vrings i).started_in_ctl) [
      | inl e ↦
          if_true _ none e
          ∙ (ap (λ o. and_then o leave) (same fails reset (disconnect-IsStuck reset stuck))
              ∙ leave-IsStuck reset stuck)
      | inr e ↦ if_false _ none e
    ]

start_failed-IsStuck :
    (d : Device) (i : ℕ) (fails drain_fails : Bool)
    → IsStuck d
    → start_failed i fails drain_fails d ≡ none
unfolding start_failed
start_failed-IsStuck d i fails drain_fails h =
    ap (λ o. and_then (and_then o mark_stopped) (mark_drained i drain_fails))
      (mark_msg_handled-IsStuck d fails h)

none-some : {o : Option Device} {d : Device} {P : Type 0} → o ≡ none → o ≡ some d → P
none-some e f = absurd (ground (arith, e, f))

Step-IsStuck : {d d' : Device} → Step d d' → IsStuck d → IsStuck d'
Step-IsStuck (connected e l) h = absurd (ground (arith, h.listening))
Step-IsStuck (kicked i lt e ctl) h = absurd (ground (arith, h.conn))
Step-IsStuck (synced i lt e ctl) h = absurd (ground (arith, h.conn))
Step-IsStuck (base_asked i lt e ctl) h = absurd (ground (arith, h.conn))
Step-IsStuck {d} (disconnected e) h =
    subst IsStuck (some-injective d _ (sym (disconnect-IsStuck d h) ∙ e)) h
Step-IsStuck (stopped l e) h = absurd (ground (arith, h.listening))
Step-IsStuck {d} (start i attached {n} {l} lt b e) h = put-IsStuck d i l h
Step-IsStuck {d} (stop_vring i queued {n} lt b some_left) h =
    put-IsStuck d i (vring_stop queued (record (d.vrings i) { stop_bh = n })) h
Step-IsStuck {d} (sync i {n} lt b) h =
    put-IsStuck d i (vring_sync (record (d.vrings i) { sync_bh = n })) h
Step-IsStuck {d} (submitted i lt e small) h = put-IsStuck d i (vring_inc (d.vrings i)) h
Step-IsStuck {d} (completed i lt pos) h = put-IsStuck d i (vring_dec (d.vrings i)) h
Step-IsStuck {d} (msg_handled i fails {n} lt b e) h =
    let l : Life = record (d.vrings i) { msg_handled_bh = n } in
    none-some (mark_msg_handled-IsStuck (put d i l) fails (put-IsStuck d i l h)) e
Step-IsStuck {d} (vring_stopped i {n} lt b e) h =
    let l : Life = record (d.vrings i) { mark_stopped_bh = n } in
    none-some (mark_stopped-IsStuck (put d i l) (put-IsStuck d i l h)) e
Step-IsStuck {d} (vring_drained i fails {n} lt b e) h =
    let l : Life = record (d.vrings i) { mark_drained_bh = n } in
    none-some (mark_drained-IsStuck (put d i l) i fails (put-IsStuck d i l h)) e
Step-IsStuck {d} (not_started i fails drain_fails {n} lt b e) h =
    let l : Life = record (d.vrings i) { start_failed_bh = n } in
    none-some (start_failed-IsStuck (put d i l) i fails drain_fails (put-IsStuck d i l h)) e

Step-never_released :
    {q : ℕ} {d d' : Device} → Reach q d → IsStuck d → Step d d' → IsStuck d' × (d'.released ≡ false)
Step-never_released {d' = d'} r h st =
    let h' = Step-IsStuck st h in
    let open_ = h'.connection in (h', ground (arith, (Reach-Flags (later r st)).released))

-- Any steps, of any of the loops, one after another.
pub data Later (d : Device) : Device → Type 0 where
  now : Later d d
  then_step : {k m : Device} → Later d k → Step k m → Later d m

Later-never_released :
    {q : ℕ} {d d' : Device}
    → Reach q d
    → IsStuck d
    → Later d d'
    → Reach q d' × IsStuck d' × (d'.released ≡ false)
Later-never_released r h now =
    let open_ = h.connection in (r, h, ground (arith, (Reach-Flags r).released))
Later-never_released r h (then_step more st) =
    let (r', h', _) = Later-never_released r h more in
    let (h'', kept) = Step-never_released r' h' st in (later r' st, h'', kept)

-- The device waits for this last bottom half, and is stopping.
pub record WaitsForMsg (d : Device) : Type 0 where
  pub conn : d.conn_handler ≡ false
  pub connection : d.connfd ≡ true
  pub listening : d.listen_handler ≡ false
  pub started : d.num_vrings_started ≡ 0
  pub flight : d.num_vrings_in_flight ≡ 0
  pub handling : d.num_vrings_handling_msg ≡ 1

msg_handled-IsStuck :
    (d : Device) (i : ℕ) (l : Life) (fails : Bool)
    → WaitsForMsg d
    → (d' : Device) × (mark_msg_handled fails (put d i l) ≡ some d') × IsStuck d'
unfolding mark_msg_handled
msg_handled-IsStuck d i l fails w =
    let handled : Device = record (put d i l) {
      num_vrings_handling_msg = d.num_vrings_handling_msg - 1;
    } in
    let one_left : (d.num_vrings_handling_msg == 0) ≡ false = let e = w.handling in ground arith in
    let stuck : IsStuck handled = record {
      conn = w.conn;
      connection = w.connection;
      listening = w.listening;
      started = w.started;
      flight = w.flight;
      handling = omega (arith, w.handling);
    } in
    (
      handled,
      if_false none _ one_left
          ∙ same ((handled.num_vrings_handling_msg == 0) && fails) handled
              (disconnect-IsStuck handled stuck),
      stuck,
    )

-- If a device that is stopping has only one `vring_mark_msg_handled_bh` left to wait for, that bottom
-- half does not close the connection, and the device is then never released: any number
-- of steps leaves it with nothing to wait for, the connection open, and not released.
pub msg_handled_last-IsStuck :
    {q : ℕ} {d : Device} (i n : ℕ) (fails : Bool)
    → Reach q d
    → i < d.num_queues
    → (d.vrings i).msg_handled_bh ≡ suc n
    → WaitsForMsg d
    → (d' : Device) × (mark_msg_handled fails (put d i (record (d.vrings i) { msg_handled_bh = n }))
        ≡ some d')
      × IsStuck d'
      × ((d'' : Device) → Later d' d'' → IsStuck d'' × (d''.released ≡ false))
msg_handled_last-IsStuck {d = d} i n fails r lt e w =
    let (d', ends, stuck) =
      msg_handled-IsStuck d i (record (d.vrings i) { msg_handled_bh = n }) fails w in
    (
      d',
      ends,
      stuck,
      λ d'' steps.
          let (_, h, kept) =
            Later-never_released (later r (msg_handled i fails lt e ends)) stuck steps in
          (h, kept),
    )
