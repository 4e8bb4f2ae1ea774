-- ===== src/Vdev/Running.antt =====
-- The vrings of a device (vdev.c) under any order of the bottom halves of both loops.
use ya_vhost.Prelude.{ℕ, suc, ◌+◌, ◌^◌, ◌<◌, ◌≡◌, ◌⊎◌, Bool, true, false, some}
use ya_vhost.Vdev.Life.{
  Life, Device, put, vring_start, vring_stop, vring_sync, vring_inc, vring_dec, disconnect,
  mark_msg_handled, mark_stopped, mark_drained, start_failed, stop,
}

abbrev pub new_life : Life
new_life = record {
  started_in_ctl = false;
  started_in_rq = false;
  disconnecting = false;
  num_in_flight = 0;
  start_bh = 0;
  stop_bh = 0;
  sync_bh = 0;
  msg_handled_bh = 0;
  start_failed_bh = 0;
  mark_stopped_bh = 0;
  mark_drained_bh = 0;
}

-- A device after `vhd_vdev_init_server`.
abbrev pub new_device : (num_queues : ℕ) → Device
new_device n = record {
  num_queues = n;
  vrings = λ i. new_life;
  num_vrings_started = 0;
  num_vrings_in_flight = 0;
  num_vrings_handling_msg = 0;
  conn_handler = false;
  connfd = false;
  listen_handler = true;
  work = false;
  released = false;
  clean = true;
}

-- The end of `vhost_set_vring_kick`, with `vring_handle_msg`.
unfoldable pub set_vring_kick : ℕ → Device → Device
set_vring_kick i d =
    let l = d.vrings i in
    record (put d i (record l { started_in_ctl = true; start_bh = suc l.start_bh })) {
      num_vrings_started = suc d.num_vrings_started;
      num_vrings_in_flight = suc d.num_vrings_in_flight;
      num_vrings_handling_msg = suc d.num_vrings_handling_msg;
    }

-- `vring_handle_msg` with `vring_sync_to_virtq_bh`
unfoldable pub handle_msg : ℕ → Device → Device
handle_msg i d =
    let l = d.vrings i in
    record (put d i (record l { sync_bh = suc l.sync_bh })) {
      num_vrings_handling_msg = suc d.num_vrings_handling_msg;
    }

-- `server_read`
abbrev pub accept : Device → Device
accept d = record d { connfd = true; conn_handler = true }

pub data Step (d : Device) : Device → Type 0 where
  -- The control loop: a connection, the messages, and the end of a connection or of the device.
  connected : d.connfd ≡ false → d.listen_handler ≡ true → Step d (accept d)
  kicked :
      (i : ℕ)
      → i < d.num_queues
      → d.conn_handler ≡ true
      → (d.vrings i).started_in_ctl ≡ false
      → Step d (set_vring_kick i d)
  synced :
      (i : ℕ)
      → i < d.num_queues
      → d.conn_handler ≡ true
      → (d.vrings i).started_in_ctl ≡ true
      → Step d (handle_msg i d)
  base_asked :
      (i : ℕ)
      → i < d.num_queues
      → d.conn_handler ≡ true
      → (d.vrings i).started_in_ctl ≡ true
      → Step d (put d i (record (d.vrings i) { stop_bh = suc (d.vrings i).stop_bh }))
  disconnected : {d' : Device} → disconnect d ≡ some d' → Step d d'
  stopped : {d' : Device} → d.listen_handler ≡ true → stop d ≡ some d' → Step d d'
  -- The loop of the request queue.
  start :
      (i : ℕ) (attached : Bool) {n : ℕ} {l : Life}
      → i < d.num_queues
      → (d.vrings i).start_bh ≡ suc n
      → vring_start attached (record (d.vrings i) { start_bh = n }) ≡ some l
      → Step d (put d i l)
  -- Of a vring with a request in flight some are not queued.
  stop_vring :
      (i queued : ℕ) {n : ℕ}
      → i < d.num_queues
      → (d.vrings i).stop_bh ≡ suc n
      → (queued ≡ 0) ⊎ (queued < (d.vrings i).num_in_flight)
      → Step d (put d i (vring_stop queued (record (d.vrings i) { stop_bh = n })))
  sync :
      (i : ℕ) {n : ℕ}
      → i < d.num_queues
      → (d.vrings i).sync_bh ≡ suc n
      → Step d (put d i (vring_sync (record (d.vrings i) { sync_bh = n })))
  submitted :
      (i : ℕ)
      → i < d.num_queues
      → (d.vrings i).started_in_rq ≡ true
      → (d.vrings i).num_in_flight + 1 < 2 ^ 16
      → Step d (put d i (vring_inc (d.vrings i)))
  completed :
      (i : ℕ)
      → i < d.num_queues
      → 0 < (d.vrings i).num_in_flight
      → Step d (put d i (vring_dec (d.vrings i)))
  -- The bottom halves of the control loop.
  msg_handled :
      (i : ℕ) (fails : Bool) {n : ℕ} {d' : Device}
      → i < d.num_queues
      → (d.vrings i).msg_handled_bh ≡ suc n
      → mark_msg_handled fails (put d i (record (d.vrings i) { msg_handled_bh = n })) ≡ some d'
      → Step d d'
  vring_stopped :
      (i : ℕ) {n : ℕ} {d' : Device}
      → i < d.num_queues
      → (d.vrings i).mark_stopped_bh ≡ suc n
      → mark_stopped (put d i (record (d.vrings i) { mark_stopped_bh = n })) ≡ some d'
      → Step d d'
  vring_drained :
      (i : ℕ) (fails : Bool) {n : ℕ} {d' : Device}
      → i < d.num_queues
      → (d.vrings i).mark_drained_bh ≡ suc n
      → mark_drained i fails (put d i (record (d.vrings i) { mark_drained_bh = n })) ≡ some d'
      → Step d d'
  not_started :
      (i : ℕ) (fails drain_fails : Bool) {n : ℕ} {d' : Device}
      → i < d.num_queues
      → (d.vrings i).start_failed_bh ≡ suc n
      → start_failed i fails drain_fails (put d i (record (d.vrings i) { start_failed_bh = n }))
        ≡ some d'
      → Step d d'

pub data Reach (n : ℕ) : Device → Type 0 where
  begin : Reach n (new_device n)
  later : {d d' : Device} → Reach n d → Step d d' → Reach n d'
