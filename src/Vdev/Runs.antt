-- ===== src/Vdev/Runs.antt =====
-- Runs of a device with one vring (vdev.c).
use ya_vhost.Prelude.{◌<◌, ◌≡◌, refl, inl, true, false, some, arith}
use ya_vhost.Vdev.Life.{
  Device, put, vring_start, vring_stop, vring_sync, disconnect, vring_disconnect, settle,
  maybe_vrings_stopped, vrings_stopped, in_use, maybe_drained, drained, release, mark_msg_handled,
  mark_stopped, mark_drained, leave, stop,
}
use ya_vhost.Vdev.Running.{
  set_vring_kick, handle_msg, connected, kicked, synced, base_asked, stopped, start, stop_vring,
  sync, msg_handled, vring_stopped, vring_drained, Reach, begin, later,
}
use ya_vhost.Vdev.Handlers.{Flags}
use ya_vhost.Vdev.Safe.{Reach-Flags}
use ya_vhost.Vdev.Stuck.{IsStuck, Later, WaitsForMsg, msg_handled_last-IsStuck}

one_queue : 0 < 1
one_queue = omega arith

-- A client connects and starts the vring.
started_once :
    (d : Device) × Reach 1 d × (d.num_vrings_started ≡ 1) × ((d.vrings 0).started_in_rq ≡ true)
unfolding set_vring_kick vring_start mark_msg_handled disconnect
started_once = (
  _,
  later
      (later (later (later begin (connected refl refl)) (kicked 0 one_queue refl refl))
        (start 0 true one_queue refl refl))
      (msg_handled 0 false one_queue refl refl),
  refl,
  refl,
)

Reach-Flags_example : Flags started_once.0
Reach-Flags_example = Reach-Flags started_once.1

-- The client then sets the call descriptor of the vring. While this message is handled the device is
-- stopped, and the vring is stopped and drained before the control loop comes to the end of the
-- message.
waiting_run :
    (d : Device) × Reach 1 d
    × WaitsForMsg d
    × ((d.vrings 0).msg_handled_bh ≡ 1)
    × (0 < d.num_queues)
unfolding set_vring_kick handle_msg vring_start vring_sync vring_stop mark_msg_handled disconnect
    vring_disconnect settle maybe_vrings_stopped vrings_stopped in_use maybe_drained drained release
    mark_stopped mark_drained leave stop
waiting_run =
    let run : Reach 1 _ =
      later
        (later (later (later begin (connected refl refl)) (kicked 0 one_queue refl refl))
          (start 0 true one_queue refl refl))
        (msg_handled 0 false one_queue refl refl) in
    let stopping : Reach 1 _ =
      later (later (later run (synced 0 one_queue refl refl)) (sync 0 one_queue refl))
        (stopped refl refl) in
    let done : Reach 1 _ =
      later
        (later (later stopping (stop_vring 0 0 one_queue refl (inl refl)))
          (vring_drained 0 false one_queue refl refl))
        (vring_stopped 0 one_queue refl refl) in
    (
      _,
      done,
      record {
        conn = refl;
        connection = refl;
        listening = refl;
        started = refl;
        flight = refl;
        handling = refl;
      },
      refl,
      one_queue,
    )

msg_handled_last-IsStuck_example :
    (d' : Device) × (mark_msg_handled false
        (put waiting_run.0 0 (record (waiting_run.0.vrings 0) { msg_handled_bh = 0 }))
      ≡ some d')
    × IsStuck d'
    × ((d'' : Device) → Later d' d'' → IsStuck d'' × (d''.released ≡ false))
msg_handled_last-IsStuck_example =
    msg_handled_last-IsStuck 0 0 false waiting_run.1 waiting_run.4 waiting_run.3 waiting_run.2

-- The device is stopped while a vring that the client asked to stop is stopping: the device is
-- released, and `vring_stop_bh` of the vring is still scheduled.
released_early : (d : Device) × Reach 1 d × (d.released ≡ true) × ((d.vrings 0).stop_bh ≡ 1)
unfolding set_vring_kick vring_start vring_stop mark_msg_handled disconnect vring_disconnect settle
    maybe_vrings_stopped vrings_stopped in_use maybe_drained drained release mark_stopped
    mark_drained leave stop
released_early =
    let run : Reach 1 _ =
      later
        (later (later (later begin (connected refl refl)) (kicked 0 one_queue refl refl))
          (start 0 true one_queue refl refl))
        (msg_handled 0 false one_queue refl refl) in
    let asked : Reach 1 _ =
      later
        (later (later run (base_asked 0 one_queue refl refl))
          (stop_vring 0 0 one_queue refl (inl refl)))
        (stopped refl refl) in
    (
      _,
      later (later asked (vring_drained 0 false one_queue refl refl))
          (vring_stopped 0 one_queue refl refl),
      refl,
      refl,
    )
