-- ===== src/Vdev/Life.antt =====
-- The life of the vrings of a device in the control loop and in the loop of its request queue, with
-- the counters of the device (vdev.c, vdev.h). A function is `none` if an assertion fails, or if it
-- goes on with what was completed or released before.
use ya_vhost.Prelude.{
  ℕ, suc, ◌+◌, ◌-◌, Bool, true, false, not, ◌&&◌, ◌||◌, Option, none, some, ◌==◌, ltb,
  if◌then◌else◌, u16,
}

-- `struct vhd_vring`: its part that starting and stopping it uses, and how often each of its bottom
-- halves is scheduled: the first three in the loop of the request queue, the others in the control
-- loop.
pub record Life : Type 0 where
  pub started_in_ctl : Bool
  pub started_in_rq : Bool
  pub disconnecting : Bool
  pub num_in_flight : ℕ
  pub start_bh : ℕ
  pub stop_bh : ℕ
  pub sync_bh : ℕ
  pub msg_handled_bh : ℕ
  pub start_failed_bh : ℕ
  pub mark_stopped_bh : ℕ
  pub mark_drained_bh : ℕ

-- `struct vhd_vdev`: its part that starting and stopping vrings uses. `conn_handler`,
-- `listen_handler` and `work` are whether they are not NULL, `connfd` is whether it is open, and
-- `released` is whether `vhd_vdev_release` was called. `clean` is whether the messages leave nothing
-- that `vdev_cleanup` asserts not to be there: no message in handling, no old map or log, and no
-- descriptor that is kept. The counters do not wrap.
pub record Device : Type 0 where
  pub num_queues : ℕ
  pub vrings : ℕ → Life
  pub num_vrings_started : ℕ
  pub num_vrings_in_flight : ℕ
  pub num_vrings_handling_msg : ℕ
  pub conn_handler : Bool
  pub connfd : Bool
  pub listen_handler : Bool
  pub work : Bool
  pub released : Bool
  pub clean : Bool

abbrev pub put : Device → ℕ → Life → Device
put d i l = record d { vrings = λ j. if j == i then l else d.vrings j }

abbrev pub and_then : Option Device → (Device → Option Device) → Option Device
and_then none f = none
and_then (some d) f = f d

-- The bottom halves of the loop of the request queue.

-- `vring_start_bh`; `attached` is whether the kick handler was added.
unfoldable pub vring_start : (attached : Bool) → Life → Option Life
vring_start attached l =
    if l.started_in_rq
    then none
    else if l.disconnecting || not attached
    then some (record l { start_failed_bh = suc l.start_failed_bh })
    else some (record l { started_in_rq = true; msg_handled_bh = suc l.msg_handled_bh })

-- `vring_stop_bh`, with `queued` requests of the vring in the request queue, which are canceled if it
-- is disconnecting. The last one in flight signals in `vhd_vring_dec_in_flight`.
unfoldable pub vring_stop : (queued : ℕ) → Life → Life
vring_stop queued l =
    let out = if l.disconnecting then queued else 0 in
    let left = l.num_in_flight - out in
    let last = if ltb 0 out && (left == 0) then 1 else 0 in
    let drained = if left == 0 then 1 else 0 in
    if l.started_in_rq
    then record l {
      started_in_rq = false;
      num_in_flight = left;
      mark_stopped_bh = suc l.mark_stopped_bh;
      mark_drained_bh = l.mark_drained_bh + last + drained;
    }
    else l

-- `vring_sync_to_virtq_bh`
unfoldable pub vring_sync : Life → Life
vring_sync l = record l { msg_handled_bh = suc l.msg_handled_bh }

-- `vhd_vring_inc_in_flight` and `vhd_vring_dec_in_flight`
unfoldable pub vring_inc : Life → Life
vring_inc l = record l { num_in_flight = u16 (l.num_in_flight + 1) }

unfoldable pub vring_dec : Life → Life
vring_dec l =
    let left = l.num_in_flight - 1 in
    record l {
      num_in_flight = left;
      mark_drained_bh =
          if (left == 0) && not l.started_in_rq then suc l.mark_drained_bh else l.mark_drained_bh;
    }

-- The functions of the control loop.

-- `vdev_vrings_stopped`, with `vdev_complete_work`
unfoldable pub vrings_stopped : Device → Option Device
vrings_stopped d =
    if d.listen_handler then some d else if d.work then some (record d { work = false }) else none

-- `vdev_maybe_vrings_stopped`
unfoldable pub maybe_vrings_stopped : Device → Option Device
unfolding vrings_stopped
maybe_vrings_stopped d = if d.num_vrings_started == 0 then vrings_stopped d else some d

-- `vdev_in_use`
unfoldable pub in_use : Device → Bool
in_use d =
    not (d.num_vrings_in_flight == 0) || not (d.num_vrings_handling_msg == 0) || d.conn_handler

-- `vhd_vdev_release`
unfoldable pub release : Device → Option Device
release d = if d.released then none else some (record d { released = true })

-- `vdev_drained`, with `vdev_cleanup`
unfoldable pub drained : Device → Option Device
unfolding release
drained d =
    let cleaned = record d { connfd = false } in
    if d.num_vrings_handling_msg == 0 && d.clean
    then if d.listen_handler then some cleaned else release cleaned
    else none

-- `vdev_maybe_drained`
unfoldable pub maybe_drained : Device → Option Device
unfolding in_use drained
maybe_drained d =
    if in_use d then some d else if d.num_vrings_started == 0 then drained d else some d

-- `vdev_maybe_vrings_stopped` and `vdev_maybe_drained`
unfoldable pub settle : Device → Option Device
unfolding maybe_vrings_stopped maybe_drained
settle d = and_then (maybe_vrings_stopped d) maybe_drained

-- `vring_disconnect`, with `vring_reset`
unfoldable pub vring_disconnect : Life → Life
vring_disconnect l =
    if l.started_in_ctl
    then record l { disconnecting = true; stop_bh = suc l.stop_bh }
    else record l { disconnecting = false }

-- `vdev_disconnect`
unfoldable pub disconnect : Device → Option Device
unfolding vring_disconnect settle
disconnect d =
    if d.conn_handler
    then settle (record d { conn_handler = false; vrings = λ i. vring_disconnect (d.vrings i) })
    else some d

-- `vring_mark_msg_handled`; `fails` is whether `handle_complete` does.
unfoldable pub mark_msg_handled : (fails : Bool) → Device → Option Device
unfolding disconnect
mark_msg_handled fails d =
    let handled = record d { num_vrings_handling_msg = d.num_vrings_handling_msg - 1 } in
    if d.num_vrings_handling_msg == 0
    then none
    else if (handled.num_vrings_handling_msg == 0) && fails
    then disconnect handled
    else some handled

-- `vring_mark_stopped`
unfoldable pub mark_stopped : Device → Option Device
unfolding settle
mark_stopped d =
    if d.num_vrings_started == 0
    then none
    else settle (record d { num_vrings_started = d.num_vrings_started - 1 })

-- The end of `vring_mark_drained`.
unfoldable pub leave : Device → Option Device
unfolding maybe_drained
leave d =
    if d.num_vrings_in_flight == 0
    then none
    else maybe_drained (record d { num_vrings_in_flight = d.num_vrings_in_flight - 1 })

-- `vring_mark_drained`; `fails` is whether there is an `on_drain_cb`, and it does.
unfoldable pub mark_drained : (i : ℕ) (fails : Bool) → Device → Option Device
unfolding disconnect leave
mark_drained i fails d =
    let reset = put d i (record (d.vrings i) { started_in_ctl = false; disconnecting = false }) in
    if (d.vrings i).started_in_ctl
    then and_then (if fails then disconnect reset else some reset) leave
    else none

-- `vring_start_failed_bh`; `fails` is as for `vring_mark_msg_handled`.
unfoldable pub start_failed : (i : ℕ) (fails drain_fails : Bool) → Device → Option Device
unfolding mark_msg_handled mark_stopped mark_drained
start_failed i fails drain_fails d =
    and_then (and_then (mark_msg_handled fails d) mark_stopped) (mark_drained i drain_fails)

-- `vdev_stop`, which the control loop runs as its work.
unfoldable pub stop : Device → Option Device
unfolding disconnect settle
stop d =
    let closing = record d { listen_handler = false; work = true } in
    if d.conn_handler then disconnect closing else settle closing
