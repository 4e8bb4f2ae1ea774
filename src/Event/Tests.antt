-- ===== src/Event/Tests.antt =====
-- The bottom halves and the io handlers of an event loop (event.c) at concrete inputs.
use ya_vhost.Prelude.{◌≡◌, ◌<◌, refl, true, false, ◌||◌, ◌==◌, if◌then◌else◌, [], ◌∷◌, some, times}
use ya_vhost.Event.Bh.{
  bh_dequeue, poll_move, poll_turn, Loop, bh_mark, bh_enqueue_mark, schedule_flags, new_loop, mark,
  begin, later,
}
use ya_vhost.Event.Pending.{IsPlaced, Reach-IsPlaced}
use ya_vhost.Event.Called.{IsCalled, scheduled-IsCalled}
use ya_vhost.Event.Handlers.{
  Handlers, Ready, handle_events, handle_ready, perform_all, perform, del_io_handler,
  detach_io_handler,
}
use ya_vhost.Event.Ready.{attaches_any, attaches_later, handle_events-deleted}
use ya_vhost.Event.Notify.{
  Waker, waiting, woken, enqueue_mark, enqueue_insert, evloop_notify, set_eventfd, accept_read,
  clear_eventfd, accept_reset, poll_begin, poll_bh, new_waker, mark, insert, exchange, write, wake,
  read, clear, reset, begin_poll, turn, end_poll, Runs, created, next,
}
use ya_vhost.Event.Awake.{Runs-IsAsleep}

-- A thread is scheduling the bottom half 4, and has not inserted it yet.
abbrev scheduling : Loop
scheduling = bh_enqueue_mark schedule_flags 4 new_loop

Reach-IsPlaced_example : IsPlaced scheduling
Reach-IsPlaced_example = Reach-IsPlaced (later begin (mark schedule_flags 4))

scheduled-IsCalled_example : (l' : Loop) × IsCalled 4 scheduling l'
unfolding bh_enqueue_mark bh_mark
scheduled-IsCalled_example =
    scheduled-IsCalled scheduling 4 (later begin (mark schedule_flags 4))
      (record { scheduled = refl; kept = refl })

-- The handlers 1 and 2 are attached.
abbrev two_handlers : Handlers
two_handlers = record {
  attached = λ j. j == 1 || j == 2;
  deleted_handlers = [];
  num_events_attached = 2;
  called = [];
  freed = [];
}

-- The handler 2 is ready behind the handler 1.
abbrev ready_behind : Ready
ready_behind = record { handler = some 2; readable = true; ops = []; fails = false }

-- The callback of the handler 1 deletes the handler 2.
abbrev after_events : Handlers
after_events = record {
  attached = λ j. if j == 2 then false else j == 1 || j == 2;
  deleted_handlers = [];
  num_events_attached = 1;
  called = 1 ∷ [];
  freed = 2 ∷ [];
}

handle_events-deleted_example :
    (times 2 after_events.called ≡ times 2 (1 ∷ [])) × (times 2 [] < times 2 after_events.freed)
unfolding handle_events handle_ready perform_all perform del_io_handler detach_io_handler
    attaches_any attaches_later
handle_events-deleted_example =
    handle_events-deleted 2 1 false [] (ready_behind ∷ []) two_handlers after_events 0 refl refl
      refl refl

-- A thread schedules the bottom half 4 and has notified the loop, but not written to its descriptor.
abbrev notifying : Waker
notifying = evloop_notify 0 (enqueue_insert [] [] 4 (enqueue_mark schedule_flags 4 new_waker))

notifying-Runs : Runs notifying
unfolding evloop_notify enqueue_insert enqueue_mark bh_enqueue_mark bh_mark
notifying-Runs =
    next (next (next created (mark schedule_flags 4)) (insert [] [] 4 refl)) (exchange 0 refl)

-- The loop calls it in a turn that `notifyfd` or another descriptor has woken.
abbrev after_turn : Waker → Waker
after_turn w =
    record (poll_bh 4 []
      (poll_begin (accept_reset (clear_eventfd (accept_read (record w { at = woken })))))) {
        at = waiting;
      }

after_turn-Runs : Runs (after_turn (set_eventfd 0 notifying))
unfolding evloop_notify enqueue_insert enqueue_mark bh_enqueue_mark bh_mark set_eventfd accept_read
    clear_eventfd accept_reset poll_begin poll_bh poll_turn bh_dequeue poll_move
after_turn-Runs =
    let written = next notifying-Runs (write 0 refl) in
    let accepting = next (next written (wake false refl refl)) (read refl) in
    let begun = next (next (next accepting (clear refl)) (reset refl)) (begin_poll refl) in
    next (next begun (turn 4 [] refl refl)) (end_poll refl refl)

abbrev slept : Waker
slept = after_turn (set_eventfd 0 notifying)

Runs-IsAsleep_example :
    ((slept.loop.flags 4).scheduled ≡ false) × ((slept.loop.flags 4).pending ≡ false)
unfolding evloop_notify enqueue_insert enqueue_mark bh_enqueue_mark bh_mark set_eventfd accept_read
    clear_eventfd accept_reset poll_begin poll_bh poll_turn bh_dequeue poll_move
Runs-IsAsleep_example =
    Runs-IsAsleep after_turn-Runs
      (record { inserted = refl; notified = refl; written = refl; at = refl; unreadable = refl }) 4

-- The loop handles the notification before the thread writes to the descriptor.
abbrev written_late : Waker
written_late = set_eventfd 0 (after_turn notifying)

-- The descriptor then stays readable: a turn of the loop ends where it began, and no thread runs.
written_late_spins :
    (written_late.notified ≡ false)
    × (written_late.readable ≡ true)
    × (record (poll_begin (accept_read (record written_late { at = woken }))) { at = waiting }
        ≡ written_late)
unfolding evloop_notify enqueue_insert enqueue_mark bh_enqueue_mark bh_mark set_eventfd accept_read
    clear_eventfd accept_reset poll_begin poll_bh poll_turn bh_dequeue poll_move
written_late_spins = (refl, refl, refl)

written_late-Runs : Runs written_late
unfolding evloop_notify enqueue_insert enqueue_mark bh_enqueue_mark bh_mark set_eventfd accept_read
    clear_eventfd accept_reset poll_begin poll_bh poll_turn bh_dequeue poll_move
written_late-Runs =
    let accepting = next (next notifying-Runs (wake true refl refl)) (read refl) in
    let begun = next (next (next accepting (clear refl)) (reset refl)) (begin_poll refl) in
    next (next (next begun (turn 4 [] refl refl)) (end_poll refl refl)) (write 0 refl)
