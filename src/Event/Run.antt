-- ===== src/Event/Run.antt =====
-- The run of an event loop by its thread, and its end (event.c). The thread sees the bottom halves in
-- the order of its lists; Bh has the order of the steps. `none` is an assertion that fails.
use ya_vhost.Prelude.{
  List, [], ◌∷◌, ◌++◌, Option, none, some, Bool, true, false, ◌&&◌, ◌==◌, if◌then◌else◌,
}
use ya_vhost.Errno.{Errno}
use ya_vhost.Event.Handlers.{Handlers, Op, perform_all, Ready, handle_events}

-- A bottom half on the list of the loop: `evloop_stop_bh`, one that is deleted, and one whose callback
-- does this with the handlers of the loop.
pub data BhCallback : Type 0 where
  evloop_stop deleted : BhCallback
  calls : (ops : List Op) → BhCallback

-- `struct vhd_event_loop`, with the list that `bh_poll` takes next, its head first.
pub record EventLoop : Type 0 where
  pub has_home_thread : Bool
  pub is_terminated : Bool
  pub bhs : List BhCallback
  pub handlers : Handlers

-- `home_evloop` of a thread: none, this loop, or another one.
pub data Home : Type 0 where
  no_home this_loop other_loop : Home

-- What `epoll_wait` returns: no event; an error, which can be `EINTR`; or events. The bottom halves
-- that other threads and callbacks schedule are those `before` the loop takes the list and `after`.
pub data Waited : Type 0 where
  timed_out : Waited
  failed : (interrupted : Bool) (errno : Errno) → Waited
  woken_by : (ready : List Ready) (before after : List BhCallback) → Waited

-- The results of `vhd_run_event_loop`: 0, `-EAGAIN`, and other errors.
pub data RunResult : Type 0 where
  finished again : RunResult
  error : Errno → RunResult

-- `vhd_terminate_event_loop`
unfoldable pub terminate_event_loop : EventLoop → EventLoop
terminate_event_loop s = record s { bhs = evloop_stop ∷ s.bhs }

-- `bh_poll` over the list that it has taken.
unfoldable pub bh_poll : List BhCallback → EventLoop → Option EventLoop
bh_poll [] s = some s
bh_poll (evloop_stop ∷ bhs) s = bh_poll bhs (record s { is_terminated = true })
bh_poll (deleted ∷ bhs) s = bh_poll bhs s
bh_poll (calls ops ∷ bhs) s = elim (perform_all ops s.handlers) [
  | none ↦ none
  | some h ↦ bh_poll bhs (record s { handlers = h })
]

-- The events that `epoll_wait` has returned: `notify_accept`, `bh_poll` and `handle_events`.
unfoldable pub run_woken :
    List Ready → (before after : List BhCallback) → EventLoop → Option (RunResult × EventLoop)
unfolding bh_poll
run_woken ready before after s = elim (bh_poll (before ++ s.bhs) (record s { bhs = after })) [
  | none ↦ none
  | some s' ↦ elim (handle_events ready s'.handlers) [
    | none ↦ none
    | some (nerr, h) ↦
        some ((if nerr == 0 then again else error Errno.eio), record s' { handlers = h })
  ]
]

-- `vhd_run_event_loop` behind its checks of the thread.
unfoldable pub run_home : Waited → EventLoop → Option (RunResult × EventLoop)
unfolding run_woken
run_home waited s = if s.is_terminated then some (finished, s) else elim waited [
  | timed_out ↦ some (again, s)
  | failed interrupted e ↦ some ((if interrupted then again else error e), s)
  | woken_by ready before after ↦ run_woken ready before after s
]

-- `vhd_run_event_loop`
unfoldable pub run_event_loop : Waited → Home → EventLoop → Option (RunResult × EventLoop)
unfolding run_home
run_event_loop waited home s = elim home [
  | other_loop ↦ none
  | this_loop ↦ run_home waited s
  | no_home ↦
      if s.has_home_thread then none else run_home waited (record s { has_home_thread = true })
]

-- `bh_cleanup`: the list has deleted bottom halves only.
unfoldable pub bh_cleanup : List BhCallback → Bool
bh_cleanup [] = true
bh_cleanup (deleted ∷ bhs) = bh_cleanup bhs
bh_cleanup (evloop_stop ∷ bhs) = false
bh_cleanup (calls ops ∷ bhs) = false

-- `vhd_free_event_loop`: whether its assertions hold.
unfoldable pub free_event_loop : EventLoop → Bool
unfolding bh_cleanup
free_event_loop s = s.is_terminated && s.handlers.num_events_attached == 0 && bh_cleanup s.bhs
