-- ===== src/Server/Thread.antt =====
-- The start, the thread and the stop of the vhost server (server.c). `none` is an assertion that fails.
use ya_vhost.Prelude.{List, [], ◌∷◌, Option, none, some, Bool, false, if◌then◌else◌}
use ya_vhost.Errno.{Errno}
use ya_vhost.Event.Run.{
  EventLoop, Home, this_loop, Waited, RunResult, finished, again, error, terminate_event_loop,
  run_event_loop, free_event_loop,
}

-- What `vhd_create_event_loop` makes.
abbrev pub new_event_loop : EventLoop
new_event_loop = record {
  has_home_thread = false;
  is_terminated = false;
  bhs = [];
  handlers = record {
    attached = λ h. false;
    deleted_handlers = [];
    num_events_attached = 0;
    called = [];
    freed = [];
  };
}

-- The thread of the server, when it has handled what `epoll_wait` returned so far.
pub data Thread : Type 0 where
  running : EventLoop → Thread
  ended : RunResult → EventLoop → Thread
  aborted : Thread

-- A turn of the loop of `vhost_evloop_func` that does not return `-EAGAIN` is the last.
unfoldable pub turn_ended : RunResult → (rest : Thread) → EventLoop → Thread
turn_ended again rest s = rest
turn_ended finished rest s = ended finished s
turn_ended (error e) rest s = ended (error e) s

-- The loop of `vhost_evloop_func`. A terminated loop does not wait.
unfoldable pub vhost_evloop_func : List Waited → Home → EventLoop → Thread
unfolding turn_ended
vhost_evloop_func [] home s = if s.is_terminated then ended finished s else running s
vhost_evloop_func (waited ∷ waits) home s = elim (run_event_loop waited home s) [
  | none ↦ aborted
  | some (res, s') ↦ turn_ended res (vhost_evloop_func waits this_loop s') s'
]

-- `g_vhost_evloop`
pub record Server : Type 0 where
  pub evloop : Option EventLoop

-- `vhd_start_vhost_server`, with whether `vhd_create_event_loop` makes a loop, and the error of
-- `pthread_create`.
unfoldable pub start_vhost_server :
    (created : Bool) (thread : Option Errno) → Server → Option (Option Errno × Server)
start_vhost_server created thread v = elim v.evloop [
  | some s ↦ some (none, v)
  | none ↦
      if created
      then elim thread [
        | none ↦ some (none, record { evloop = some new_event_loop })
        | some e ↦
            if free_event_loop new_event_loop then some (some e, record { evloop = none }) else none
      ]
      else some (some Errno.eio, v)
]

-- `pthread_join` and `free_vhost_event_loop` in `vhd_stop_vhost_server`: `none` also when the thread
-- is still running.
unfoldable pub join_and_free : Thread → Option Server
join_and_free (running s) = none
join_and_free aborted = none
join_and_free (ended res s) = if free_event_loop s then some (record { evloop = none }) else none

-- `vhd_stop_vhost_server`, for a thread that waits in `vhd_run_event_loop`, and what `epoll_wait`
-- returns to it from then on.
unfoldable pub stop_vhost_server : List Waited → Server → Option Server
unfolding vhost_evloop_func join_and_free
stop_vhost_server waits v = elim v.evloop [
  | none ↦ some v
  | some s ↦ join_and_free (vhost_evloop_func waits this_loop (terminate_event_loop s))
]
