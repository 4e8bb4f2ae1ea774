-- ===== src/Server/Stops.antt =====
-- The vhost server (server.c) stops.
use ya_vhost.Prelude.{
  ◌≡◌, refl, ap, List, [], ◌∷◌, ◌++◌, none, some, Bool, true, false, ◌&&◌, ◌||◌, arith,
  Option-cases, inl, inr,
}
use ya_vhost.Event.Handlers.{Handlers, Ready, perform_all, handle_events}
use ya_vhost.Event.Run.{
  BhCallback, evloop_stop, deleted, calls, EventLoop, this_loop, Waited, timed_out, failed,
  woken_by, finished, terminate_event_loop, bh_poll, run_woken, run_home, run_event_loop,
  bh_cleanup, free_event_loop,
}
use ya_vhost.Server.Thread.{ended, turn_ended, vhost_evloop_func, join_and_free, stop_vhost_server}

-- `epoll_wait` returns without an event, and its caller tries again.
unfoldable pub is_quiet : Waited → Bool
is_quiet timed_out = true
is_quiet (failed interrupted e) = interrupted
is_quiet (woken_by ready before after) = false

unfoldable pub all_quiet : List Waited → Bool
unfolding is_quiet
all_quiet [] = true
all_quiet (w ∷ ws) = is_quiet w && all_quiet ws

-- The list has `evloop_stop_bh`.
unfoldable has_stop : List BhCallback → Bool
has_stop [] = false
has_stop (evloop_stop ∷ bhs) = true
has_stop (deleted ∷ bhs) = has_stop bhs
has_stop (calls ops ∷ bhs) = has_stop bhs

has_stop-append : (before bhs : List BhCallback) → has_stop (before ++ evloop_stop ∷ bhs) ≡ true
unfolding has_stop
has_stop-append [] bhs = refl
has_stop-append (evloop_stop ∷ before) bhs = refl
has_stop-append (deleted ∷ before) bhs = has_stop-append before bhs
has_stop-append (calls ops ∷ before) bhs = has_stop-append before bhs

-- `bh_poll` terminates the loop if it meets `evloop_stop_bh`, and leaves the list of the loop.
bh_poll-terminates :
    (bhs : List BhCallback) (s s' : EventLoop)
    → bh_poll bhs s ≡ some s'
    → (s'.is_terminated ≡ has_stop bhs || s.is_terminated) × (s'.bhs ≡ s.bhs)
unfolding bh_poll has_stop
bh_poll-terminates [] s s' e = ground (arith, e)
bh_poll-terminates (evloop_stop ∷ bhs) s s' e =
    ground (arith, bh_poll-terminates bhs (record s { is_terminated = true }) s' e)
bh_poll-terminates (deleted ∷ bhs) s s' e = bh_poll-terminates bhs s s' e
bh_poll-terminates (calls ops ∷ bhs) s s' e = elim (Option-cases (perform_all ops s.handlers)) [
  | inl t ↦ ground (arith, e, t)
  | inr (h, t) ↦ bh_poll-terminates bhs (record s { handlers = h }) s' (ground (arith, e, t))
]

-- The loop waits again behind a wait without an event.
quiet-waits :
    (quiet waits : List Waited) (s : EventLoop)
    → all_quiet quiet ≡ true
    → s.is_terminated ≡ false
    → vhost_evloop_func (quiet ++ waits) this_loop s ≡ vhost_evloop_func waits this_loop s
unfolding all_quiet is_quiet vhost_evloop_func run_event_loop run_home turn_ended
quiet-waits [] waits s q t = refl
quiet-waits (timed_out ∷ quiet) waits s q t =
    ground (arith, t, quiet-waits quiet waits s (ground (arith, q)) t)
quiet-waits (failed interrupted e ∷ quiet) waits s q t =
    ground (arith, t, q, quiet-waits quiet waits s (ground (arith, q)) t)
quiet-waits (woken_by ready before after ∷ quiet) waits s q t = ground (arith, q)

-- The thread of a loop that is terminated ends.
terminated-ends :
    (waits : List Waited) (s : EventLoop)
    → s.is_terminated ≡ true
    → vhost_evloop_func waits this_loop s ≡ ended finished s
unfolding vhost_evloop_func run_event_loop run_home turn_ended
terminated-ends [] s t = ground (arith, t)
terminated-ends (w ∷ waits) s t = ground (arith, t)

woken-ends :
    (ready : List Ready) (before bhs : List BhCallback) (rest : List Waited) (s s' : EventLoop)
    (h : Handlers)
    → s.is_terminated ≡ false
    → s.bhs ≡ evloop_stop ∷ bhs
    → bh_poll (before ++ evloop_stop ∷ bhs) (record s { bhs = [] }) ≡ some s'
    → handle_events ready s'.handlers ≡ some (0, h)
    → vhost_evloop_func (woken_by ready before [] ∷ rest) this_loop s
      ≡ ended finished (record s' { handlers = h })
unfolding vhost_evloop_func run_event_loop run_home run_woken turn_ended
woken-ends ready before bhs rest s s' h t l e f =
    let (stops, _) =
      bh_poll-terminates (before ++ evloop_stop ∷ bhs) (record s { bhs = [] }) s' e in
    let has = has_stop-append before bhs in
    ground (
      arith,
      t,
      e,
      f,
      stops,
      has,
      ap (λ x. before ++ x) l,
      terminated-ends rest (record s' { handlers = h }),
    )

-- The thread of the vhost server runs a loop `s`. If `epoll_wait` returns without an event for a
-- while, and then the events of which one is the notification of `vhd_terminate_event_loop`, no
-- bottom half and no event fails, all handlers are deleted then, and no bottom half is scheduled
-- any more: `vhd_stop_vhost_server` joins the thread and frees the loop, with no assertion failing.
pub stop_vhost_server-stops :
    (quiet rest : List Waited) (ready : List Ready) (before : List BhCallback) (s s' : EventLoop)
    (h : Handlers)
    → all_quiet quiet ≡ true
    → s.is_terminated ≡ false
    → bh_poll (before ++ evloop_stop ∷ s.bhs) (record s { bhs = [] }) ≡ some s'
    → handle_events ready s'.handlers ≡ some (0, h)
    → h.num_events_attached ≡ 0
    → stop_vhost_server (quiet ++ woken_by ready before [] ∷ rest) (record { evloop = some s })
      ≡ some (record { evloop = none })
unfolding stop_vhost_server terminate_event_loop join_and_free free_event_loop bh_cleanup
stop_vhost_server-stops quiet rest ready before s s' h q t e f z =
    let told : EventLoop = record s { bhs = evloop_stop ∷ s.bhs } in
    let waits = quiet-waits quiet (woken_by ready before [] ∷ rest) told q t in
    let (stops, left) =
      bh_poll-terminates (before ++ evloop_stop ∷ s.bhs) (record s { bhs = [] }) s' e in
    let has = has_stop-append before s.bhs in
    let cleaned : bh_cleanup s'.bhs ≡ true = ap bh_cleanup left in
    ground (
      arith,
      waits,
      woken-ends ready before s.bhs rest told s' h t refl e f,
      stops,
      has,
      cleaned,
      z,
    )
