-- ===== src/Event/Awake.antt =====
-- No wake-up of an event loop (event.c) is lost.
use ya_vhost.Prelude.{
  times, ℕ, ◌≡◌, ◌||◌, ◌&&◌, ltb, refl, ap, Bool, true, false, not, List, [], ◌∷◌, arith,
}
use ya_vhost.Event.Bh
use ya_vhost.Event.Bh.{
  BhFlags, Loop, bh_enqueue_mark, bh_cancel, poll_move, bh_dequeue, poll_turn, new_loop,
}
use ya_vhost.Event.Pending.{Reach-IsPlaced}
use ya_vhost.Event.Notify.{
  waiting, cleared, accepted, polling, Waker, enqueue_mark, enqueue_insert, evloop_notify,
  set_eventfd, accept_read, clear_eventfd, accept_reset, poll_begin, poll_bh, Move, mark, insert,
  cancel, exchange, write, wake, read, clear, reset, begin_poll, turn, end_poll, Runs, created,
  next,
}

-- The list has a bottom half.
unfoldable waits : List ℕ → Bool
waits [] = false
waits (b ∷ bs) = true

-- A loop that is notified is woken: by the descriptor, by a thread that is to write to it, or by
-- itself, as it clears both.
unfoldable is_told : Waker → Bool
is_told w = elim w.at [ cleared ↦ true | _ ↦ not w.notified || w.readable || ltb 0 w.writes ]

-- A bottom half on the list has notified the loop, is going to, or is taken next.
unfoldable is_served : Waker → Bool
unfolding waits
is_served w = elim w.at [
  | accepted ↦ true
  | _ ↦ not (waits w.loop.bh_list) || w.notified || ltb 0 w.notifies
]

-- `bh_poll` has come to its end.
unfoldable is_polled : Waker → Bool
unfolding waits
is_polled w = elim w.at [ polling ↦ true | _ ↦ not (waits w.loop.polled) ]

unfoldable is_awake : Waker → Bool
unfolding is_told is_served is_polled
is_awake w = is_told w && is_served w && is_polled w

Move-awake : {w w' : Waker} → Move w w' → is_awake w ≡ true → is_awake w' ≡ true
unfolding is_awake is_told is_served is_polled waits enqueue_mark bh_enqueue_mark enqueue_insert
    evloop_notify set_eventfd accept_read clear_eventfd accept_reset poll_begin poll_bh poll_move
    poll_turn bh_dequeue bh_cancel
Move-awake {w} (mark new bh) inv = ground (arith, inv)
Move-awake {w} (insert before after bh e) inv = ground (arith, inv)
Move-awake {w} (cancel bh) inv = ground (arith, inv)
Move-awake {w} (exchange n e) inv = ground (arith, inv)
Move-awake {w} (write n e) inv = ground (arith, inv)
Move-awake {w} (wake other at e) inv = ground (arith, inv)
Move-awake {w} (read at) inv = ground (arith, inv)
Move-awake {w} (clear at) inv = ground (arith, inv)
Move-awake {w} (reset at) inv = ground (arith, inv)
Move-awake {w} (begin_poll at) inv = ground (arith, inv)
Move-awake {w} (turn bh rest at e) inv = ground (arith, inv)
Move-awake {w} (end_poll at e) inv = ground (arith, inv)

Runs-awake : {w : Waker} → Runs w → is_awake w ≡ true
unfolding is_awake is_told is_served is_polled waits
Runs-awake created = refl
Runs-awake (next r m) = Move-awake m (Runs-awake r)

-- The bottom halves take their own steps.
Move-Reach : {w w' : Waker} → Move w w' → is_awake w ≡ true → Bh.Reach w.loop → Bh.Reach w'.loop
unfolding is_awake is_polled waits enqueue_mark enqueue_insert evloop_notify set_eventfd accept_read
    clear_eventfd accept_reset poll_begin poll_bh
Move-Reach (mark new bh) inv r = Bh.later r (Bh.mark new bh)
Move-Reach (insert before after bh e) inv r = Bh.later r (Bh.insert before after bh e)
Move-Reach (cancel bh) inv r = Bh.later r (Bh.cancel bh)
Move-Reach (exchange n e) inv r = r
Move-Reach (write n e) inv r = r
Move-Reach (wake other at e) inv r = r
Move-Reach (read at) inv r = r
Move-Reach (clear at) inv r = r
Move-Reach (reset at) inv r = r
Move-Reach (begin_poll at) inv r = Bh.later r (Bh.move (ground (arith, inv, at)))
Move-Reach (turn bh rest at e) inv r = Bh.later r (Bh.turn bh rest e)
Move-Reach (end_poll at e) inv r = r

Runs-Reach : {w : Waker} → Runs w → Bh.Reach w.loop
Runs-Reach created = Bh.begin
Runs-Reach (next r m) = Move-Reach m (Runs-awake r) (Runs-Reach r)

-- The state of an event loop that sleeps in `epoll_wait`, while no thread is in `bh_enqueue`.
pub record IsAsleep (w : Waker) : Type 0 where
  pub inserted : w.loop.owed ≡ []
  pub notified : w.notifies ≡ 0
  pub written : w.writes ≡ 0
  pub at : w.at ≡ waiting
  pub unreadable : w.readable ≡ false

asleep-empty :
    (w : Waker) → is_awake w ≡ true → IsAsleep w → (w.loop.bh_list ≡ []) × (w.loop.polled ≡ [])
unfolding is_awake is_told is_served is_polled waits
asleep-empty w inv s = ground (arith, inv, s.notified, s.written, s.at, s.unreadable)

-- Whatever the order in which the event loop and the threads that schedule its bottom halves run is:
-- when the loop sleeps in `epoll_wait`, its `notifyfd` cannot be read, and every thread has returned
-- from `bh_enqueue`, no bottom half is scheduled or pending.
pub Runs-IsAsleep :
    {w : Waker}
    → Runs w
    → IsAsleep w
    → (b : ℕ) → ((w.loop.flags b).scheduled ≡ false) × ((w.loop.flags b).pending ≡ false)
unfolding times
Runs-IsAsleep {w} r s b =
    let inv = Reach-IsPlaced (Runs-Reach r) in
    let (listed, polled) = asleep-empty w (Runs-awake r) s in
    ground (
      arith,
      inv.placed b,
      inv.wanted b,
      ap (times b) listed,
      ap (times b) polled,
      ap (times b) s.inserted,
    )
