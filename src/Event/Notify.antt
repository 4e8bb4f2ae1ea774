-- ===== src/Event/Notify.antt =====
-- The notification of an event loop (event.c): how a thread that has inserted a bottom half wakes the
-- loop, under any interleaving of the loop with the threads.
use ya_vhost.Prelude.{ℕ, suc, ◌≡◌, ◌||◌, Bool, true, false, List, [], ◌∷◌, ◌++◌, if◌then◌else◌}
use ya_vhost.Event.Bh.{BhFlags, Loop, bh_enqueue_mark, bh_cancel, poll_move, poll_turn, new_loop}

-- Where `vhd_run_event_loop` is: in front of `epoll_wait` or in it; behind it; in `notify_accept` in
-- front of `vhd_clear_eventfd`, and in front of its `atomic_xchg`; in front of `bh_poll`; in it.
pub data Where : Type 0 where
  waiting woken clearing cleared accepted polling : Where

-- The bottom halves of the loop, `notified`, whether `notifyfd` can be read, the number of threads
-- that are to enter `evloop_notify`, and of those in it that are to write to `notifyfd`.
pub record Waker : Type 0 where
  pub loop : Loop
  pub notified : Bool
  pub readable : Bool
  pub notifies : ℕ
  pub writes : ℕ
  pub at : Where

-- The `atomic_fetch_or` of `bh_enqueue`. A bottom half that was pending has not to be inserted.
unfoldable pub enqueue_mark : (new : BhFlags) → ℕ → Waker → Waker
enqueue_mark new bh w = record w {
  loop = bh_enqueue_mark new bh w.loop;
  notifies = if (w.loop.flags bh).pending then suc w.notifies else w.notifies;
}

-- `SLIST_INSERT_HEAD_ATOMIC` in `bh_enqueue`.
unfoldable pub enqueue_insert : (before after : List ℕ) → ℕ → Waker → Waker
enqueue_insert before after bh w = record w {
  loop = record w.loop { owed = before ++ after; bh_list = bh ∷ w.loop.bh_list };
  notifies = suc w.notifies;
}

-- The `atomic_xchg` of `evloop_notify`, by one of `suc n` threads.
unfoldable pub evloop_notify : (n : ℕ) → Waker → Waker
evloop_notify n w = record w {
  notifies = n;
  notified = true;
  writes = if w.notified then w.writes else suc w.writes;
}

-- `vhd_set_eventfd` in `evloop_notify`, by one of `suc n` threads.
unfoldable pub set_eventfd : (n : ℕ) → Waker → Waker
set_eventfd n w = record w { writes = n; readable = true }

-- `notify_accept`: its test, `vhd_clear_eventfd`, and its `atomic_xchg`.
unfoldable pub accept_read : Waker → Waker
accept_read w = record w { at = if w.notified then clearing else accepted }

unfoldable pub clear_eventfd : Waker → Waker
clear_eventfd w = record w { readable = false; at = cleared }

unfoldable pub accept_reset : Waker → Waker
accept_reset w = record w { notified = false; at = accepted }

-- `bh_poll`: its start and a turn of its loop.
unfoldable pub poll_begin : Waker → Waker
poll_begin w = record w { loop = poll_move w.loop; at = polling }

unfoldable pub poll_bh : (bh : ℕ) (rest : List ℕ) → Waker → Waker
poll_bh bh rest w = record w { loop = poll_turn bh rest w.loop }

-- What `vhd_create_event_loop` makes.
abbrev pub new_waker : Waker
new_waker = record {
  loop = new_loop;
  notified = false;
  readable = false;
  notifies = 0;
  writes = 0;
  at = waiting;
}

pub data Move (w : Waker) : Waker → Type 0 where
  -- A thread, which can be that of the loop in a callback.
  mark : (new : BhFlags) (bh : ℕ) → Move w (enqueue_mark new bh w)
  insert :
      (before after : List ℕ) (bh : ℕ)
      → w.loop.owed ≡ before ++ bh ∷ after
      → Move w (enqueue_insert before after bh w)
  cancel : (bh : ℕ) → Move w (record w { loop = bh_cancel bh w.loop })
  exchange : (n : ℕ) → w.notifies ≡ suc n → Move w (evloop_notify n w)
  write : (n : ℕ) → w.writes ≡ suc n → Move w (set_eventfd n w)
  -- The loop. `epoll_wait` returns an event, of `notifyfd` or of another descriptor.
  wake :
      (other : Bool)
      → w.at ≡ waiting
      → w.readable || other ≡ true
      → Move w (record w { at = woken })
  read : w.at ≡ woken → Move w (accept_read w)
  clear : w.at ≡ clearing → Move w (clear_eventfd w)
  reset : w.at ≡ cleared → Move w (accept_reset w)
  begin_poll : w.at ≡ accepted → Move w (poll_begin w)
  turn :
      (bh : ℕ) (rest : List ℕ)
      → w.at ≡ polling
      → w.loop.polled ≡ bh ∷ rest
      → Move w (poll_bh bh rest w)
  -- The end of `bh_poll`. Then the loop handles the events and waits again.
  end_poll : w.at ≡ polling → w.loop.polled ≡ [] → Move w (record w { at = waiting })

pub data Runs : Waker → Type 0 where
  created : Runs new_waker
  next : {w w' : Waker} → Runs w → Move w w' → Runs w'
