-- ===== src/Event/Pending.antt =====
-- Where a bottom half of an event loop (event.c) is.
use ya_vhost.Prelude.{
  times, times-append, ℕ, ◌+◌, ◌≡◌, refl, sym, subst, ap, if_true, if_false, Bool, true, false,
  List, [], ◌∷◌, ◌++◌, arith, Bool-cases, inl, inr,
}
use ya_vhost.Event.Bh.{
  BhFlags, Loop, set_flags, bh_mark, bh_enqueue_mark, bh_cancel, poll_move, bh_dequeue, poll_turn,
  new_loop, Step, mark, insert, cancel, move, turn, Reach, begin, later,
}

abbrev pub bit : Bool → ℕ
bit true = 1
bit false = 0

-- What holds of every bottom half between two steps.
pub record IsPlaced (l : Loop) : Type 0 where
  pub placed :
      (b : ℕ) → bit (l.flags b).pending ≡ times b l.owed + (times b l.bh_list + times b l.polled)
  pub wanted : (b : ℕ) → (l.flags b).scheduled ≡ true → (l.flags b).pending ≡ true

mark-IsPlaced :
    (l : Loop) (new : BhFlags) (bh : ℕ) → IsPlaced l → IsPlaced (bh_enqueue_mark new bh l)
unfolding bh_enqueue_mark bh_mark times
mark-IsPlaced l new bh inv =
    let marked = set_flags l bh (bh_mark new (l.flags bh)) in
    elim (Bool-cases (l.flags bh).pending) [
      | inl e ↦
          subst IsPlaced (sym (if_true marked (record marked { owed = bh ∷ l.owed }) e)) (record {
            placed = λ b. ground (arith, inv.placed b, inv.placed bh);
            wanted = λ b h. ground (arith, inv.wanted b, h);
          })
      | inr e ↦
          subst IsPlaced (sym (if_false marked (record marked { owed = bh ∷ l.owed }) e)) (record {
            placed = λ b. ground (arith, inv.placed b, inv.placed bh);
            wanted = λ b h. ground (arith, inv.wanted b, h);
          })
    ]

insert-IsPlaced :
    (l : Loop) (before after : List ℕ) (bh : ℕ)
    → l.owed ≡ before ++ bh ∷ after
    → IsPlaced l
    → IsPlaced (record l { owed = before ++ after; bh_list = bh ∷ l.bh_list })
unfolding times
insert-IsPlaced l before after bh e inv = record {
  placed = λ b. ground (
    arith,
    inv.placed b,
    ap (times b) e,
    times-append b before (bh ∷ after),
    times-append b before after,
  );
  wanted = inv.wanted;
}

cancel-IsPlaced : (l : Loop) (bh : ℕ) → IsPlaced l → IsPlaced (bh_cancel bh l)
unfolding bh_cancel
cancel-IsPlaced l bh inv = record {
  placed = λ b. ground (arith, inv.placed b, inv.placed bh);
  wanted = λ b h. ground (arith, inv.wanted b, h);
}

move-IsPlaced : (l : Loop) → l.polled ≡ [] → IsPlaced l → IsPlaced (poll_move l)
unfolding poll_move times
move-IsPlaced l e inv = record {
  placed = λ b. ground (arith, inv.placed b, ap (times b) e);
  wanted = inv.wanted;
}

turn-IsPlaced :
    (l : Loop) (bh : ℕ) (rest : List ℕ)
    → l.polled ≡ bh ∷ rest
    → IsPlaced l
    → IsPlaced (poll_turn bh rest l)
unfolding poll_turn bh_dequeue times
turn-IsPlaced l bh rest e inv = record {
  placed = λ b. ground (arith, inv.placed b, ap (times b) e);
  wanted = λ b h. ground (arith, inv.wanted b, h);
}

pub Step-IsPlaced : {l l' : Loop} → Step l l' → IsPlaced l → IsPlaced l'
Step-IsPlaced {l} (mark new bh) inv = mark-IsPlaced l new bh inv
Step-IsPlaced {l} (insert before after bh e) inv = insert-IsPlaced l before after bh e inv
Step-IsPlaced {l} (cancel bh) inv = cancel-IsPlaced l bh inv
Step-IsPlaced {l} (move e) inv = move-IsPlaced l e inv
Step-IsPlaced {l} (turn bh rest e) inv = turn-IsPlaced l bh rest e inv

new_loop-IsPlaced : IsPlaced new_loop
unfolding times
new_loop-IsPlaced = record { placed = λ b. refl; wanted = λ b h. absurd (ground (arith, h)) }

-- In every state of an event loop that is reached, whatever the order of the threads is, a bottom half
-- is in one place, once, if it is pending, and in none otherwise: on the list of the loop, on the
-- list that `bh_poll` took off it, or with the thread that is to insert it; and one that is scheduled
-- is pending.
pub Reach-IsPlaced : {l : Loop} → Reach l → IsPlaced l
Reach-IsPlaced begin = new_loop-IsPlaced
Reach-IsPlaced (later r st) = Step-IsPlaced st (Reach-IsPlaced r)
