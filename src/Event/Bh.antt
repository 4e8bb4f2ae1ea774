-- ===== src/Event/Bh.antt =====
-- The bottom halves of an event loop (event.c), under any interleaving of the loop with the threads
-- that schedule them.
use ya_vhost.Prelude.{
  ℕ, ◌≡◌, Bool, true, false, not, ◌&&◌, ◌||◌, List, [], ◌∷◌, ◌++◌, ◌==◌, if◌then◌else◌,
}

-- `BH_PENDING`, `BH_SCHEDULED`, `BH_DELETED` and `BH_ONESHOT`
pub record BhFlags : Type 0 where
  pub pending : Bool
  pub scheduled : Bool
  pub deleted : Bool
  pub oneshot : Bool

-- The bottom halves of a loop, by their numbers: the flags of each, those of `bh_list`, those that
-- `bh_poll` has taken off it and not looked at, those that a thread in `bh_enqueue` has marked and not
-- inserted, and the calls and the frees so far, latest first.
pub record Loop : Type 0 where
  pub flags : ℕ → BhFlags
  pub bh_list : List ℕ
  pub polled : List ℕ
  pub owed : List ℕ
  pub calls : List ℕ
  pub freed : List ℕ

-- The `atomic_fetch_or` of `bh_enqueue`, with what it adds to `BH_PENDING`.
unfoldable pub bh_mark : (new : BhFlags) → BhFlags → BhFlags
bh_mark new f = record {
  pending = true;
  scheduled = f.scheduled || new.scheduled;
  deleted = f.deleted || new.deleted;
  oneshot = f.oneshot || new.oneshot;
}

abbrev pub set_flags : Loop → ℕ → BhFlags → Loop
set_flags l bh f = record l { flags = λ b. if b == bh then f else l.flags b }

-- The first step of `bh_enqueue`: a bottom half that was not pending is then to be inserted.
unfoldable pub bh_enqueue_mark : (new : BhFlags) → ℕ → Loop → Loop
unfolding bh_mark
bh_enqueue_mark new bh l =
    let marked = set_flags l bh (bh_mark new (l.flags bh)) in
    if (l.flags bh).pending then marked else record marked { owed = bh ∷ l.owed }

-- The flags that `vhd_bh_schedule`, `vhd_bh_schedule_oneshot` and `vhd_bh_delete` add.
abbrev pub schedule_flags : BhFlags
schedule_flags = record { pending = true; scheduled = true; deleted = false; oneshot = false }

abbrev pub oneshot_flags : BhFlags
oneshot_flags = record { pending = true; scheduled = true; deleted = false; oneshot = true }

abbrev pub delete_flags : BhFlags
delete_flags = record { pending = true; scheduled = false; deleted = true; oneshot = false }

-- `vhd_bh_cancel`
unfoldable pub bh_cancel : ℕ → Loop → Loop
bh_cancel bh l = set_flags l bh (record (l.flags bh) { scheduled = false })

-- The start of `bh_poll`.
unfoldable pub poll_move : Loop → Loop
poll_move l = record l { polled = l.bh_list; bh_list = [] }

-- `bh_dequeue` for the head of the list.
unfoldable pub bh_dequeue : (bh : ℕ) (rest : List ℕ) → Loop → Loop
bh_dequeue bh rest l =
    record (set_flags l bh (record (l.flags bh) { pending = false; scheduled = false })) {
      polled = rest;
    }

-- A turn of the loop of `bh_poll`, with the flags that `bh_dequeue` returns.
unfoldable pub poll_turn : (bh : ℕ) (rest : List ℕ) → Loop → Loop
unfolding bh_dequeue
poll_turn bh rest l =
    let f = l.flags bh in
    record (bh_dequeue bh rest l) {
      calls = if f.scheduled && not f.deleted then bh ∷ l.calls else l.calls;
      freed = if f.deleted || f.oneshot then bh ∷ l.freed else l.freed;
    }

-- A loop without a bottom half that is pending.
abbrev pub new_loop : Loop
new_loop = record {
  flags = λ b. record { pending = false; scheduled = false; deleted = false; oneshot = false };
  bh_list = [];
  polled = [];
  owed = [];
  calls = [];
  freed = [];
}

pub data Step (l : Loop) : Loop → Type 0 where
  -- A thread is in `vhd_bh_schedule`, `vhd_bh_schedule_oneshot` or `vhd_bh_delete`.
  mark : (new : BhFlags) (bh : ℕ) → Step l (bh_enqueue_mark new bh l)
  -- `SLIST_INSERT_HEAD_ATOMIC` by a thread that has to.
  insert :
      (before after : List ℕ) (bh : ℕ)
      → l.owed ≡ before ++ bh ∷ after
      → Step l (record l { owed = before ++ after; bh_list = bh ∷ l.bh_list })
  cancel : (bh : ℕ) → Step l (bh_cancel bh l)
  -- The loop begins `bh_poll`, when it has come to the end of the list before.
  move : l.polled ≡ [] → Step l (poll_move l)
  turn : (bh : ℕ) (rest : List ℕ) → l.polled ≡ bh ∷ rest → Step l (poll_turn bh rest l)

pub data Reach : Loop → Type 0 where
  begin : Reach new_loop
  later : {l l' : Loop} → Reach l → Step l l' → Reach l'
