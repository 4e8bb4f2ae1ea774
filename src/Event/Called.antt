-- ===== src/Event/Called.antt =====
-- No bottom half of an event loop (event.c) that is scheduled is lost.
use ya_vhost.Prelude.{
  times, ℕ, suc, ◌+◌, ◌≡◌, ◌<◌, ◌≢◌, refl, sym, ap, ◌∙◌, inl, inr, true, false, List, [], ◌∷◌, ◌++◌,
  ◌==◌, ltb, arith, Bool-cases,
}
use ya_vhost.Event.Bh.{Loop, poll_move, bh_dequeue, poll_turn, Reach}
use ya_vhost.Event.Pending.{Reach-IsPlaced}

-- A step of the loop in `bh_poll`, or the insertion of the bottom half by the thread that is to do it.
-- None of them schedules or deletes a bottom half.
pub data Own (b : ℕ) (l : Loop) : Loop → Type 0 where
  insert :
      (before after : List ℕ)
      → l.owed ≡ before ++ b ∷ after
      → Own b l (record l { owed = before ++ after; bh_list = b ∷ l.bh_list })
  move : l.polled ≡ [] → Own b l (poll_move l)
  turn : (bh : ℕ) (rest : List ℕ) → l.polled ≡ bh ∷ rest → Own b l (poll_turn bh rest l)

pub data Steps (b : ℕ) (l : Loop) : Loop → Type 0 where
  stay : Steps b l l
  more : {k m : Loop} → Steps b l k → Own b k m → Steps b l m

-- The bottom half is to be called.
pub record IsWanted (b : ℕ) (l : Loop) : Type 0 where
  pub scheduled : (l.flags b).scheduled ≡ true
  pub kept : (l.flags b).deleted ≡ false

-- The bottom half is called once more than in `l`.
pub record IsCalled (b : ℕ) (l l' : Loop) : Type 0 where
  pub steps : Steps b l l'
  pub called : times b l'.calls ≡ suc (times b l.calls)

Steps-append : {b : ℕ} {l k m : Loop} → Steps b l k → Steps b k m → Steps b l m
Steps-append first stay = first
Steps-append first (more rest last) = more (Steps-append first rest) last

-- A turn for another bottom half.
turn-IsWanted :
    (b bh : ℕ) (rest : List ℕ) (l : Loop)
    → b ≢ bh
    → IsWanted b l
    → IsWanted b (poll_turn bh rest l) × (times b (poll_turn bh rest l).calls ≡ times b l.calls)
unfolding poll_turn bh_dequeue times
turn-IsWanted b bh rest l ne w =
    let other : (b == bh) ≡ false = ground arith in
    (
      record { scheduled = ground (arith, w.scheduled); kept = ground (arith, w.kept) },
      ground arith,
    )

turn-IsCalled :
    (b : ℕ) (rest : List ℕ) (l : Loop)
    → IsWanted b l
    → times b (poll_turn b rest l).calls ≡ suc (times b l.calls)
unfolding poll_turn bh_dequeue times
turn-IsCalled b rest l w = ground (arith, w.scheduled, w.kept)

Steps-IsCalled :
    {b : ℕ} {l k : Loop}
    → Steps b l k
    → times b k.calls ≡ times b l.calls
    → (l' : Loop) × IsCalled b k l'
    → (l' : Loop) × IsCalled b l l'
Steps-IsCalled first same (l', h) =
    (l', record { steps = Steps-append first h.steps; called = h.called ∙ ap suc same })

-- `bh_poll` comes to a bottom half that is on its list.
polled-IsCalled :
    (b : ℕ) (list : List ℕ) (l : Loop)
    → l.polled ≡ list
    → 0 < times b list
    → IsWanted b l
    → (l' : Loop) × IsCalled b l l'
unfolding times poll_turn bh_dequeue
polled-IsCalled b [] l e pos w = absurd (omega arith)
polled-IsCalled b (x ∷ rest) l e pos w = elim (Bool-cases (b == x)) [
  | inl t ↦
      let here : b ≡ x = ground arith in
      let mine = e ∙ ap (λ y. y ∷ rest) (sym here) in
      (
        poll_turn b rest l,
        record { steps = more stay (turn b rest mine); called = turn-IsCalled b rest l w },
      )
  | inr t ↦
      let next = poll_turn x rest l in
      let (w', same) = turn-IsWanted b x rest l (ground arith) w in
      Steps-IsCalled (more stay (turn x rest e)) same
        (polled-IsCalled b rest next refl (ground (arith, pos)) w')
]

-- `bh_poll` comes to the end of a list without the bottom half, and then takes the next list.
listed-IsCalled :
    (b : ℕ) (list : List ℕ) (l : Loop)
    → l.polled ≡ list
    → 0 < times b l.bh_list
    → IsWanted b l
    → (l' : Loop) × IsCalled b l l'
unfolding times poll_turn bh_dequeue poll_move
listed-IsCalled b [] l e pos w = Steps-IsCalled (more stay (move e)) refl (
    polled-IsCalled b l.bh_list (poll_move l) refl pos
      (record { scheduled = w.scheduled; kept = w.kept }))
listed-IsCalled b (x ∷ rest) l e pos w = elim (Bool-cases (b == x)) [
  | inl t ↦ polled-IsCalled b (x ∷ rest) l e (ground arith) w
  | inr t ↦
      let (w', same) = turn-IsWanted b x rest l (ground arith) w in
      Steps-IsCalled (more stay (turn x rest e)) same
        (listed-IsCalled b rest (poll_turn x rest l) refl pos w')
]

-- Where a number is in a list.
record IsAt (b : ℕ) (xs : List ℕ) : Type 0 where
  before : List ℕ
  after : List ℕ
  split : xs ≡ before ++ b ∷ after

times-IsAt : (b : ℕ) (xs : List ℕ) → 0 < times b xs → IsAt b xs
unfolding times
times-IsAt b [] pos = absurd (omega arith)
times-IsAt b (x ∷ xs) pos = elim (Bool-cases (b == x)) [
  | inl t ↦
      let here : x ≡ b = ground arith in
      record { before = []; after = xs; split = ap (λ y. y ∷ xs) here }
  | inr t ↦
      let at = times-IsAt b xs (ground (arith, pos)) in
      record { before = x ∷ at.before; after = at.after; split = ap (λ ys. x ∷ ys) at.split }
]

-- From every state of an event loop that is reached in which a bottom half is scheduled and not
-- deleted, it is called once more by steps of `bh_poll` and, where a thread has marked it and not
-- inserted it, its insertion alone: no step schedules or deletes a bottom half.
pub scheduled-IsCalled : (l : Loop) (b : ℕ) → Reach l → IsWanted b l → (l' : Loop) × IsCalled b l l'
unfolding times
scheduled-IsCalled l b r w =
    let inv = Reach-IsPlaced r in
    let pending = inv.wanted b w.scheduled in
    let placed = inv.placed b in
    elim (Bool-cases (ltb 0 (times b l.bh_list + times b l.polled))) [
      | inl t ↦ elim (Bool-cases (ltb 0 (times b l.bh_list))) [
        | inl u ↦ listed-IsCalled b l.polled l refl (ground arith) w
        | inr u ↦ polled-IsCalled b l.polled l refl (ground arith) w
      ]
      | inr t ↦
          let at = times-IsAt b l.owed (ground (arith, placed, pending)) in
          let inserted : Loop = record l {
            owed = at.before ++ at.after;
            bh_list = b ∷ l.bh_list;
          } in
          Steps-IsCalled (more stay (insert at.before at.after at.split)) refl (
            listed-IsCalled b l.polled inserted refl (ground arith)
              (record { scheduled = w.scheduled; kept = w.kept }))
    ]
