-- ===== src/Rq/Progress.antt =====
-- No completion is lost: what `vhd_complete_bio` inserted, `rq_complete_bh` (server.c) completes.
use ya_vhost.Prelude.{
  ◌≡◌, refl, sym, ap, ap₂, ◌-◌, ◌∙◌, ◌⊎◌, inl, inr, true, false, List, [], ◌∷◌, ◌++◌, arith,
  List-cases,
}
use ya_vhost.Rq.Queue.{RqBio, req_complete, move_heads, complete_list}
use ya_vhost.Rq.Complete.{complete_list-completed, complete_list-queues, move_heads-move_heads}
use ya_vhost.Rq.System.{
  Phase, idle, called, completing, System, Step, schedule, call, steal, complete, return, Reach,
  later,
}
use ya_vhost.Rq.Invariant.{IsAttended, Reach-Inv}

pub data Steps (s : System) : System → Type 0 where
  stay : Steps s s
  more : {t u : System} → Steps s t → Step t u → Steps s u

go : {s t u : System} → Step s t → Steps t u → Steps s u
go first stay = more stay first
go first (more rest last) = more (go first rest) last

Steps-append : {s t u : System} → Steps s t → Steps t u → Steps s u
Steps-append before stay = before
Steps-append before (more rest last) = more (Steps-append before rest) last

Steps-Reach : {s t : System} → Reach s → Steps s t → Reach t
Steps-Reach r stay = r
Steps-Reach r (more rest last) = later (Steps-Reach r rest) last

-- What the loop has left to complete.
abbrev pub left : Phase → List RqBio
left idle = []
left called = []
left (completing bios) = bios

-- Later, everything that was inserted is completed in the order of the insertions.
pub record IsSettled (s t : System) : Type 0 where
  pub steps : Steps s t
  pub idle_again : t.phase ≡ idle
  pub empty : t.rq.completion ≡ []
  pub completed : t.rq.completed ≡ s.rq.completion ++ move_heads (left s.phase) s.rq.completed

Phase-cases :
    (p : Phase) → (p ≡ idle) ⊎ ((p ≡ called) ⊎ ((bios : List RqBio) × (p ≡ completing bios)))
Phase-cases idle = inl refl
Phase-cases called = inr (inl refl)
Phase-cases (completing bios) = inr (inr (bios, refl))

-- The second loop of `rq_complete_bh` comes to its end.
complete-Steps :
    (s : System) (bios : List RqBio)
    → s.phase ≡ completing bios
    → Steps s (record s { rq = complete_list s.rq bios; phase = idle })
unfolding complete_list
complete-Steps s [] e = go (return e) stay
complete-Steps s (bio ∷ bios) e =
    go (complete bio bios e)
      (complete-Steps (record s { rq = req_complete s.rq bio; phase = completing bios }) bios refl)

called-IsSettled : (s : System) → s.phase ≡ called → (t : System) × IsSettled s t
unfolding move_heads
called-IsSettled s e =
    let bios = move_heads s.rq.completion [] in
    let stolen : System = record s {
      rq = record s.rq { completion = [] };
      phase = completing bios;
    } in
    let same = complete_list-queues stolen.rq bios in
    (
      record stolen { rq = complete_list stolen.rq bios; phase = idle },
      record {
        steps = go (steal e) (complete-Steps stolen bios refl);
        idle_again = refl;
        empty = same.1;
        completed =
            complete_list-completed stolen.rq bios
            ∙ (move_heads-move_heads s.rq.completion [] s.rq.completed
                ∙ ap (λ p. s.rq.completion ++ move_heads (left p) s.rq.completed) (sym e));
      },
    )

-- Between two calls nothing is left of the first.
from_idle :
    (s t u : System)
    → s.phase ≡ idle
    → Steps s t
    → t.rq.completion ≡ s.rq.completion
    → t.rq.completed ≡ s.rq.completed
    → left t.phase ≡ []
    → IsSettled t u
    → IsSettled s u
from_idle s t u e first waiting done nothing h = record {
  steps = Steps-append first h.steps;
  idle_again = h.idle_again;
  empty = h.empty;
  completed =
      h.completed
      ∙ (ap (λ l. t.rq.completion ++ move_heads l t.rq.completed) nothing
          ∙ (ap₂ (λ l d. l ++ move_heads [] d) waiting done
              ∙ ap (λ p. s.rq.completion ++ move_heads (left p) s.rq.completed) (sym e)));
}

scheduled-IsSettled :
    (s : System) → s.phase ≡ idle → s.rq.scheduled ≡ true → (t : System) × IsSettled s t
scheduled-IsSettled s e b =
    let next : System = record s { rq = record s.rq { scheduled = false }; phase = called } in
    let (t, h) = called-IsSettled next refl in
    (t, from_idle s next t e (more stay (call b e)) refl refl refl h)

attended-IsSettled : (s : System) → s.phase ≡ idle → IsAttended s → (t : System) × IsSettled s t
attended-IsSettled s e (inl b) = scheduled-IsSettled s e b
attended-IsSettled s e (inr (inl lt)) =
    let next : System = record s { rq = record s.rq { scheduled = true }; owed = s.owed - 1 } in
    let (t, h) = scheduled-IsSettled next e refl in
    (t, from_idle s next t e (more stay (schedule (omega arith))) refl refl (ap left e) h)
attended-IsSettled s e (inr (inr c)) = called-IsSettled s c

idle-IsSettled : (s : System) → Reach s → s.phase ≡ idle → (t : System) × IsSettled s t
unfolding move_heads
idle-IsSettled s r e = elim (List-cases s.rq.completion) [
  | inl q ↦ (s, record { steps = stay; idle_again = e; empty = q; completed = same q })
  | inr (bio, bios, q) ↦ attended-IsSettled s e ((Reach-Inv r).attended (λ z. ground (arith, z, q)))
]
  where
    same :
        s.rq.completion ≡ []
        → s.rq.completed ≡ s.rq.completion ++ move_heads (left s.phase) s.rq.completed
    same q =
        ap (λ p. move_heads (left p) s.rq.completed) {x = idle} {y = s.phase} (sym e)
        ∙ ap (λ l. l ++ move_heads (left s.phase) s.rq.completed) {x = []} (sym q)

-- From every state that is reached the loop and the threads in `vhd_complete_bio` have steps after
-- which the loop is out of `rq_complete_bh`, no completion waits, and everything that waited was
-- completed, in the order in which it was inserted, behind what the loop had left to complete.
pub completions-IsSettled : (s : System) → Reach s → (t : System) × IsSettled s t
unfolding move_heads
completions-IsSettled s r = elim (Phase-cases s.phase) [
  | inl e ↦ idle-IsSettled s r e
  | inr (inl e) ↦ called-IsSettled s e
  | inr (inr (bios, e)) ↦
      let next : System = record s { rq = complete_list s.rq bios; phase = idle } in
      let first = complete-Steps s bios e in
      let (t, h) = idle-IsSettled next (Steps-Reach r first) refl in
      let same = complete_list-queues s.rq bios in
      (
        t,
        record {
          steps = Steps-append first h.steps;
          idle_again = h.idle_again;
          empty = h.empty;
          completed =
              h.completed
              ∙ (ap₂ (λ l d. l ++ move_heads [] d) same.1 (complete_list-completed s.rq bios)
                  ∙ ap (λ p. s.rq.completion ++ move_heads (left p) s.rq.completed) (sym e));
        },
      )
]
