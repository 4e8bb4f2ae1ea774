-- ===== src/Rq/Invariant.antt =====
-- What holds in every state of the request queue (server.c) that is reached.
use ya_vhost.Prelude.{
  ℕ, suc, ◌+◌, ◌<◌, ◌≡◌, ◌≢◌, refl, sym, subst, ap, ◌∙◌, ◌⊎◌, inl, inr, Bool, true, false, Option,
  none, some, List, [], ◌∷◌, ◌++◌, if◌then◌else◌, u16, arith, List-cases,
}
use ya_vhost.Rq.Queue.{
  RqBio, Rq, inc_in_flight, dec_in_flight, req_complete, move_heads, dequeue_request,
  enqueue_block_request, complete_insert,
}
use ya_vhost.Rq.Complete.{count, count-append, count-move_heads, req_complete-count}
use mathlib.Core.Option.{some-injective}
use ya_vhost.Blk.Device.{IoResult}
use ya_vhost.Rq.Drops.{Drops, DropsIf, stop_bh-DropsIf}
use ya_vhost.Rq.System.{
  Phase, idle, called, completing, System, init, Step, start, stop, enqueue, dequeue, insert,
  schedule, call, steal, complete, return, Reach, begin, later,
}

-- The requests of a vring that the loop has left to complete.
abbrev pub count_phase : (vring : ℕ) → Phase → ℕ
count_phase v idle = 0
count_phase v called = 0
count_phase v (completing bios) = count v bios

-- Where a request of a vring can be: it is queued, with the backend, or completed by it and waiting.
abbrev pub outstanding : (vring : ℕ) → System → ℕ
outstanding v s =
    count v s.rq.submission
    + (count v s.backend + (count v s.rq.completion + count_phase v s.phase))

-- Someone is going to empty the list of completions.
abbrev pub IsAttended : System → Type 0
IsAttended s = (s.rq.scheduled ≡ true) ⊎ ((0 < s.owed) ⊎ (s.phase ≡ called))

pub record Inv (s : System) : Type 0 where
  pub counted : (v : ℕ) → s.rq.num_in_flight v ≡ u16 (outstanding v s)
  pub attended : s.rq.completion ≢ [] → IsAttended s

Inv-init : Inv init
unfolding count
Inv-init = record { counted = λ v. refl; attended = λ h. absurd (h refl) }

-- What keeps the completions attended.
keep-IsAttended :
    (s t : System)
    → (s.rq.scheduled ≡ true → t.rq.scheduled ≡ true)
    → s.owed ≡ t.owed
    → (s.phase ≡ called → t.phase ≡ called)
    → IsAttended s
    → IsAttended t
keep-IsAttended s t f e g (inl a) = inl (f a)
keep-IsAttended s t f e g (inr (inl a)) = inr (inl (omega arith))
keep-IsAttended s t f e g (inr (inr a)) = inr (inr (g a))

completing-called :
    {p : Phase} {bios : List RqBio} {P : Type 0} → p ≡ completing bios → p ≡ called → P
completing-called e q = absurd (ground (arith, e, q))

insert-attended :
    (c : List RqBio) (b : Bool) (n : ℕ) (p : Phase)
    → (c ≢ [] → (b ≡ true) ⊎ ((0 < n) ⊎ (p ≡ called)))
    → (b ≡ true)
      ⊎ ((0 < (if (elim c [ [] ↦ true | _ ∷ _ ↦ false ]) then suc n else n)) ⊎ (p ≡ called))
insert-attended [] b n p h = inr (inl (omega arith))
insert-attended (x ∷ xs) b n p h = h (λ e. ground (arith, e))

dequeue_request-some :
    (rq rq' : Rq) (bio : RqBio)
    → dequeue_request rq ≡ (some bio, rq')
    → (rest : List RqBio) × (rq.submission ≡ bio ∷ rest) × (record rq { submission = rest } ≡ rq')
unfolding dequeue_request
dequeue_request-some rq rq' bio e = elim (List-cases rq.submission) [
  | inl q ↦ absurd (ground (arith, e, q))
  | inr (b, bs, q) ↦
      let taken : Option RqBio × Rq = (some b, record rq { submission = bs }) in
      let given : Option RqBio × Rq = (some bio, rq') in
      let same : taken ≡ given =
        sym (
          ap
            (λ l. elim l as (λ x. Option RqBio × Rq) [
              | [] ↦ (none, rq)
              | x ∷ xs ↦ (some x, record rq { submission = xs })
            ])
            q)
        ∙ e in
      (bs, q ∙ ap (λ x. x ∷ bs) (some-injective b bio (ap (λ r. r.0) same)), ap (λ r. r.1) same)
]

-- A stop, whose requests leave the queue and are taken out of flight.
stop-Inv : {s : System} (rq : Rq) → Drops s.rq rq → Inv s → Inv (record s { rq = rq })
stop-Inv {s} rq d inv = record {
  counted = λ v.
      d.counted v (count v s.backend + (count v s.rq.completion + count_phase v s.phase))
        (inv.counted v)
      ∙ ap
          (λ l.
            u16 (count v rq.submission + (count v s.backend + (count v l + count_phase v s.phase))))
          (sym d.completion);
  attended = λ h.
      keep-IsAttended s (record s { rq = rq }) (λ e. d.scheduled ∙ e) refl (λ q. q)
        (inv.attended (λ e. h (d.completion ∙ e)));
}

enqueue-Inv :
    {s : System} (bio : RqBio) → Inv s → Inv (record s { rq = enqueue_block_request s.rq bio })
unfolding enqueue_block_request inc_in_flight count
enqueue-Inv {s} bio inv = record {
  counted = λ v. ground (arith, inv.counted v, count-append v s.rq.submission (bio ∷ []));
  attended = inv.attended;
}

dequeue-Inv :
    {s : System} (bio : RqBio) {rq : Rq}
    → dequeue_request s.rq ≡ (some bio, rq)
    → Inv s
    → Inv (record s { rq = rq; backend = bio ∷ s.backend })
unfolding dequeue_request count
dequeue-Inv {s} bio {rq} e inv =
    let (rest, q, same) = dequeue_request-some s.rq rq bio e in
    subst (λ r. Inv (record s { rq = r; backend = bio ∷ s.backend })) same
      (record {
        counted = λ v. ground (arith, inv.counted v, ap (count v) q);
        attended = inv.attended;
      })

insert-Inv :
    {s : System} (before after : List RqBio) (bio : RqBio) (status : IoResult)
    → s.backend ≡ before ++ bio ∷ after
    → Inv s
    → Inv (record s {
      rq = (complete_insert s.rq bio status).1;
      backend = before ++ after;
      owed = if (complete_insert s.rq bio status).0 then suc s.owed else s.owed;
    })
unfolding complete_insert count
insert-Inv {s} before after bio status e inv = record {
  counted = λ v. ground (
    arith,
    inv.counted v,
    ap (count v) e,
    count-append v before (bio ∷ after),
    count-append v before after,
  );
  attended = λ h. insert-attended s.rq.completion s.rq.scheduled s.owed s.phase inv.attended;
}

call-Inv :
    {s : System}
    → s.phase ≡ idle
    → Inv s
    → Inv (record s { rq = record s.rq { scheduled = false }; phase = called })
call-Inv {s} p inv = record {
  counted = λ v. ground (arith, inv.counted v, ap (count_phase v) p);
  attended = λ h. inr (inr refl);
}

steal-Inv :
    {s : System}
    → s.phase ≡ called
    → Inv s
    → Inv (record s {
      rq = record s.rq { completion = [] };
      phase = completing (move_heads s.rq.completion []);
    })
unfolding count
steal-Inv {s} p inv = record {
  counted = λ v.
      ground (arith, inv.counted v, ap (count_phase v) p, count-move_heads v s.rq.completion []);
  attended = λ h. absurd (h refl);
}

complete-Inv :
    {s : System} (bio : RqBio) (bios : List RqBio)
    → s.phase ≡ completing (bio ∷ bios)
    → Inv s
    → Inv (record s { rq = req_complete s.rq bio; phase = completing bios })
unfolding req_complete dec_in_flight count
complete-Inv {s} bio bios p inv = record {
  counted = λ v.
      req_complete-count s.rq bio v
        (count v s.rq.submission + (count v s.backend + (count v s.rq.completion + count v bios)))
        (ground (arith, inv.counted v, ap (count_phase v) p));
  attended = λ h.
      keep-IsAttended s (record s { rq = req_complete s.rq bio; phase = completing bios }) (λ e. e)
        refl (completing-called p) (inv.attended h);
}

return-Inv : {s : System} → s.phase ≡ completing [] → Inv s → Inv (record s { phase = idle })
unfolding count
return-Inv {s} p inv = record {
  counted = λ v. ground (arith, inv.counted v, ap (count_phase v) p);
  attended = λ h.
      keep-IsAttended s (record s { phase = idle }) (λ e. e) refl (completing-called p)
        (inv.attended h);
}

pub Step-Inv : {s t : System} → Step s t → Inv s → Inv t
Step-Inv (start v) inv = record { counted = inv.counted; attended = inv.attended }
Step-Inv {s} (stop v d {rq} e) inv =
    stop-Inv rq (subst (DropsIf s.rq) e (stop_bh-DropsIf s.rq v d)) inv
Step-Inv (enqueue bio) inv = enqueue-Inv bio inv
Step-Inv (dequeue bio e) inv = dequeue-Inv bio e inv
Step-Inv (insert before after bio status e) inv = insert-Inv before after bio status e inv
Step-Inv (schedule e) inv = record { counted = inv.counted; attended = λ h. inl refl }
Step-Inv (call e p) inv = call-Inv p inv
Step-Inv (steal p) inv = steal-Inv p inv
Step-Inv (complete bio bios p) inv = complete-Inv bio bios p inv
Step-Inv (return p) inv = return-Inv p inv

pub Reach-Inv : {s : System} → Reach s → Inv s
Reach-Inv begin = Inv-init
Reach-Inv (later r st) = Step-Inv st (Reach-Inv r)

-- `num_in_flight` of a vring is, in every state that is reached, the number of its requests that are
-- queued, with the backend, or waiting for their completion, modulo 2^16.
pub num_in_flight-outstanding :
    {s : System} → Reach s → (v : ℕ) → s.rq.num_in_flight v ≡ u16 (outstanding v s)
num_in_flight-outstanding r v = (Reach-Inv r).counted v
