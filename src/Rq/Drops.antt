-- ===== src/Rq/Drops.antt =====
-- What `vhd_cancel_queued_requests` (server.c) and `vring_stop_bh` (vdev.c) do to the counters.
use ya_vhost.Prelude.{
  ℕ, ◌+◌, ◌≡◌, refl, sym, subst, ap, ◌∙◌, inl, inr, Bool, true, false, Option, none, some, List, [],
  ◌∷◌, ◌==◌, if◌then◌else◌, u16, arith, Bool-cases, Option-cases,
}
use ya_vhost.Blk.Device.{canceled}
use ya_vhost.Rq.Queue.{
  RqBio, Rq, update, complete_list, keep, cancel, cancel_loop, cancel_queued_requests,
  signal_drained, stop_bh,
}
use ya_vhost.Rq.Complete.{count, complete_list-count, complete_list-queues}
use ya_vhost.Rq.Cancel.{cancel_loop-other, cancel_loop-own}

-- What is taken out of a list of requests.
abbrev pub IsSplit : List RqBio → Option (List RqBio × List RqBio) → Type 0
IsSplit bios none = Unit
IsSplit bios (some (kept, out)) = (w : ℕ) → count w bios ≡ count w kept + count w out

keep-IsSplit :
    (bio : RqBio) (bios : List RqBio) (rest : Option (List RqBio × List RqBio))
    → IsSplit bios rest
    → IsSplit (bio ∷ bios) (keep bio rest)
unfolding count
keep-IsSplit bio bios none h = tt
keep-IsSplit bio bios (some (kept, out)) h = λ w. omega (arith, h w)

cancel-IsSplit :
    (bio : RqBio) (bios : List RqBio) (rest : Option (List RqBio × List RqBio))
    → IsSplit bios rest
    → IsSplit (bio ∷ bios) (cancel (record bio { status = canceled }) rest)
unfolding count
cancel-IsSplit bio bios none h = tt
cancel-IsSplit bio bios (some (kept, out)) h = λ w. omega (arith, h w)

cancel_loop-IsSplit : (v : ℕ) (bios : List RqBio) → IsSplit bios (cancel_loop v bios)
unfolding count cancel_loop
cancel_loop-IsSplit v [] = λ w. refl
cancel_loop-IsSplit v (bio ∷ []) = elim (Bool-cases (bio.vring == v)) [
  | inl t ↦ rw (t, cancel_loop) tt
  | inr t ↦
      rw (cancel_loop-other v bio [] (ground arith))
        (keep-IsSplit bio [] (cancel_loop v []) (λ w. refl))
]
cancel_loop-IsSplit v (bio ∷ next ∷ bios) = elim (Bool-cases (bio.vring == v)) [
  | inl t ↦ rw (cancel_loop-own v bio next bios (ground arith)) (
      cancel-IsSplit bio (next ∷ bios) (keep next (cancel_loop v bios))
        (keep-IsSplit next bios (cancel_loop v bios) (cancel_loop-IsSplit v bios)))
  | inr t ↦ rw (cancel_loop-other v bio (next ∷ bios) (ground arith)) (
      keep-IsSplit bio (next ∷ bios) (cancel_loop v (next ∷ bios))
        (cancel_loop-IsSplit v (next ∷ bios)))
]

-- Requests left the queue of the submitted ones, and were taken out of flight.
pub record Drops (rq rq' : Rq) : Type 0 where
  pub completion : rq'.completion ≡ rq.completion
  pub scheduled : rq'.scheduled ≡ rq.scheduled
  pub counted :
      (w k : ℕ)
      → rq.num_in_flight w ≡ u16 (count w rq.submission + k)
      → rq'.num_in_flight w ≡ u16 (count w rq'.submission + k)

signal_drained-Drops : (rq rq' : Rq) (v : ℕ) → Drops rq rq' → Drops rq (signal_drained rq' v)
unfolding signal_drained
signal_drained-Drops rq rq' v d = elim (Bool-cases (rq'.num_in_flight v == 0)) [
  | inl t ↦
      rw (t, signal_drained)
        (record { completion = d.completion; scheduled = d.scheduled; counted = d.counted })
  | inr t ↦ rw (t, signal_drained) d
]

abbrev pub DropsIf : Rq → Option Rq → Type 0
DropsIf rq none = Unit
DropsIf rq (some rq') = Drops rq rq'

cancel-DropsIf : (rq : Rq) (v : ℕ) → DropsIf rq (cancel_queued_requests rq v)
unfolding cancel_queued_requests
cancel-DropsIf rq v = elim (Option-cases (cancel_loop v rq.submission)) [
  | inl q ↦ rw (q, cancel_queued_requests) tt
  | inr ((kept, out), q) ↦
      let base : Rq = record rq { submission = kept } in
      let split : (w : ℕ) → count w rq.submission ≡ count w kept + count w out =
        subst (IsSplit rq.submission) q (cancel_loop-IsSplit v rq.submission) in
      let same = complete_list-queues base out in
      rw (q, cancel_queued_requests)
        (record {
          completion = same.1;
          scheduled = same.2;
          counted = λ w k h.
              subst (λ l. (complete_list base out).num_in_flight w ≡ u16 (count w l + k))
                (sym same.0)
                (complete_list-count base out w (count w kept + k)
                  (h ∙ ap u16 (omega (arith, split w))));
        })
]

signal-DropsIf :
    (rq : Rq) (v : ℕ) (o : Option Rq)
    → DropsIf rq o
    → DropsIf rq (elim o [ none ↦ none | some r ↦ some (signal_drained r v) ])
signal-DropsIf rq v none h = tt
signal-DropsIf rq v (some r) h = signal_drained-Drops rq r v h

stopped-Drops :
    (rq : Rq) (f : ℕ → Bool) (o : Option Rq)
    → DropsIf (record rq { started_in_rq = f }) o
    → DropsIf rq o
stopped-Drops rq f none h = tt
stopped-Drops rq f (some r) h = record {
  completion = h.completion;
  scheduled = h.scheduled;
  counted = h.counted;
}

pub stop_bh-DropsIf : (rq : Rq) (v : ℕ) (d : Bool) → DropsIf rq (stop_bh rq v d)
unfolding stop_bh
stop_bh-DropsIf rq v d = elim (Bool-cases (rq.started_in_rq v)) [
  | inl t ↦ rw (t, stop_bh) (go d)
  | inr t ↦ rw (t, stop_bh) (record { completion = refl; scheduled = refl; counted = λ w k h. h })
]
  where
    stopped : Rq
    stopped = record rq { started_in_rq = update rq.started_in_rq v false }

    same : Drops rq stopped
    same = record { completion = refl; scheduled = refl; counted = λ w k h. h }

    go :
        (d : Bool)
        → DropsIf rq (
            if d
            then elim (cancel_queued_requests stopped v) [
              | none ↦ none
              | some r ↦ some (signal_drained r v)
            ]
            else some (signal_drained stopped v))
    go true =
        stopped-Drops rq (update rq.started_in_rq v false)
          (elim (cancel_queued_requests stopped v) [
            | none ↦ none
            | some r ↦ some (signal_drained r v)
          ])
          (signal-DropsIf stopped v (cancel_queued_requests stopped v) (cancel-DropsIf stopped v))
    go false = signal_drained-Drops rq stopped v same
