-- ===== src/Rq/Stop.antt =====
-- How often `vring_stop_bh` (vdev.c) signals that a vring is drained.
use ya_vhost.Prelude.{
  ℕ, suc, ◌+◌, ◌^◌, ◌<◌, ◌≤◌, ◌≡◌, refl, subst, ap, ◌∙◌, true, false, some, List, [], ◌∷◌, ◌++◌,
  ◌==◌, if◌then◌else◌, sub_u16, arith, All, Bool-cases, inl, inr, ltb, ◌&&◌, length, replicate,
}
use ya_vhost.Rq.Queue.{
  RqBio, Rq, update, dec_in_flight, req_complete, complete_list, signal_drained, stop_bh,
}
use ya_vhost.Rq.Complete.{count}
use ya_vhost.Rq.Cancel.{IsSparse, others, canceled_of, cancel_queued_requests-sparse}

canceled_of-own : (v : ℕ) (bios : List RqBio) → All (λ b. b.vring ≡ v) (canceled_of v bios)
unfolding canceled_of
canceled_of-own v [] = tt
canceled_of-own v (bio ∷ bios) = elim (Bool-cases (bio.vring == v)) [
  | inl t ↦ rw t (ground arith, canceled_of-own v bios)
  | inr t ↦ rw t (canceled_of-own v bios)
]

length-canceled_of : (v : ℕ) (bios : List RqBio) → length (canceled_of v bios) ≡ count v bios
unfolding canceled_of count
length-canceled_of v [] = refl
length-canceled_of v (bio ∷ bios) = ground (arith, length-canceled_of v bios)

-- The completions of requests of one vring that was stopped signal once, with the last request in
-- flight.
record IsDrained (rq : Rq) (v n : ℕ) (rq' : Rq) : Type 0 where
  drained :
      rq'.drained ≡ (if ltb 0 n && (rq.num_in_flight v == n) then v ∷ rq.drained else rq.drained)
  left : rq'.num_in_flight v + n ≡ rq.num_in_flight v

req_complete-own :
    (rq : Rq) (bio : RqBio) (v : ℕ)
    → bio.vring ≡ v
    → rq.started_in_rq v ≡ false
    → 0 < rq.num_in_flight v
    → rq.num_in_flight v < 2 ^ 16
    → ((req_complete rq bio).num_in_flight v + 1 ≡ rq.num_in_flight v)
      × ((req_complete rq bio).drained
          ≡ (if rq.num_in_flight v == 1 then v ∷ rq.drained else rq.drained))
unfolding req_complete dec_in_flight
req_complete-own rq bio v e stopped pos small =
    let same : (sub_u16 (rq.num_in_flight v) 1 == 0) ≡ (rq.num_in_flight v == 1) = ground arith in
    rw e (ground arith, rw (stopped, same) (ground arith))

req_complete-stopped :
    (rq : Rq) (bio : RqBio) (v : ℕ)
    → rq.started_in_rq v ≡ false
    → (req_complete rq bio).started_in_rq v ≡ false
unfolding req_complete dec_in_flight
req_complete-stopped rq bio v e = e

-- The signal of the first completion and that of the others are the one signal of all of them.
signal_once :
    (n left len v : ℕ) (before after : List ℕ)
    → left + 1 ≡ n
    → suc len ≤ n
    → after ≡ (if n == 1 then v ∷ before else before)
    → (if ltb 0 len && (left == len) then v ∷ after else after)
      ≡ (if ltb 0 (suc len) && (n == suc len) then v ∷ before else before)
signal_once n left len v before after e le q = elim (Bool-cases (n == 1)) [
  | inl t ↦ ground (arith, q)
  | inr t ↦ ground (arith, q)
]

complete_list-IsDrained :
    (rq : Rq) (bios : List RqBio) (v : ℕ)
    → All (λ b. b.vring ≡ v) bios
    → rq.started_in_rq v ≡ false
    → length bios ≤ rq.num_in_flight v
    → rq.num_in_flight v < 2 ^ 16
    → IsDrained rq v (length bios) (complete_list rq bios)
unfolding complete_list
complete_list-IsDrained rq [] v own stopped le small = record { drained = refl; left = omega arith }
complete_list-IsDrained rq (bio ∷ bios) v own stopped le small =
    let after = req_complete rq bio in
    let one = req_complete-own rq bio v own.0 stopped (omega arith) small in
    let ih =
      complete_list-IsDrained after bios v own.1 (req_complete-stopped rq bio v stopped)
        (omega arith) (omega arith) in
    let sum = ih.left in
    record {
      drained =
          ih.drained
          ∙ signal_once (rq.num_in_flight v) (after.num_in_flight v) (length bios) v rq.drained
              after.drained one.0 le one.1;
      left = omega arith;
    }

-- The signals that the control loop gets, in the order of the branches: none while a request is in
-- flight that is not queued; one if nothing was in flight; and two if all that was in flight was
-- canceled, one from the last completion and one from `vring_stop_bh` itself.
abbrev pub signals : (in_flight queued : ℕ) → ℕ
signals in_flight queued = if in_flight == queued then (if queued == 0 then 1 else 2) else 0

signal_drained-signals :
    (rq : Rq) (v k n : ℕ) (before : List ℕ)
    → rq.drained ≡ (if ltb 0 n && (k == n) then v ∷ before else before)
    → rq.num_in_flight v + n ≡ k
    → (signal_drained rq v).drained ≡ replicate (signals k n) v ++ before
unfolding signal_drained
signal_drained-signals rq v k n before e sum = elim (Bool-cases (k == n)) [
  | inl t ↦
      let last : (rq.num_in_flight v == 0) ≡ true = ground arith in
      elim (Bool-cases (n == 0)) [
        | inl z ↦
            let none_before : rq.drained ≡ before = ground (arith, e) in
            rw (last, t, z, signal_drained) (ap (λ d. v ∷ d) none_before)
        | inr z ↦
            let one_before : rq.drained ≡ v ∷ before = ground (arith, e) in
            rw (last, t, z, signal_drained) (ap (λ d. v ∷ d) one_before)
      ]
  | inr t ↦
      let more : (rq.num_in_flight v == 0) ≡ false = ground arith in
      let none_before : rq.drained ≡ before = ground (arith, e) in
      rw (more, t, signal_drained) none_before
]

-- `vring_stop_bh` on a disconnecting vring signals that the vring is drained once if none of its
-- requests is in flight, never while one is that is not queued, and twice if some are and all of
-- them are queued, where `vring_mark_drained` asserts that it is called once. Behind every request
-- of the vring there is one of another vring, the queued ones are in flight, and their number is
-- in the range of its type.
pub stop_bh-signals :
    (rq : Rq) (v : ℕ)
    → rq.started_in_rq v ≡ true
    → IsSparse v rq.submission
    → count v rq.submission ≤ rq.num_in_flight v
    → rq.num_in_flight v < 2 ^ 16
    → (rq' : Rq) × (stop_bh rq v true ≡ some rq')
      × (rq'.drained
          ≡ replicate (signals (rq.num_in_flight v) (count v rq.submission)) v ++ rq.drained)
unfolding stop_bh
stop_bh-signals rq v started sparse queued small =
    let base : Rq = record rq {
      started_in_rq = update rq.started_in_rq v false;
      submission = others v rq.submission;
    } in
    let out = canceled_of v rq.submission in
    let number : length out ≡ count v rq.submission = length-canceled_of v rq.submission in
    let d =
      complete_list-IsDrained base out v (canceled_of-own v rq.submission) (ground arith)
        (omega arith) small in
    (
      signal_drained (complete_list base out) v,
      rw
          (
            started,
            cancel_queued_requests-sparse
                (record rq { started_in_rq = update rq.started_in_rq v false }) v sparse,
            stop_bh,
          )
          refl,
      subst
          (λ n.
            (signal_drained (complete_list base out) v).drained
            ≡ replicate (signals (rq.num_in_flight v) n) v ++ rq.drained)
          number
          (signal_drained-signals (complete_list base out) v (rq.num_in_flight v) (length out)
            rq.drained d.drained d.left),
    )
