-- ===== src/Rq/Cancel.antt =====
-- What `vhd_cancel_queued_requests` (server.c) cancels, and what `vring_stop_bh` (vdev.c) signals.
use ya_vhost.Prelude.{
  ℕ, ◌≡◌, ◌≢◌, refl, ap, ◌∙◌, true, false, none, some, List, [], ◌∷◌, ◌++◌, ◌==◌, if◌then◌else◌,
  arith, All, Bool-cases, inl, inr,
}
use ya_vhost.Blk.Device.{canceled}
use ya_vhost.Rq.Queue.{RqBio, Rq, keep, cancel, complete_list, cancel_loop, cancel_queued_requests}

-- The requests of a list that are not of the vring, and those that are, as canceled.
unfoldable pub others : (vring : ℕ) → List RqBio → List RqBio
others v [] = []
others v (bio ∷ bios) = if bio.vring == v then others v bios else bio ∷ others v bios

unfoldable pub canceled_of : (vring : ℕ) → List RqBio → List RqBio
canceled_of v [] = []
canceled_of v (bio ∷ bios) =
    if bio.vring == v
    then record bio { status = canceled } ∷ canceled_of v bios
    else canceled_of v bios

-- Behind every request of the vring there is one of another vring.
abbrev pub IsSparse : (vring : ℕ) → List RqBio → Type 0
IsSparse v [] = Unit
IsSparse v (bio ∷ []) = bio.vring ≢ v
IsSparse v (bio ∷ next ∷ bios) = (bio.vring ≡ v → next.vring ≢ v) × IsSparse v (next ∷ bios)

-- A turn of the loop at a request of another vring, and at one of the vring.
pub cancel_loop-other :
    (v : ℕ) (bio : RqBio) (bios : List RqBio)
    → bio.vring ≢ v
    → cancel_loop v (bio ∷ bios) ≡ keep bio (cancel_loop v bios)
unfolding cancel_loop
cancel_loop-other v bio [] h = ground arith
cancel_loop-other v bio (next ∷ bios) h =
    let t : (bio.vring == v) ≡ false = ground arith in rw (t, cancel_loop) refl

pub cancel_loop-own :
    (v : ℕ) (bio next : RqBio) (bios : List RqBio)
    → bio.vring ≡ v
    → cancel_loop v (bio ∷ next ∷ bios)
      ≡ cancel (record bio { status = canceled }) (keep next (cancel_loop v bios))
unfolding cancel_loop
cancel_loop-own v bio next bios h =
    let t : (bio.vring == v) ≡ true = ground arith in rw (t, cancel_loop) refl

split_other :
    (v : ℕ) (bio : RqBio) (bios : List RqBio)
    → bio.vring ≢ v
    → (others v (bio ∷ bios) ≡ bio ∷ others v bios)
      × (canceled_of v (bio ∷ bios) ≡ canceled_of v bios)
unfolding others canceled_of
split_other v bio bios h = let t : (bio.vring == v) ≡ false = ground arith in rw t (refl, refl)

split_own :
    (v : ℕ) (bio : RqBio) (bios : List RqBio)
    → bio.vring ≡ v
    → (others v (bio ∷ bios) ≡ others v bios)
      × (canceled_of v (bio ∷ bios) ≡ record bio { status = canceled } ∷ canceled_of v bios)
unfolding others canceled_of
split_own v bio bios h = let t : (bio.vring == v) ≡ true = ground arith in rw t (refl, refl)

IsSparse-tail :
    (v : ℕ) (bio : RqBio) (bios : List RqBio) → IsSparse v (bio ∷ bios) → IsSparse v bios
IsSparse-tail v bio [] h = tt
IsSparse-tail v bio (next ∷ bios) h = h.1

cancel_loop-sparse :
    (v : ℕ) (bios : List RqBio)
    → IsSparse v bios
    → cancel_loop v bios ≡ some (others v bios, canceled_of v bios)
unfolding cancel_loop others canceled_of
cancel_loop-sparse v [] h = refl
cancel_loop-sparse v (bio ∷ []) h =
    let (stay, out) = split_other v bio [] h in rw (cancel_loop-other v bio [] h, stay, out) refl
cancel_loop-sparse v (bio ∷ next ∷ bios) h = elim (Bool-cases (bio.vring == v)) [
  | inl t ↦
      let own : bio.vring ≡ v = ground arith in
      let (stay, out) = split_own v bio (next ∷ bios) own in
      let (next_stay, next_out) = split_other v next bios (h.0 own) in
      rw
        (
          cancel_loop-own v bio next bios own,
          cancel_loop-sparse v bios (IsSparse-tail v next bios h.1),
          stay,
          out,
          next_stay,
          next_out,
        )
        refl
  | inr t ↦
      let other : bio.vring ≢ v = ground arith in
      let (stay, out) = split_other v bio (next ∷ bios) other in
      rw
        (
          cancel_loop-other v bio (next ∷ bios) other,
          cancel_loop-sparse v (next ∷ bios) h.1,
          stay,
          out,
        )
        refl
]

-- `vhd_cancel_queued_requests` completes the requests of the vring as canceled, in their order, and
-- keeps the others in theirs, if behind every request of the vring there is one of another vring.
pub cancel_queued_requests-sparse :
    (rq : Rq) (v : ℕ)
    → IsSparse v rq.submission
    → cancel_queued_requests rq v
      ≡ some (
          complete_list
            (record rq { submission = others v rq.submission })
            (canceled_of v rq.submission))
unfolding cancel_queued_requests
cancel_queued_requests-sparse rq v h =
    rw (cancel_loop-sparse v rq.submission h, cancel_queued_requests) refl

cancel_loop-last :
    (v : ℕ) (before : List RqBio) (bio : RqBio)
    → All (λ b. b.vring ≢ v) before
    → bio.vring ≡ v
    → cancel_loop v (before ++ bio ∷ []) ≡ none
unfolding cancel_loop
cancel_loop-last v [] bio h e = ground arith
cancel_loop-last v (b ∷ before) bio h e =
    rw (cancel_loop-other v b (before ++ bio ∷ []) h.0, cancel_loop-last v before bio h.1 e) refl

-- `vhd_cancel_queued_requests` goes through a null pointer if the last request of the queue is of
-- the vring, and no other is.
pub cancel_queued_requests-last :
    (rq : Rq) (v : ℕ) (before : List RqBio) (bio : RqBio)
    → All (λ b. b.vring ≢ v) before
    → bio.vring ≡ v
    → rq.submission ≡ before ++ bio ∷ []
    → cancel_queued_requests rq v ≡ none
unfolding cancel_queued_requests
cancel_queued_requests-last rq v before bio h e q =
    let stuck : cancel_loop v rq.submission ≡ none =
      ap (cancel_loop v) q ∙ cancel_loop-last v before bio h e in
    rw (stuck, cancel_queued_requests) refl
