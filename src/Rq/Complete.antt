-- ===== src/Rq/Complete.antt =====
-- The completions of `rq_complete_bh` (server.c): their order, and what they leave in flight.
use ya_vhost.Prelude.{ℕ, ◌+◌, ◌≡◌, refl, ◌∙◌, List, [], ◌∷◌, ◌++◌, ◌==◌, if◌then◌else◌, u16, arith}
use ya_vhost.Rq.Queue.{
  RqBio, Rq, dec_in_flight, req_complete, move_heads, complete_list, rq_complete_bh,
}

-- How many requests of a list are of a vring.
unfoldable pub count : (vring : ℕ) → List RqBio → ℕ
count v [] = 0
count v (bio ∷ bios) = (if bio.vring == v then 1 else 0) + count v bios

pub count-append : (v : ℕ) (xs ys : List RqBio) → count v (xs ++ ys) ≡ count v xs + count v ys
unfolding count
count-append v [] ys = omega arith
count-append v (x ∷ xs) ys = omega (arith, count-append v xs ys)

pub count-move_heads :
    (v : ℕ) (xs ys : List RqBio) → count v (move_heads xs ys) ≡ count v xs + count v ys
unfolding count move_heads
count-move_heads v [] ys = omega arith
count-move_heads v (x ∷ xs) ys = omega (arith, count-move_heads v xs (x ∷ ys))

pub count-nil : (v : ℕ) (xs : List RqBio) → count v xs + count v [] ≡ count v xs
unfolding count
count-nil v xs = omega arith

pub move_heads-move_heads :
    (xs ys zs : List RqBio) → move_heads (move_heads xs ys) zs ≡ move_heads ys (xs ++ zs)
unfolding move_heads
move_heads-move_heads [] ys zs = refl
move_heads-move_heads (x ∷ xs) ys zs = move_heads-move_heads xs (x ∷ ys) zs

pub complete_list-completed :
    (rq : Rq) (bios : List RqBio) → (complete_list rq bios).completed ≡ move_heads bios rq.completed
unfolding complete_list move_heads req_complete dec_in_flight
complete_list-completed rq [] = refl
complete_list-completed rq (bio ∷ bios) = complete_list-completed (req_complete rq bio) bios

pub complete_list-queues :
    (rq : Rq) (bios : List RqBio)
    → ((complete_list rq bios).submission ≡ rq.submission)
      × ((complete_list rq bios).completion ≡ rq.completion)
      × ((complete_list rq bios).scheduled ≡ rq.scheduled)
      × ((complete_list rq bios).started_in_rq ≡ rq.started_in_rq)
unfolding complete_list req_complete dec_in_flight
complete_list-queues rq [] = (refl, refl, refl, refl)
complete_list-queues rq (bio ∷ bios) = complete_list-queues (req_complete rq bio) bios

-- A completion takes one request of its vring out of flight.
pub req_complete-count :
    (rq : Rq) (bio : RqBio) (v k : ℕ)
    → rq.num_in_flight v ≡ u16 ((if bio.vring == v then 1 else 0) + k)
    → (req_complete rq bio).num_in_flight v ≡ u16 k
unfolding req_complete dec_in_flight
req_complete-count rq bio v k e = ground arith

pub complete_list-count :
    (rq : Rq) (bios : List RqBio) (v k : ℕ)
    → rq.num_in_flight v ≡ u16 (count v bios + k)
    → (complete_list rq bios).num_in_flight v ≡ u16 k
unfolding complete_list count
complete_list-count rq [] v k e = ground arith
complete_list-count rq (bio ∷ bios) v k e =
    complete_list-count (req_complete rq bio) bios v k
      (req_complete-count rq bio v (count v bios + k) (ground arith))

-- `rq_complete_bh` completes the requests in the order in which they were inserted, empties the
-- list, leaves the submitted requests where they are, and takes the completed requests out of
-- flight, each for its own vring: what is left are the `k` others.
pub rq_complete_bh-fifo :
    (rq : Rq) (v k : ℕ)
    → rq.num_in_flight v ≡ u16 (count v rq.completion + k)
    → ((rq_complete_bh rq).completed ≡ rq.completion ++ rq.completed)
      × ((rq_complete_bh rq).completion ≡ [])
      × ((rq_complete_bh rq).submission ≡ rq.submission)
      × ((rq_complete_bh rq).num_in_flight v ≡ u16 k)
unfolding rq_complete_bh move_heads
rq_complete_bh-fifo rq v k e =
    let oldest_first = move_heads rq.completion [] in
    let empty : Rq = record rq { completion = [] } in
    let same = complete_list-queues empty oldest_first in
    let counted : count v oldest_first ≡ count v rq.completion =
      count-move_heads v rq.completion [] ∙ count-nil v rq.completion in
    (
      complete_list-completed empty oldest_first
          ∙ move_heads-move_heads rq.completion [] rq.completed,
      same.1,
      same.0,
      complete_list-count empty oldest_first v k (ground (arith, counted)),
    )
