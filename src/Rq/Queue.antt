-- ===== src/Rq/Queue.antt =====
-- The operations of a request queue (server.c, bio.h), with the counters of its vrings (vdev.c).
use ya_vhost.Prelude.{
  ℕ, ◌+◌, Bool, true, false, not, ◌&&◌, Option, none, some, List, [], ◌∷◌, ◌++◌, ◌==◌,
  if◌then◌else◌, u16, sub_u16,
}
use ya_vhost.Blk.Device.{IoResult, canceled}

-- `struct vhd_bio`: which one it is, its vring and its status.
pub record RqBio : Type 0 where
  pub id : ℕ
  pub vring : ℕ
  pub status : IoResult

-- `struct vhd_request_queue` and what its operations change elsewhere. `completion` has the latest
-- first, and so have the calls of `completion_handler` and of `vring_mark_drained_bh`.
pub record Rq : Type 0 where
  pub submission : List RqBio
  pub completion : List RqBio
  -- whether `completion_bh` is scheduled
  pub scheduled : Bool
  -- `num_in_flight` and `started_in_rq` of each vring
  pub num_in_flight : ℕ → ℕ
  pub started_in_rq : ℕ → Bool
  pub completed : List RqBio
  pub drained : List ℕ

abbrev pub update {ℓ} : {A : Type ℓ} → (ℕ → A) → ℕ → A → ℕ → A
update f k v i = if i == k then v else f i

-- `vhd_vring_inc_in_flight`
unfoldable pub inc_in_flight : Rq → (vring : ℕ) → Rq
inc_in_flight rq v = record rq {
  num_in_flight = update rq.num_in_flight v (u16 (rq.num_in_flight v + 1));
}

-- `vhd_vring_dec_in_flight`
unfoldable pub dec_in_flight : Rq → (vring : ℕ) → Rq
dec_in_flight rq v =
    let left = sub_u16 (rq.num_in_flight v) 1 in
    record rq {
      num_in_flight = update rq.num_in_flight v left;
      drained = if (left == 0) && not (rq.started_in_rq v) then v ∷ rq.drained else rq.drained;
    }

-- `req_complete`
unfoldable pub req_complete : Rq → RqBio → Rq
req_complete rq bio = dec_in_flight (record rq { completed = bio ∷ rq.completed }) bio.vring

-- The loop of `rq_complete_bh` that moves the heads of a list to another one.
unfoldable pub move_heads : (from to : List RqBio) → List RqBio
move_heads [] to = to
move_heads (bio ∷ from) to = move_heads from (bio ∷ to)

-- The loop of `rq_complete_bh` that completes.
unfoldable pub complete_list : Rq → List RqBio → Rq
complete_list rq [] = rq
complete_list rq (bio ∷ bios) = complete_list (req_complete rq bio) bios

-- `rq_complete_bh`
unfoldable pub rq_complete_bh : Rq → Rq
rq_complete_bh rq = complete_list (record rq { completion = [] }) (move_heads rq.completion [])

-- `vhd_dequeue_request`
unfoldable pub dequeue_request : Rq → Option RqBio × Rq
dequeue_request rq = elim rq.submission [
  | [] ↦ (none, rq)
  | bio ∷ bios ↦ (some bio, record rq { submission = bios })
]

-- `vhd_enqueue_block_request`
unfoldable pub enqueue_block_request : Rq → RqBio → Rq
enqueue_block_request rq bio =
    let counted = inc_in_flight rq bio.vring in
    record counted { submission = rq.submission ++ bio ∷ [] }

-- `vhd_complete_bio` in its two steps, which other threads may come between: the insertion, with
-- whether the list was empty before it, and the scheduling if it was.
unfoldable pub complete_insert : Rq → RqBio → IoResult → Bool × Rq
complete_insert rq bio status = (
  elim rq.completion [ [] ↦ true | _ ∷ _ ↦ false ],
  record rq { completion = record bio { status = status } ∷ rq.completion },
)

abbrev pub complete_schedule : Rq → Rq
complete_schedule rq = record rq { scheduled = true }

unfoldable pub complete_bio : Rq → RqBio → IoResult → Rq
unfolding complete_insert
complete_bio rq bio status =
    let (first, inserted) = complete_insert rq bio status in
    if first then complete_schedule inserted else inserted

-- What a turn of the loop below adds to what the rest of it does: a request that stays, or one that
-- is canceled.
abbrev pub keep : RqBio → Option (List RqBio × List RqBio) → Option (List RqBio × List RqBio)
keep bio none = none
keep bio (some (kept, out)) = some (bio ∷ kept, out)

abbrev pub cancel : RqBio → Option (List RqBio × List RqBio) → Option (List RqBio × List RqBio)
cancel bio none = none
cancel bio (some (kept, out)) = some (kept, bio ∷ out)

-- `TAILQ_FOREACH` in `vhd_cancel_queued_requests`, from the request that `bio` points at: the
-- requests that stay and those that are canceled. The body sets `bio` to the next request, and
-- the loop then goes on with the one behind it; `none` is the access through a null pointer if
-- there is no next request.
unfoldable pub cancel_loop : (vring : ℕ) → List RqBio → Option (List RqBio × List RqBio)
cancel_loop v [] = some ([], [])
cancel_loop v (bio ∷ []) = if bio.vring == v then none else some (bio ∷ [], [])
cancel_loop v (bio ∷ next ∷ bios) =
    let behind = cancel_loop v bios in
    let after = cancel_loop v (next ∷ bios) in
    if bio.vring == v
    then cancel (record bio { status = canceled }) (keep next behind)
    else keep bio after

-- `vhd_cancel_queued_requests`; `completion_handler` of a canceled request does not use the queue.
unfoldable pub cancel_queued_requests : Rq → (vring : ℕ) → Option Rq
cancel_queued_requests rq v = elim (cancel_loop v rq.submission) [
  | none ↦ none
  | some (kept, out) ↦ some (complete_list (record rq { submission = kept }) out)
]

-- The end of `vring_stop_bh` (vdev.c), the signal of `vring_mark_stopped_bh` left out: a vring
-- without a request in flight is drained.
unfoldable pub signal_drained : Rq → (vring : ℕ) → Rq
signal_drained rq v = if rq.num_in_flight v == 0 then record rq { drained = v ∷ rq.drained } else rq

-- The part of `vring_stop_bh` (vdev.c) on the queue: the requests of a disconnecting vring are
-- canceled.
unfoldable pub stop_bh : Rq → (vring : ℕ) → (disconnecting : Bool) → Option Rq
stop_bh rq v disconnecting =
    let stopped = record rq { started_in_rq = update rq.started_in_rq v false } in
    if rq.started_in_rq v
    then if disconnecting
      then elim (cancel_queued_requests stopped v) [
        | none ↦ none
        | some r ↦ some (signal_drained r v)
      ]
      else some (signal_drained stopped v)
    else some rq
