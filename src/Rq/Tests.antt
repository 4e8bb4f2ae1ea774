-- ===== src/Rq/Tests.antt =====
-- The request queue of server.c at concrete inputs.
use ya_vhost.Prelude.{
  ◌≡◌, refl, true, false, none, some, [], ◌∷◌, ◌++◌, ◌==◌, if◌then◌else◌, u16, arith, replicate,
}
use ya_vhost.Blk.Device.{success}
use ya_vhost.Rq.Queue.{
  RqBio, Rq, rq_complete_bh, cancel_queued_requests, complete_insert, enqueue_block_request,
  inc_in_flight, dequeue_request, stop_bh,
}
use ya_vhost.Rq.Complete.{count, rq_complete_bh-fifo}
use ya_vhost.Rq.Cancel.{cancel_queued_requests-last}
use ya_vhost.Rq.Stop.{signals, stop_bh-signals}
use ya_vhost.Rq.System.{System, init, start, enqueue, dequeue, insert, Reach, begin, later}
use ya_vhost.Rq.Invariant.{outstanding, num_in_flight-outstanding}
use ya_vhost.Rq.Progress.{IsSettled, completions-IsSettled}

-- Two requests of vring 0, and one of vring 1 between them.
abbrev first_bio : RqBio
first_bio = record { id = 1; vring = 0; status = success }

abbrev other_bio : RqBio
other_bio = record { id = 2; vring = 1; status = success }

abbrev last_bio : RqBio
last_bio = record { id = 3; vring = 0; status = success }

-- The first two wait for their completion.
abbrev waiting : Rq
waiting = record {
  submission = last_bio ∷ [];
  completion = other_bio ∷ first_bio ∷ [];
  scheduled = true;
  num_in_flight = λ v. if v == 0 then 2 else 1;
  started_in_rq = λ v. true;
  completed = [];
  drained = [];
}

rq_complete_bh-fifo_example :
    ((rq_complete_bh waiting).completed ≡ other_bio ∷ first_bio ∷ [])
    × ((rq_complete_bh waiting).completion ≡ [])
    × ((rq_complete_bh waiting).submission ≡ last_bio ∷ [])
    × ((rq_complete_bh waiting).num_in_flight 0 ≡ u16 1)
unfolding count
rq_complete_bh-fifo_example = rq_complete_bh-fifo waiting 0 1 refl

-- The first two are queued.
abbrev queued : Rq
queued = record {
  submission = first_bio ∷ other_bio ∷ [];
  completion = [];
  scheduled = false;
  num_in_flight = λ v. 1;
  started_in_rq = λ v. true;
  completed = [];
  drained = [];
}

cancel_queued_requests-last_example : cancel_queued_requests queued 1 ≡ none
cancel_queued_requests-last_example =
    cancel_queued_requests-last queued 1 (first_bio ∷ []) other_bio (omega arith, tt) refl refl

-- The stop of vring 0, whose request in flight is queued, signals twice.
stop_bh-signals_example :
    (rq' : Rq) × (stop_bh queued 0 true ≡ some rq')
    × (rq'.drained ≡ replicate (signals 1 (count 0 (first_bio ∷ other_bio ∷ []))) 0 ++ [])
unfolding count
stop_bh-signals_example =
    stop_bh-signals queued 0 refl ((λ e. omega arith), omega arith) (omega arith) (omega arith)

signals_example : signals 1 1 ≡ 2
signals_example = refl

abbrev taken : Rq
taken = record init.rq {
  num_in_flight = λ v. if v == 0 then 1 else 0;
  started_in_rq = λ v. if v == 0 then true else false;
}

-- A request was queued, taken by the backend, and inserted into the list.
abbrev inserted : System
inserted = record init { rq = record taken { completion = first_bio ∷ [] }; owed = 1 }

inserted-Reach : Reach inserted
unfolding enqueue_block_request inc_in_flight dequeue_request complete_insert
inserted-Reach =
    later
      (later (later (later begin (start 0)) (enqueue first_bio))
        (dequeue first_bio {rq = taken} refl))
      (insert [] [] first_bio success refl)

num_in_flight-outstanding_example : inserted.rq.num_in_flight 0 ≡ u16 (outstanding 0 inserted)
num_in_flight-outstanding_example = num_in_flight-outstanding inserted-Reach 0

completions-IsSettled_example : (t : System) × IsSettled inserted t
completions-IsSettled_example = completions-IsSettled inserted inserted-Reach
