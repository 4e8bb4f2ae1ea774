-- ===== src/Rq/System.antt =====
-- The request queue (server.c) under any interleaving of the loop of the queue with the threads
-- that complete requests.
use ya_vhost.Prelude.{ℕ, suc, ◌≡◌, Bool, true, false, some, List, [], ◌∷◌, ◌++◌, if◌then◌else◌}
use ya_vhost.Blk.Device.{IoResult}
use ya_vhost.Rq.Queue.{
  RqBio, Rq, update, req_complete, move_heads, dequeue_request, enqueue_block_request,
  complete_insert, complete_schedule, stop_bh,
}

-- Which part of `rq_complete_bh` the loop is in: not in it, called but without the list yet, or
-- with these requests of the list left to complete, oldest first.
pub data Phase : Type 0 where
  idle called : Phase
  completing : List RqBio → Phase

-- `backend` has the requests that were dequeued and not completed, and `owed` counts the threads
-- in `vhd_complete_bio` that have inserted into an empty list and not scheduled yet.
pub record System : Type 0 where
  pub rq : Rq
  pub backend : List RqBio
  pub owed : ℕ
  pub phase : Phase

-- The queue after `vhd_create_request_queue`.
abbrev pub init : System
init = record {
  rq = record {
    submission = [];
    completion = [];
    scheduled = false;
    num_in_flight = λ v. 0;
    started_in_rq = λ v. false;
    completed = [];
    drained = [];
  };
  backend = [];
  owed = 0;
  phase = idle;
}

pub data Step (s : System) : System → Type 0 where
  -- A vring starts in `vring_start_bh`.
  start :
      (v : ℕ)
      → Step s (record s { rq = record s.rq { started_in_rq = update s.rq.started_in_rq v true } })
  -- `vring_stop_bh`
  stop : (v : ℕ) (d : Bool) {rq : Rq} → stop_bh s.rq v d ≡ some rq → Step s (record s { rq = rq })
  -- A device type hands a request over.
  enqueue : (bio : RqBio) → Step s (record s { rq = enqueue_block_request s.rq bio })
  -- The backend takes one.
  dequeue :
      (bio : RqBio) {rq : Rq}
      → dequeue_request s.rq ≡ (some bio, rq)
      → Step s (record s { rq = rq; backend = bio ∷ s.backend })
  -- A thread is in `vhd_complete_bio` with a request of the backend, and inserts it.
  insert :
      (before after : List RqBio) (bio : RqBio) (status : IoResult)
      → s.backend ≡ before ++ bio ∷ after
      → Step s (record s {
        rq = (complete_insert s.rq bio status).1;
        backend = before ++ after;
        owed = if (complete_insert s.rq bio status).0 then suc s.owed else s.owed;
      })
  -- Such a thread schedules `completion_bh`.
  schedule : {n : ℕ} → s.owed ≡ suc n → Step s (record s { rq = complete_schedule s.rq; owed = n })
  -- The loop takes `completion_bh` off its list and calls it.
  call :
      s.rq.scheduled ≡ true
      → s.phase ≡ idle
      → Step s (record s { rq = record s.rq { scheduled = false }; phase = called })
  -- `SLIST_MOVE_ATOMIC` in `rq_complete_bh`, and its first loop.
  steal :
      s.phase ≡ called
      → Step s (record s {
        rq = record s.rq { completion = [] };
        phase = completing (move_heads s.rq.completion []);
      })
  -- A turn of its second loop.
  complete :
      (bio : RqBio) (bios : List RqBio)
      → s.phase ≡ completing (bio ∷ bios)
      → Step s (record s { rq = req_complete s.rq bio; phase = completing bios })
  return : s.phase ≡ completing [] → Step s (record s { phase = idle })

pub data Reach : System → Type 0 where
  begin : Reach init
  later : {s t : System} → Reach s → Step s t → Reach t
