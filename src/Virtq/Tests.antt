-- ===== src/Virtq/Tests.antt =====
-- The virtqueue of virtio/virt_queue.c at concrete inputs.
use ya_vhost.Prelude.{
  ℕ, ◌+◌, ◌<◌, ◌^◌, ◌-◌, ◌≡◌, refl, Bool, true, false, none, some, List, [], ◌∷◌, ltb,
  if◌then◌else◌, arith, take, replicate, Option-cases, ◌==◌, inl, inr,
}
use ya_vhost.Errno.{Result, ok}
use ya_vhost.MemMap.Region.{Region, gpa_range_to_ptr}
use ya_vhost.Virtq.State.{
  Desc, UsedElem, Virtq, Iov, GuestTables, is_indirect, has_next, is_write_only,
}
use ya_vhost.Virtq.Inflight.{no_stat, no_buffer, inflight_used_update, inflight_used_commit}
use ya_vhost.Virtq.Chain.{walk_chain, walk_descs, map_buffer, add_buffer}
use ya_vhost.Virtq.Chains.{ChainResult, walk_chain-total}
use ya_vhost.Virtq.Safety.{AgreeMapped, walk_chain-agree}
use ya_vhost.Virtq.Push.{virtq_push, push_used, notify, do_notify}
use ya_vhost.Virtq.Writes.{Shared, writes, push_writes}
use ya_vhost.Virtq.Publish.{IsPushed, virtq_push-IsPushed}
use ya_vhost.Virtq.Recovery.{IsConsistent, push_crash-IsConsistent}
use ya_vhost.Virtq.Dequeue.{Resubmit}
use ya_vhost.Virtq.Advance.{KeepsQueue, IsReady}
use ya_vhost.Virtq.Many.{ManyTotal, Settles, same, again, dequeue_many-total}
use ya_vhost.Virtq.Batch.{BatchTotal, dequeue_batch-total}

abbrev descs : ℕ → Desc
descs i =
    if i == 0
    then record { addr = 0x100; len = 16; flags = 1; next = 1 }
    else if i == 1
    then record { addr = 0x200; len = 512; flags = 2; next = 0 }
    else if i == 2
    then record { addr = 0x100; len = 16; flags = 1; next = 2 }
    else record { addr = 0x800; len = 16; flags = 4; next = 0 }

-- The first and the third request is the chain of two descriptors, the second one a cycle.
abbrev heads : ℕ → ℕ
heads i = if i == 1 then 2 else 0

abbrev no_used : UsedElem
no_used = record { id = 0; len = 0 }

abbrev regions : List Region
regions = record { gpa = 0; uva = 0x40000000; ptr = 0x10200000; size = 0x1000 } ∷ []

-- A queue of four descriptors, for chains of three, with no inflight region and no log.
abbrev queue : Virtq
queue = record {
  flags = 0;
  desc = descs;
  avail = record { flags = 0; idx = 3; ring = heads };
  used = record { idx = 0; ring = λ i. no_used; avail_event = 0 };
  used_gpa_base = 0;
  qsz = 4;
  max_chain_len = 3;
  last_avail = 0;
  next_buffer = 0;
  buffers = replicate 3 no_buffer;
  broken = false;
  has_event_idx = false;
  notify_fd = some 7;
  req_cnt = 1;
  inflight_region = none;
  inflight_check = false;
  mm = record { refcount = 1; map_cb = none; unmap_cb = none; regions = regions };
  log = none;
  stat = no_stat;
  signals = [];
}

-- Guest memory with a descriptor of a request header wherever one is read.
abbrev headers : GuestTables
headers ptr i = record { addr = 0x100; len = 16; flags = 0; next = 0 }

-- The same, but for the addresses that no region has.
abbrev headers_above : GuestTables
headers_above ptr i = if ltb ptr 0x10200000 then descs 2 else headers ptr i

abbrev queue_of_two : Virtq
queue_of_two = record queue {
  next_buffer = 2;
  buffers =
      record { base = 0x10200100; len = 16; write_only = false }
      ∷ record { base = 0x10200200; len = 512; write_only = true }
      ∷ no_buffer
      ∷ [];
}

walked : walk_chain headers queue 0 ≡ some (queue_of_two, ok 2)
unfolding walk_chain walk_descs map_buffer add_buffer gpa_range_to_ptr is_indirect has_next
    is_write_only
walked = refl

walk_chain-total_example :
    (vq' : Virtq) × (res : Result ℕ) × (walk_chain headers queue 2 ≡ some (vq', res))
    × ChainResult headers descs 2 (record queue { next_buffer = 0 }) vq' res
walk_chain-total_example = walk_chain-total headers queue 2 refl (omega arith)

headers_above-AgreeMapped : AgreeMapped regions headers headers_above
unfolding gpa_range_to_ptr
headers_above-AgreeMapped addr len ptr j e fits = ground arith

descs_cut : (j : ℕ) → j < 4 → descs j ≡ (if ltb j 4 then descs j else descs 2)
descs_cut j lt = ground arith

walk_chain-agree_example :
    walk_chain headers queue 3
    ≡ walk_descs
        (3 + 1)
        headers_above
        (λ j. if ltb j 4 then descs j else descs 2)
        3
        1
        (record queue { next_buffer = 0 })
walk_chain-agree_example =
    walk_chain-agree queue (λ j. if ltb j 4 then descs j else descs 2) 3 headers_above-AgreeMapped
      descs_cut (omega arith)

-- A device type that completes each request at once, and counts them.
abbrev complete_at_once : ℕ → Virtq → Iov → ℕ × Virtq
complete_at_once n vq iov = (n + 1, notify (push_used vq iov 1))

complete_at_once-KeepsQueue : KeepsQueue complete_at_once
unfolding notify do_notify push_used inflight_used_update inflight_used_commit
complete_at_once-KeepsQueue = record {
  keeps = λ app vq iov. elim (Option-cases vq.inflight_region) [
    | inl e ↦ elim (Option-cases vq.notify_fd) [ inl f ↦ ground arith | inr (d, f) ↦ ground arith ]
    | inr (r, e) ↦ elim (Option-cases vq.notify_fd) [
      | inl f ↦ ground arith
      | inr (d, f) ↦ ground arith
    ]
  ];
}

abbrev unsorted : (Resubmit → Resubmit → Bool) → List Resubmit → List Resubmit
unsorted before rs = rs

queue-IsReady : IsReady queue
queue-IsReady = record {
  allocated = refl;
  small = omega arith;
  wraps = omega arith;
  counts = omega arith;
}

dequeue_batch-total_example :
    BatchTotal headers complete_at_once unsorted complete_at_once-KeepsQueue 3 0 queue
dequeue_batch-total_example =
    dequeue_batch-total headers complete_at_once unsorted complete_at_once-KeepsQueue 3 0 queue
      queue-IsReady

-- A request in flight at descriptor 2.
abbrev in_flight : Shared
in_flight = record {
  used = record { idx = 0xffff; ring = λ i. no_used; avail_event = 0 };
  region = record {
    desc_num = 4;
    last_batch_head = 1;
    used_idx = 0xffff;
    desc = λ i.
        if i == 2
        then record { inflight = 1; next = 0; counter = 8 }
        else record { inflight = 0; next = 0; counter = 0 };
  };
}

in_flight_small : (j : ℕ) → (in_flight.region.desc j).counter < 2 ^ 64 - 1
in_flight_small j = ground arith

push_crash-IsConsistent_example :
    IsConsistent in_flight (writes 4 2 1 (take 4 push_writes) in_flight) 2 queue
push_crash-IsConsistent_example =
    push_crash-IsConsistent queue in_flight 2 1 (omega arith) refl (omega arith) in_flight_small
      (omega arith) refl 4

abbrev one_iov : Iov
one_iov = record {
  used_head = 2;
  mm = regions;
  buffers = record { base = 0x10200200; len = 512; write_only = true } ∷ [];
}

virtq_push-IsPushed_example :
    (vq' : Virtq) × (virtq_push queue one_iov 5 ≡ some vq') × IsPushed queue 2 5 vq'
virtq_push-IsPushed_example = virtq_push-IsPushed queue one_iov 5 (omega arith)

-- The driver moves the index on from 2 to 3 while the device looks.
abbrev event_queue : Virtq
event_queue = record queue {
  has_event_idx = true;
  avail = record { flags = 0; idx = 2; ring = λ i. 0 };
}

event_queue-IsReady : IsReady event_queue
event_queue-IsReady = record {
  allocated = refl;
  small = omega arith;
  wraps = omega arith;
  counts = omega arith;
}

read_twice : Settles (3 ∷ 3 ∷ []) 2 3
read_twice = again (λ e. omega arith) same

dequeue_many-total_example :
    ManyTotal headers complete_at_once unsorted complete_at_once-KeepsQueue 100
      (3 ∷ 3 ∷ [])
      0
      event_queue
      3
dequeue_many-total_example =
    dequeue_many-total headers complete_at_once unsorted complete_at_once-KeepsQueue 100
      (3 ∷ 3 ∷ []) 0 event_queue 3 event_queue-IsReady refl refl (inr (refl, read_twice))
      (omega arith)
