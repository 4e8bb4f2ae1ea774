-- ===== src/Virtq/Dequeue.antt =====
-- Taking requests off the available ring and handing them to the device type
-- (virtio/virt_queue.c).
use ya_vhost.Prelude.{
  ℕ, zero, suc, ◌+◌, ◌-◌, ◌%◌, Bool, true, false, Option, none, some, List, [], ◌∷◌, ltb, leb, ◌==◌,
  if◌then◌else◌, u16, u64, sub_u16, take,
}
use ya_vhost.Errno.{Errno, erange, enodev, eoverflow, ok, err}
use ya_vhost.MemMap.Slots.{memmap_ref}
use ya_vhost.Virtq.State.{InflightDesc, Stat, Virtq, Iov, GuestTables}
use ya_vhost.Virtq.Inflight.{inflight_avail_update}
use ya_vhost.Virtq.Chain.{walk_chain}

-- `struct inflight_resubmit`
pub record Resubmit : Type 0 where
  pub counter : ℕ
  pub head : ℕ

-- `inflight_resubmit_compare`: whether it puts the first before the second.
abbrev pub resubmit_before : Resubmit → Resubmit → Bool
resubmit_before left right = ltb left.counter right.counter

-- The loop of `virtq_inflight_resubmit` over the descriptors from `i` on, `n` of them.
unfoldable pub collect_inflight : ℕ → (i : ℕ) → (ℕ → InflightDesc) → List Resubmit
collect_inflight zero i desc = []
collect_inflight (suc n) i desc =
    let rest = collect_inflight n (i + 1) desc in
    if (desc i).inflight == 0 then rest else record { counter = (desc i).counter; head = i } ∷ rest

abbrev pub mark_broken : Virtq → Virtq
mark_broken vq = record vq { broken = true }

-- The loop that publishes the index up to which the available ring was read, until a second read
-- of the index agrees. `reads` are those reads; `none` is a loop that goes on past them.
unfoldable pub settle_avail : List ℕ → (avail : ℕ) → Virtq → Option (ℕ × Virtq)
settle_avail [] avail vq = none
settle_avail (avail2 ∷ reads) avail vq =
    let vq' = record vq { used = record (vq.used) { avail_event = avail } } in
    let rest = settle_avail reads avail2 vq' in if avail2 == avail then some (avail, vq') else rest

-- The metrics at the start of a dispatch, and those of the length of the queue.
unfoldable pub count_dispatch : ℕ → Stat → Stat
count_dispatch now stat =
    let aged =
      if ltb 60 (now - stat.period_start_ts)
      then record stat { period_start_ts = now; queue_len_max_60s = 0 }
      else stat in
    record aged { dispatch_total = u64 (aged.dispatch_total + 1) }

unfoldable pub count_length : ℕ → Stat → Stat
count_length num_avail stat = record stat {
  queue_len_last = num_avail;
  queue_len_max_60s =
      if ltb stat.queue_len_max_60s num_avail then num_avail else stat.queue_len_max_60s;
}

-- `App` is the state of the device type; `handle` is its `handle_buffers_cb`, and `qsort` is the
-- one of the C library.
module _ {App : Type 0} (mem : GuestTables) (handle : App → Virtq → Iov → App × Virtq)
    (qsort : (Resubmit → Resubmit → Bool) → List Resubmit → List Resubmit) where
  abbrev pub State : Type 0
  State = App × Virtq

  -- `virtq_dequeue_one`; `none` would be a walk without end.
  unfoldable pub dequeue_one : Bool → (head : ℕ) → State → Option (State × Option Errno)
  dequeue_one resubmit head (app, vq) = elim (walk_chain mem vq head) [
    | none ↦ none
    | some (vq₁, res) ↦ elim res [
      | err e ↦ some ((app, vq₁), some e)
      | ok chain_len ↦
          let iov : Iov = record {
            used_head = head;
            mm = vq₁.mm.regions;
            buffers = take vq₁.next_buffer vq₁.buffers;
          } in
          let vq₂ = record vq₁ { mm = memmap_ref vq₁.mm } in
          let vq₃ = if resubmit then vq₂ else inflight_avail_update vq₂ head in
          let (app', vq₄) = handle app vq₃ iov in
          some ((app', record vq₄ { last_avail = u16 (vq₄.last_avail + 1) }), none)
    ]
  ]

  -- The loop of `virtq_inflight_resubmit` over the sorted requests.
  unfoldable pub resubmit_all : List Resubmit → State → Option (State × Option Errno)
  resubmit_all [] s = some (s, none)
  resubmit_all (r ∷ rs) s =
      if leb (s.1).qsz r.head then some (s, some erange) else (elim (dequeue_one true r.head s) [
        | none ↦ none
        | some (s', res) ↦ elim res [ some e ↦ some (s', some e) | none ↦ resubmit_all rs s' ]
      ])

  -- `virtq_inflight_resubmit`
  unfoldable pub inflight_resubmit : State → Option (State × Option Errno)
  inflight_resubmit s = elim (s.1).inflight_region [
    | none ↦ some (s, none)
    | some region ↦
        resubmit_all (qsort resubmit_before (collect_inflight region.desc_num 0 region.desc)) s
  ]

  -- The loop of `virtq_dequeue_many` over `n` available requests. An error of a chain breaks the
  -- queue, and a head outside the queue does not.
  unfoldable pub dequeue_batch : ℕ → State → Option (State × Option Errno)
  dequeue_batch zero s = some (s, none)
  dequeue_batch (suc n) (app, vq) =
      let head = vq.avail.ring (vq.last_avail % vq.qsz) in
      if leb vq.qsz head
      then some ((app, vq), some erange)
      else (elim (dequeue_one false head (app, vq)) [
        | none ↦ none
        | some ((app', vq'), res) ↦ elim res [
          | some e ↦ some ((app', mark_broken vq'), some e)
          | none ↦ dequeue_batch n (
            app',
            record vq' {
              stat = record (vq'.stat) { request_total = u64 (vq'.stat.request_total + 1) };
            },
          )
        ]
      ])

  -- `virtq_dequeue_many` from the read of `avail->idx` on.
  unfoldable pub dequeue_avail : (now : ℕ) → List ℕ → State → Option (State × Option Errno)
  dequeue_avail now reads (app, vq) =
      let vq₁ = record vq { stat = count_dispatch now vq.stat } in
      elim (if vq.has_event_idx
        then settle_avail reads vq.avail.idx vq₁
        else some (vq.avail.idx, vq₁)) [
          | none ↦ none
          | some (avail, vq₂) ↦
              let num_avail = sub_u16 avail vq₂.last_avail in
              let empty = u64 (vq₂.stat.dispatch_empty + 1) in
              if ltb vq₂.qsz num_avail
              then some ((app, vq₂), some eoverflow)
              else if num_avail == 0
              then some
                  ((app, record vq₂ { stat = record (vq₂.stat) { dispatch_empty = empty } }), none)
              else dequeue_batch num_avail
                  (app, record vq₂ { stat = count_length num_avail vq₂.stat })
        ]

  -- `virtq_dequeue_many`
  unfoldable pub dequeue_many : (now : ℕ) → List ℕ → State → Option (State × Option Errno)
  dequeue_many now reads (app, vq) =
      if vq.broken
      then some ((app, vq), some enodev)
      else if vq.inflight_check
      then (elim (inflight_resubmit (app, vq)) [
        | none ↦ none
        | some ((app', vq'), res) ↦ elim res [
          | some e ↦ some ((app', mark_broken vq'), some e)
          | none ↦ dequeue_avail now reads (app', record vq' { inflight_check = false })
        ]
      ])
      else dequeue_avail now reads (app, vq)
