-- ===== src/Virtq/Many.antt =====
-- `virtq_dequeue_many` as a whole (virtio/virt_queue.c), once the resubmission is done.
use ya_vhost.Prelude.{
  ℕ, ◌+◌, ◌^◌, ◌≤◌, ◌<◌, ◌≡◌, refl, ap, subst, ◌∙◌, sym, ◌⊎◌, ◌≢◌, inl, inr, Bool, true, false,
  Option, none, some, List, ◌∷◌, ltb, ◌==◌, if◌then◌else◌, u16, u64, sub_u16, arith, tests,
  Bool-cases, ==_iff,
}
use ya_vhost.Errno.{Errno, erange, eoverflow}
use ya_vhost.Virtq.State.{Stat, Virtq, Iov, GuestTables}
use ya_vhost.Virtq.Dequeue.{
  Resubmit, settle_avail, count_dispatch, count_length, dequeue_avail, dequeue_many,
}
use ya_vhost.Virtq.Handed.{Handed, done}
use ya_vhost.Virtq.Advance.{KeepsQueue, IsReady, head_at}
use ya_vhost.Virtq.Batch.{BatchEnds, dequeue_batch-total}

-- The index that a driver makes stable: after `avail`, the reads go on until one of them is what
-- the one before it was.
pub data Settles : List ℕ → ℕ → ℕ → Type 0 where
  same : {avail : ℕ} {reads : List ℕ} → Settles (avail ∷ reads) avail avail
  again :
      {avail avail2 settled : ℕ} {reads : List ℕ}
      → avail2 ≢ avail
      → Settles reads avail2 settled
      → Settles (avail2 ∷ reads) avail settled

-- The index that the dispatch goes by.
abbrev pub IsAvail : Virtq → List ℕ → ℕ → Type 0
IsAvail vq reads avail =
    ((vq.has_event_idx ≡ false) × (avail ≡ vq.avail.idx))
    ⊎ ((vq.has_event_idx ≡ true) × Settles reads vq.avail.idx avail)

abbrev published : Virtq → ℕ → Virtq
published vq avail = record vq { used = record (vq.used) { avail_event = avail } }

settle_avail-Settles :
    (vq : Virtq) (reads : List ℕ) (avail settled : ℕ)
    → Settles reads avail settled
    → settle_avail reads avail vq ≡ some (settled, published vq settled)
unfolding settle_avail
settle_avail-Settles vq _ avail _ same =
    let t : (avail == avail) ≡ true = ground arith in rw (t, settle_avail)
settle_avail-Settles vq _ avail settled (again {avail2 = avail2} {reads = reads} ne s) =
    let t : (avail2 == avail) ≡ false = ground arith in
    rw (t, settle_avail) (settle_avail-Settles (published vq avail) reads avail2 settled s)

-- A conditional whose test holds.
taken : {A : Type 0} (b : Bool) {x z : A} (y : A) → b ≡ true → x ≡ z → (if b then x else y) ≡ z
taken true y t e = e
taken false y t e = absurd (ground arith)

count_dispatch-total :
    (now : ℕ) (stat : Stat) → (count_dispatch now stat).request_total ≡ stat.request_total
unfolding count_dispatch
count_dispatch-total now stat = ground arith

-- The queue, but for the index that it publishes and its metrics.
abbrev pub IsSame : Virtq → Virtq → Type 0
IsSame vq vq' =
    vq'
    ≡ record vq { used = record (vq.used) { avail_event = vq'.used.avail_event }; stat = vq'.stat }

module _ {App : Type 0} (mem : GuestTables) (handle : App → Virtq → Iov → App × Virtq)
    (qsort : (Resubmit → Resubmit → Bool) → List Resubmit → List Resubmit)
    (law : KeepsQueue handle) where
  -- How `virtq_dequeue_many` ends, for the index `avail`: the queue is at that index; or it has not
  -- moved, as more requests are available than it has descriptors; or it stopped at a bad request.
  abbrev pub ManyEnds : Virtq → ℕ → Virtq → Option Errno → Type 0
  ManyEnds vq avail vq' none =
      (vq'.last_avail ≡ avail) × (vq'.broken ≡ false) × (sub_u16 avail vq.last_avail ≤ vq.qsz)
  ManyEnds vq avail vq' (some e) =
      ((vq.qsz < sub_u16 avail vq.last_avail)
        × (e ≡ eoverflow)
        × (vq'.last_avail ≡ vq.last_avail)
        × (vq'.broken ≡ false))
      ⊎ ((k : ℕ) × (k < sub_u16 avail vq.last_avail)
          × (vq'.last_avail ≡ u16 (vq.last_avail + k))
          × (((vq.qsz ≤ head_at vq k) × (e ≡ erange) × (vq'.broken ≡ false))
              ⊎ ((head_at vq k < vq.qsz) × (vq'.broken ≡ true))))

  -- What the dispatch has handed to the device type: nothing, if too many requests are available, or
  -- the available requests of the queue with its index settled and its metrics counted.
  abbrev pub ManyHands : App → Virtq → ℕ → App → Virtq → Option Errno → Type 0
  ManyHands app vq avail app' vq' res =
      ((vq.qsz < sub_u16 avail vq.last_avail) × (app' ≡ app))
      ⊎ ((vq₃ : Virtq) × IsSame vq vq₃
          × Handed mem handle (sub_u16 avail vq.last_avail) app vq₃ app' vq' res)

  abbrev pub ManyTotal : ℕ → List ℕ → App → Virtq → ℕ → Type 0
  ManyTotal now reads app vq avail =
      (app' : App) × (vq' : Virtq) × (res : Option Errno) × (dequeue_many mem handle qsort now reads
          (app, vq)
        ≡ some ((app', vq'), res))
      × ManyEnds vq avail vq' res
      × ManyHands app vq avail app' vq' res

  -- The dispatch from the index on, over the queue `vq₂` with the index settled.
  many_ends :
      (vq vq₂ vq' : Virtq) (avail : ℕ) (res : Option Errno)
      → avail < 2 ^ 16
      → vq.last_avail < 2 ^ 16
      → vq.broken ≡ false
      → sub_u16 avail vq.last_avail ≤ vq.qsz
      → vq₂.last_avail ≡ vq.last_avail
      → vq₂.qsz ≡ vq.qsz
      → vq₂.avail ≡ vq.avail
      → vq₂.broken ≡ vq.broken
      → BatchEnds mem handle qsort law (sub_u16 avail vq.last_avail) vq₂ vq' res
      → ManyEnds vq avail vq' res
  many_ends vq vq₂ vq' avail none a l b fits el eq ea eb (adv, heads) =
      (omega (arith, adv.last_avail, el), adv.broken ∙ eb ∙ b, fits)
  many_ends vq vq₂ vq' avail (some e) a l b fits el eq ea eb (k, lt, la, tot, why) =
      inr (k, lt, omega (arith, la, el), ends why)
    where
      same_head : head_at vq₂ k ≡ head_at vq k
      same_head = rw (ea, el, eq)

      ends :
          ((vq₂.qsz ≤ head_at vq₂ k) × (e ≡ erange) × (vq'.broken ≡ vq₂.broken))
            ⊎ ((head_at vq₂ k < vq₂.qsz) × (vq'.broken ≡ true))
          → ((vq.qsz ≤ head_at vq k) × (e ≡ erange) × (vq'.broken ≡ false))
            ⊎ ((head_at vq k < vq.qsz) × (vq'.broken ≡ true))
      ends (inl (o, q, r)) = inl (rw (← same_head, ← eq) o, q, r ∙ eb ∙ b)
      ends (inr (o, r)) = inr (rw (← same_head, ← eq) o, r)

  -- What settling the index leaves of the queue.
  record IsSettled (vq vq₂ : Virtq) : Type 0 where
    last_avail : vq₂.last_avail ≡ vq.last_avail
    qsz : vq₂.qsz ≡ vq.qsz
    avail : vq₂.avail ≡ vq.avail
    broken : vq₂.broken ≡ vq.broken
    ready : IsReady vq₂
    same : IsSame vq vq₂

  IsSame-counted :
      (vq vq₂ : Virtq) (stat : Stat) → IsSame vq vq₂ → IsSame vq (record vq₂ { stat = stat })
  IsSame-counted vq vq₂ stat e = ap {A = Virtq} (λ q. record q { stat = stat }) e

  IsReady-count_length :
      (num : ℕ) (vq : Virtq) → IsReady vq → IsReady (record vq { stat = count_length num vq.stat })
  unfolding count_length
  IsReady-count_length num vq r = record {
    allocated = r.allocated;
    small = r.small;
    wraps = r.wraps;
    counts = r.counts;
  }

  dequeue_many-avail :
      (now : ℕ) (reads : List ℕ) (app : App) (vq : Virtq)
      → vq.broken ≡ false
      → vq.inflight_check ≡ false
      → dequeue_many mem handle qsort now reads (app, vq)
        ≡ dequeue_avail mem handle qsort now reads (app, vq)
  unfolding dequeue_many
  dequeue_many-avail now reads app vq b c = ground arith

  dequeue_avail-step :
      (now : ℕ) (reads : List ℕ) (app : App) (vq vq₂ : Virtq) (avail : ℕ)
      → avail < 2 ^ 16
      → vq.last_avail < 2 ^ 16
      → vq.broken ≡ false
      → IsSettled vq vq₂
      → (if vq.has_event_idx
          then settle_avail reads vq.avail.idx (record vq { stat = count_dispatch now vq.stat })
          else some (vq.avail.idx, record vq { stat = count_dispatch now vq.stat }))
        ≡ some (avail, vq₂)
      → (app' : App) × (vq' : Virtq) × (res : Option Errno) × (dequeue_avail mem handle qsort now
            reads
            (app, vq)
          ≡ some ((app', vq'), res))
        × ManyEnds vq avail vq' res
        × ManyHands app vq avail app' vq' res
  unfolding dequeue_avail
  dequeue_avail-step now reads app vq vq₂ avail a l b s e =
      let num = sub_u16 avail vq₂.last_avail in
      let same_num : num ≡ sub_u16 avail vq.last_avail = ap (sub_u16 avail) s.last_avail in
      let empty : Stat = record (vq₂.stat) { dispatch_empty = u64 (vq₂.stat.dispatch_empty + 1) } in
      elim (Bool-cases (ltb vq₂.qsz num)) [
        | inl t ↦ (
          app,
          vq₂,
          some eoverflow,
          rw (e, dequeue_avail, t),
          inl (omega (tests, t, s.qsz, same_num), refl, s.last_avail, s.broken ∙ b),
          inl (omega (tests, t, s.qsz, same_num), refl),
        )
        | inr t ↦ elim (Bool-cases (num == 0)) [
          | inl z ↦ (
            app,
            record vq₂ {
              stat = record (vq₂.stat) { dispatch_empty = u64 (vq₂.stat.dispatch_empty + 1) };
            },
            none,
            rw (e, dequeue_avail, t, z),
            (
              omega (arith, s.last_avail, (==_iff num 0).0 z),
              s.broken ∙ b,
              ground (arith, s.qsz, same_num),
            ),
            inr (
              record vq₂ { stat = empty },
              IsSame-counted vq vq₂ empty s.same,
              subst
                  (λ n.
                    Handed mem handle n app (record vq₂ { stat = empty }) app
                      (record vq₂ { stat = empty }) none)
                  (sym ((==_iff num 0).0 z) ∙ same_num) done,
            ),
          )
          | inr z ↦
              let vq₃ = record vq₂ { stat = count_length num vq₂.stat } in
              let (app', vq', res, q, r, h) =
                dequeue_batch-total mem handle qsort law num app vq₃
                  (IsReady-count_length num vq₂ s.ready) in
              (
                app',
                vq',
                res,
                rw (e, dequeue_avail, t, z, q),
                many_ends vq vq₃ vq' avail res a l b (ground (arith, s.qsz, same_num)) s.last_avail
                    s.qsz s.avail s.broken
                    (subst (λ n. BatchEnds mem handle qsort law n vq₃ vq' res) same_num r),
                inr (
                  vq₃,
                  IsSame-counted vq vq₂ vq₃.stat s.same,
                  subst (λ n. Handed mem handle n app vq₃ app' vq' res) same_num h,
                ),
              )
        ]
      ]

  IsSettled-stat :
      (now : ℕ) (vq : Virtq)
      → IsReady vq
      → IsSettled vq (record vq { stat = count_dispatch now vq.stat })
  IsSettled-stat now vq r = record {
    last_avail = refl;
    qsz = refl;
    avail = refl;
    broken = refl;
    ready = record {
      allocated = r.allocated;
      small = r.small;
      wraps = r.wraps;
      counts = omega (arith, count_dispatch-total now vq.stat, r.counts);
    };
    same = refl;
  }

  IsSettled-published :
      (avail : ℕ) (vq vq₂ : Virtq) → IsSettled vq vq₂ → IsSettled vq (published vq₂ avail)
  IsSettled-published avail vq vq₂ s = record {
    last_avail = s.last_avail;
    qsz = s.qsz;
    avail = s.avail;
    broken = s.broken;
    ready = record {
      allocated = s.ready.allocated;
      small = s.ready.small;
      wraps = s.ready.wraps;
      counts = s.ready.counts;
    };
    same = ap {A = Virtq} (λ q. published q avail) s.same;
  }

  -- A dispatch of a queue that is not broken, and has no resubmission left, ends, for every device
  -- type that changes of the queue only what `virtq_push` does and the reference count of the
  -- memory map, once the driver leaves the available index alone: on success the queue has taken
  -- every request up to the settled index; an index more than the queue size ahead is an error
  -- (EOVERFLOW) that takes none; otherwise the first request whose head is outside the queue (ERANGE)
  -- or whose chain `walk_chain` refuses (its error, the queue broken) stops it. The device type has
  -- got each request before that once, in order, with its head and the buffers of its chain, each
  -- mapped whole, and no others. The queue has as many buffers as a chain may have, and
  -- the indexes and the counter are in the range of their types.
  pub dequeue_many-total :
      (now : ℕ) (reads : List ℕ) (app : App) (vq : Virtq) (avail : ℕ)
      → IsReady vq
      → vq.broken ≡ false
      → vq.inflight_check ≡ false
      → IsAvail vq reads avail
      → avail < 2 ^ 16
      → ManyTotal now reads app vq avail
  dequeue_many-total now reads app vq avail ready b c (inl (n, e)) a =
      rw (dequeue_many-avail now reads app vq b c) (
        dequeue_avail-step now reads app vq (record vq { stat = count_dispatch now vq.stat }) avail
          a ready.wraps b (IsSettled-stat now vq ready) (rw (n, e)))
  dequeue_many-total now reads app vq avail ready b c (inr (n, e)) a =
      let vq₁ : Virtq = record vq { stat = count_dispatch now vq.stat } in
      rw (dequeue_many-avail now reads app vq b c) (
        dequeue_avail-step now reads app vq (published vq₁ avail) avail a ready.wraps b
          (IsSettled-published avail vq vq₁ (IsSettled-stat now vq ready))
          (taken vq.has_event_idx _ n (settle_avail-Settles vq₁ reads vq.avail.idx avail e)))
