-- ===== src/Virtq/Batch.antt =====
-- What the dispatch of a batch does to the queue, with any device type behind it
-- (virtio/virt_queue.c).
use ya_vhost.Prelude.{
  ℕ, zero, suc, ◌+◌, ◌≤◌, ◌<◌, ◌≡◌, refl, ap, ◌∙◌, ◌⊎◌, inl, inr, Bool, true, false, Option, none,
  some, List, sym, subst, leb, u16, u64, take, arith, Bool-cases,
}
use ya_vhost.Errno.{Errno, erange, Result, ok, err}
use ya_vhost.Virtq.State.{Buffer, Virtq, Iov, GuestTables}
use ya_vhost.Virtq.Chain.{walk_chain}
use ya_vhost.Virtq.Chains.{ChainResult, walk_chain-total}
use ya_vhost.Virtq.Handed.{
  next_head, prepared, request, handed, IsChain, Handed, done, outside, refused, given,
}
use ya_vhost.Virtq.Walk.{Walked}
use ya_vhost.Virtq.Dequeue.{Resubmit, dequeue_one, dequeue_batch, mark_broken}
use ya_vhost.Virtq.Advance.{
  KeepsQueue, Advanced, IsReady, Advanced-of_walk, SameShape, SameShape-trans, SameShape-prepare,
  Advanced-SameShape, head_at, head_at-zero, head_at-suc, heads-suc,
}

module _ {App : Type 0} (mem : GuestTables) (handle : App → Virtq → Iov → App × Virtq)
    (qsort : (Resubmit → Resubmit → Bool) → List Resubmit → List Resubmit)
    (law : KeepsQueue handle) where
  -- The request that `virtq_dequeue_one` has handed over.
  record OneGiven (app : App) (vq : Virtq) (app' : App) (vq' : Virtq) : Type 0 where
    walked : Virtq
    len : ℕ
    bs : List Buffer
    walk : walk_chain mem vq (next_head vq) ≡ some (walked, ok len)
    chain : IsChain mem vq (next_head vq) bs
    same_app : app' ≡ (handed mem handle app vq walked bs).0
    same_queue :
        let vq₂ = (handed mem handle app vq walked bs).1 in
        vq' ≡ record vq₂ { last_avail = u16 (vq₂.last_avail + 1) }

  -- How `virtq_dequeue_one` ends for the next head.
  abbrev OneEnds : App → Virtq → App → Virtq → Option Errno → Type 0
  OneEnds app vq app' vq' none = Advanced vq 1 0 vq' × OneGiven app vq app' vq'
  OneEnds app vq app' vq' (some e) =
      Advanced vq 0 0 vq' × (app' ≡ app) × (walk_chain mem vq (next_head vq) ≡ some (vq', err e))

  SameShape-handle : (app : App) (vq : Virtq) (iov : Iov) → SameShape vq (handle app vq iov).1
  SameShape-handle app vq iov =
      let e = law.keeps app vq iov in
      record {
        qsz = ap (λ (q : Virtq). q.qsz) e;
        avail = ap (λ (q : Virtq). q.avail) e;
        broken = ap (λ (q : Virtq). q.broken) e;
        last_avail = ap (λ (q : Virtq). q.last_avail) e;
        total = ap (λ (q : Virtq). q.stat.request_total) e;
        max_chain_len = ap (λ (q : Virtq). q.max_chain_len) e;
        buffers = ap (λ (q : Virtq). q.buffers) e;
      }

  -- The walk has found the request.
  request_of_walk :
      (vq vq₁ : Virtq) (bs : List Buffer)
      → Walked (record vq { next_buffer = 0 }) bs vq₁
      → record {
        used_head = next_head vq;
        mm = vq₁.mm.regions;
        buffers = take vq₁.next_buffer vq₁.buffers;
      }
        ≡ request vq (next_head vq) bs
  request_of_walk vq vq₁ bs w =
      let mm = ap (λ (q : Virtq). q.mm) w.frame in rw (mm, w.appended) refl

  -- One request: it ends, and the queue goes on by one only if the chain was good.
  dequeue_one-total :
      (app : App) (vq : Virtq)
      → IsReady vq
      → (app' : App) × (vq' : Virtq) × (res : Option Errno) × (dequeue_one mem handle qsort false
            (next_head vq)
            (app, vq)
          ≡ some ((app', vq'), res))
        × OneEnds app vq app' vq' res
  unfolding dequeue_one
  dequeue_one-total app vq ready =
      let (vq₁, res, e, r) = walk_chain-total mem vq (next_head vq) ready.allocated ready.small in
      go vq₁ res e r
    where
      go :
          (vq₁ : Virtq) (res : Result ℕ)
          → walk_chain mem vq (next_head vq) ≡ some (vq₁, res)
          → ChainResult mem vq.desc (next_head vq) (record vq { next_buffer = 0 }) vq₁ res
          → (app' : App) × (vq' : Virtq) × (r : Option Errno) × (dequeue_one mem handle qsort false
                (next_head vq)
                (app, vq)
              ≡ some ((app', vq'), r))
            × OneEnds app vq app' vq' r
      go vq₁ (err x) e (bs, w) =
          (app, vq₁, some x, rw (e, dequeue_one), (Advanced-of_walk ready w, refl, e))
      go vq₁ (ok n) e (ds, bs, c, i, w) =
          let out = handed mem handle app vq vq₁ bs in
          (
            out.0,
            record (out.1) { last_avail = u16 ((out.1).last_avail + 1) },
            none,
            rw (e, dequeue_one, request_of_walk vq vq₁ bs w),
            (
              Advanced-SameShape (Advanced-of_walk ready w) (
                  SameShape-trans (SameShape-prepare false (next_head vq) vq₁) (
                    SameShape-handle app (prepared vq₁ (next_head vq))
                      (request vq (next_head vq) bs))),
              record {
                walked = vq₁;
                len = n;
                bs = bs;
                walk = e;
                chain = record { ds = ds; chained = c; images = i };
                same_app = refl;
                same_queue = refl;
              },
            ),
          )

  -- How the loop over a batch ends: after all `n` requests, or after `k` of them, at a head outside
  -- the queue, which leaves the queue as it is, or at a bad chain, which breaks it.
  abbrev pub BatchEnds : ℕ → Virtq → Virtq → Option Errno → Type 0
  BatchEnds n vq vq' none = Advanced vq n n vq' × ((i : ℕ) → i < n → head_at vq i < vq.qsz)
  BatchEnds n vq vq' (some e) =
      (k : ℕ) × (k < n)
      × (vq'.last_avail ≡ u16 (vq.last_avail + k))
      × (vq'.stat.request_total ≡ u64 (vq.stat.request_total + k))
      × (((vq.qsz ≤ head_at vq k) × (e ≡ erange) × (vq'.broken ≡ vq.broken))
          ⊎ ((head_at vq k < vq.qsz) × (vq'.broken ≡ true)))

  IsReady-Advanced : {vq vq' : Virtq} {k c : ℕ} → IsReady vq → Advanced vq k c vq' → IsReady vq'
  IsReady-Advanced ready a = record {
    allocated = a.allocated;
    small = rw a.max_chain_len ready.small;
    wraps = omega (arith, a.last_avail);
    counts = omega (arith, a.total);
  }

  -- The state after one request of the loop.
  abbrev counted : Virtq → Virtq
  counted vq = record vq {
    stat = record (vq.stat) { request_total = u64 (vq.stat.request_total + 1) };
  }

  Advanced-counted : {vq vq' : Virtq} → Advanced vq 1 0 vq' → Advanced vq 1 1 (counted vq')
  Advanced-counted a = record {
    qsz = a.qsz;
    avail = a.avail;
    broken = a.broken;
    last_avail = a.last_avail;
    total = omega (arith, a.total);
    max_chain_len = a.max_chain_len;
    allocated = a.allocated;
  }

  BatchEnds-more :
      (n : ℕ) (vq vq₁ vq' : Virtq) (res : Option Errno)
      → IsReady vq
      → Advanced vq 1 1 vq₁
      → head_at vq 0 < vq.qsz
      → BatchEnds n vq₁ vq' res
      → BatchEnds (suc n) vq vq' res
  BatchEnds-more n vq vq₁ vq' none ready a h (b, heads) = (
    record {
      qsz = b.qsz ∙ a.qsz;
      avail = b.avail ∙ a.avail;
      broken = b.broken ∙ a.broken;
      last_avail = omega (arith, b.last_avail, a.last_avail);
      total = omega (arith, b.total, a.total);
      max_chain_len = b.max_chain_len ∙ a.max_chain_len;
      allocated = b.allocated;
    },
    heads-suc vq vq₁ n a h heads,
  )
  BatchEnds-more n vq vq₁ vq' (some e) ready a h (k, lt, la, tot, why) =
      (suc k, omega arith, omega (arith, la, a.last_avail), omega (arith, tot, a.total), ends why)
    where
      ends :
          ((vq₁.qsz ≤ head_at vq₁ k) × (e ≡ erange) × (vq'.broken ≡ vq₁.broken))
            ⊎ ((head_at vq₁ k < vq₁.qsz) × (vq'.broken ≡ true))
          → ((vq.qsz ≤ head_at vq (suc k)) × (e ≡ erange) × (vq'.broken ≡ vq.broken))
            ⊎ ((head_at vq (suc k) < vq.qsz) × (vq'.broken ≡ true))
      ends (inl (o, q, b)) = inl (rw (← head_at-suc vq vq₁ k a, ← a.qsz) o, q, b ∙ a.broken)
      ends (inr (o, b)) = inr (rw (← head_at-suc vq vq₁ k a, ← a.qsz) o, b)

  abbrev pub BatchTotal : ℕ → App → Virtq → Type 0
  BatchTotal n app vq =
      (app' : App) × (vq' : Virtq) × (res : Option Errno) × (dequeue_batch mem handle qsort n
          (app, vq)
        ≡ some ((app', vq'), res))
      × BatchEnds n vq vq' res
      × Handed mem handle n app vq app' vq' res

  -- One request was handed over.
  Handed-more :
      (n : ℕ) (app app₁ app' : App) (vq vq₁ vq' : Virtq) (res : Option Errno)
      → next_head vq < vq.qsz
      → OneGiven app vq app₁ vq₁
      → Handed mem handle n app₁ (counted vq₁) app' vq' res
      → Handed mem handle (suc n) app vq app' vq' res
  Handed-more n app app₁ app' vq vq₁ vq' res lt g h = given g.bs lt g.walk g.chain (
      subst
        (λ q.
          Handed mem handle n (handed mem handle app vq g.walked g.bs).0 (counted q) app' vq' res)
        g.same_queue (subst (λ a. Handed mem handle n a (counted vq₁) app' vq' res) g.same_app h))

  dequeue_batch-step :
      (n : ℕ) (app app₁ : App) (vq vq₁ : Virtq) (res : Option Errno)
      → IsReady vq
      → leb vq.qsz (next_head vq) ≡ false
      → dequeue_one mem handle qsort false (next_head vq) (app, vq) ≡ some ((app₁, vq₁), res)
      → OneEnds app vq app₁ vq₁ res
      → (IsReady (counted vq₁) → BatchTotal n app₁ (counted vq₁))
      → BatchTotal (suc n) app vq
  unfolding dequeue_batch
  dequeue_batch-step n app app₁ vq vq₁ (some x) ready t e (a, same, bad) ih = (
    app₁,
    mark_broken vq₁,
    some x,
    rw (t, dequeue_batch, e),
    (
      0,
      omega arith,
      omega (arith, a.last_avail),
      omega (arith, a.total),
      inr (rw (← head_at-zero vq ready) (ground arith), refl),
    ),
    subst (λ y. Handed mem handle (suc n) app vq y (mark_broken vq₁) (some x)) (sym same)
        (refused (ground arith) bad),
  )
  dequeue_batch-step n app app₁ vq vq₁ none ready t e (a, g) ih =
      let b = Advanced-counted a in
      let (app', vq', res, q, r, h) = ih (IsReady-Advanced ready b) in
      (
        app',
        vq',
        res,
        rw (t, dequeue_batch, e, q),
        BatchEnds-more n vq (counted vq₁) vq' res ready b
            (rw (← head_at-zero vq ready) (ground arith)) r,
        Handed-more n app app₁ app' vq vq₁ vq' res (ground arith) g h,
      )

  -- Dispatching a batch ends, whatever the chains, for every device type that changes of the queue
  -- only what `virtq_push` does and the reference count of the memory map: either all `n` requests
  -- were taken and counted, and every head was in the queue, or exactly `k` of them were, and the
  -- next one has a head outside the queue (ERANGE, the queue not marked broken) or a chain that
  -- `walk_chain` refuses (its error, the queue marked broken). The device type has got each of those
  -- requests once, in order, with the head of the available ring and with the buffers of the
  -- descriptors of its chain, each mapped whole, and no others. The queue has as many buffers as a chain may have, and its index
  -- and its counter are in the range of their types.
  pub dequeue_batch-total : (n : ℕ) (app : App) (vq : Virtq) → IsReady vq → BatchTotal n app vq
  unfolding dequeue_batch
  dequeue_batch-total zero app vq ready = (
    app,
    vq,
    none,
    refl,
    (
      record {
        qsz = refl;
        avail = refl;
        broken = refl;
        last_avail = omega (arith, ready.wraps);
        total = omega (arith, ready.counts);
        max_chain_len = refl;
        allocated = ready.allocated;
      },
      λ i lt. absurd (omega arith),
    ),
    done,
  )
  dequeue_batch-total (suc n) app vq ready = elim (Bool-cases (leb vq.qsz (next_head vq))) [
    | inl t ↦ (
      app,
      vq,
      some erange,
      rw (t, dequeue_batch),
      (
        0,
        omega arith,
        omega (arith, ready.wraps),
        omega (arith, ready.counts),
        inl (rw (← head_at-zero vq ready) (ground arith), refl, refl),
      ),
      outside (ground arith),
    )
    | inr t ↦
        let (app₁, vq₁, res, e, a) = dequeue_one-total app vq ready in
        dequeue_batch-step n app app₁ vq vq₁ res ready t e a
          (λ r. dequeue_batch-total n app₁ (counted vq₁) r)
  ]
