-- ===== src/Blk/Dispatch.antt =====
-- The dispatch of the requests of a block device: `handle_buffers` (virtio/virtio_blk.c) as the
-- device type behind the queue.
use ya_vhost.Prelude.{
  ℕ, ◌^◌, ◌<◌, ◌≡◌, refl, sym, ◌⊎◌, inl, inr, Bool, true, false, Option, none, some, List, length,
  ◌∙◌, ap, ◌==◌, arith, Bool-cases, subst,
}
use ya_vhost.Errno.{Errno}
use ya_vhost.Virtq.State.{Virtq, Iov, GuestTables}
use ya_vhost.Virtq.Publish.{Keeps, virtq_push-Keeps}
use ya_vhost.Virtq.Dequeue.{Resubmit, dequeue_many}
use ya_vhost.Virtq.Advance.{KeepsQueue, IsReady}
use ya_vhost.Virtq.Handed.{
  Handed, done, outside, refused, given, next_head, prepared, request, IsChain-nonempty,
}
use ya_vhost.Virtq.Many.{IsAvail, ManyEnds, ManyHands, dequeue_many-total}
use ya_vhost.Blk.Device.{BlkDev, Bio, Io}
use ya_vhost.Blk.Request.{handle_buffers}
use ya_vhost.Blk.Once.{IsFreed, IsSubmitted, handle_buffers-Ends}

module _ (dispatch : Bio → Option Errno) (dev : BlkDev) where
  -- `handle_buffers` as a callback. Behind an assertion that has failed there is no state.
  unfoldable pub handle_callback : Option Io → Virtq → Iov → Option Io × Virtq
  handle_callback none vq iov = (none, vq)
  handle_callback (some io) vq iov = elim (handle_buffers dispatch dev io vq iov) [
    | none ↦ (none, vq)
    | some (io', vq') ↦ (some io', vq')
  ]

  -- `virtio_blk_dispatch_requests`
  unfoldable pub dispatch_requests :
      GuestTables
      → ((Resubmit → Resubmit → Bool) → List Resubmit → List Resubmit)
      → (now : ℕ) → List ℕ
      → Option Io × Virtq
      → Option ((Option Io × Virtq) × Option Errno)
  dispatch_requests mem qsort now reads s = dequeue_many mem handle_callback qsort now reads s

  handle_buffers-none :
      (io : Io) (vq : Virtq) (iov : Iov)
      → (length iov.buffers == 0) ≡ true
      → handle_buffers dispatch dev io vq iov ≡ none
  unfolding handle_buffers
  handle_buffers-none io vq iov e = rw (e, handle_buffers)

  Keeps-Ends :
      (io io' : Io) (vq vq' : Virtq) (iov : Iov)
      → IsFreed (Keeps vq) io iov io' vq' ⊎ IsSubmitted dev io vq iov io' vq'
      → Keeps vq vq'
  Keeps-Ends io io' vq vq' iov (inl f) = f.pushed
  Keeps-Ends io io' vq vq' iov (inr s) = subst (Keeps vq) (sym s.same_queue) refl

  -- The queue that a request leaves.
  callback-Keeps :
      (app : Option Io) (vq : Virtq) (iov : Iov) → Keeps vq (handle_callback app vq iov).1
  unfolding handle_callback
  callback-Keeps none vq iov = refl
  callback-Keeps (some io) vq iov = elim (Bool-cases (length iov.buffers == 0)) [
    | inl e ↦ rw (handle_buffers-none io vq iov e, handle_callback)
    | inr e ↦
        let (io', vq', q, r) =
          handle_buffers-Ends dispatch dev vq iov (Keeps vq) (virtq_push-Keeps vq iov 0) io
            (ground arith) in
        rw (q, handle_callback) (Keeps-Ends io io' vq vq' iov r)
  ]

  pub handle_callback-KeepsQueue : KeepsQueue handle_callback
  handle_callback-KeepsQueue = record { keeps = callback-Keeps }

  -- A request with a buffer fails no assertion.
  callback-runs :
      (io : Io) (vq : Virtq) (iov : Iov)
      → 0 < length iov.buffers
      → (io' : Io) × ((handle_callback (some io) vq iov).0 ≡ some io')
  unfolding handle_callback
  callback-runs io vq iov filled =
      let (io', vq', q, r) =
        handle_buffers-Ends dispatch dev vq iov (Keeps vq) (virtq_push-Keeps vq iov 0) io filled in
      (io', rw (q, handle_callback) refl)

  Handed-runs :
      {mem : GuestTables} {n : ℕ} {app app' : Option Io} {vq vq' : Virtq} {res : Option Errno}
      (io : Io)
      → Handed mem handle_callback n app vq app' vq' res
      → app ≡ some io
      → (io' : Io) × (app' ≡ some io')
  Handed-runs io done e = (io, e)
  Handed-runs io (outside a) e = (io, e)
  Handed-runs io (refused a b) e = (io, e)
  Handed-runs {mem = mem} {app = app} {vq = vq} io (given {vq₁ = vq₁} bs lt w c h) e =
      let (io₁, f) =
        callback-runs io (prepared vq₁ (next_head vq)) (request vq (next_head vq) bs)
          (IsChain-nonempty c) in
      Handed-runs io₁ h (
        ap (λ a. (handle_callback a (prepared vq₁ (next_head vq)) (request vq (next_head vq) bs)).0)
          e
        ∙ f)

-- `virtio_blk_dispatch_requests` ends on a queue that is not broken and has no resubmission left,
-- with no assertion of `handle_buffers` failing, whatever the requests are and whatever the backend
-- answers, once the driver leaves the available index alone: on success the queue has taken every
-- request up to the settled index; an index more than the queue size ahead is an error (EOVERFLOW)
-- that takes none; otherwise the first request whose head is outside the queue (ERANGE) or whose
-- chain `walk_chain` refuses (its error, the queue broken) stops it. `handle_buffers` has got each
-- request before that once, in order, with its head and the buffers of its chain, each mapped
-- whole, and no others. The queue has as many buffers as a chain may have, and the indexes and the
-- counter are in the range of their types.
pub dispatch_requests-total :
    (dispatch : Bio → Option Errno) (dev : BlkDev) (mem : GuestTables)
    (qsort : (Resubmit → Resubmit → Bool) → List Resubmit → List Resubmit) (now : ℕ)
    (reads : List ℕ) (io : Io) (vq : Virtq) (avail : ℕ)
    → IsReady vq
    → vq.broken ≡ false
    → vq.inflight_check ≡ false
    → IsAvail vq reads avail
    → avail < 2 ^ 16
    → let callback = handle_callback dispatch dev in
      let law = handle_callback-KeepsQueue dispatch dev in
      (io' : Io) × (vq' : Virtq) × (res : Option Errno) × (dispatch_requests dispatch dev mem qsort
          now reads
          (some io, vq)
        ≡ some ((some io', vq'), res))
      × ManyEnds mem callback qsort law vq avail vq' res
      × ManyHands mem callback qsort law (some io) vq avail (some io') vq' res
unfolding dispatch_requests
dispatch_requests-total dispatch dev mem qsort now reads io vq avail ready b c settled small =
    let callback = handle_callback dispatch dev in
    let law = handle_callback-KeepsQueue dispatch dev in
    let (app', vq', res, q, ends, hands) =
      dequeue_many-total mem callback qsort law now reads (some io) vq avail ready b c settled
        small in
    let (io', e) = hands-run app' vq' res hands in
    (
      io',
      vq',
      res,
      subst (λ a. dequeue_many mem callback qsort now reads (some io, vq) ≡ some ((a, vq'), res)) e
          q,
      ends,
      subst (λ a. ManyHands mem callback qsort law (some io) vq avail a vq' res) e hands,
    )
  where
    hands-run :
        (app' : Option Io) (vq' : Virtq) (res : Option Errno)
        → ManyHands mem
            (handle_callback dispatch dev)
            qsort
            (handle_callback-KeepsQueue dispatch dev)
            (some io)
            vq
            avail
            app'
            vq'
            res
        → (io' : Io) × (app' ≡ some io')
    hands-run app' vq' res (inl (over, e)) = (io, e)
    hands-run app' vq' res (inr (vq₃, _, h)) = Handed-runs dispatch dev io h refl
