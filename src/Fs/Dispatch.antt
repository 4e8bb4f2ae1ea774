-- ===== src/Fs/Dispatch.antt =====
-- The dispatch of the requests of a file system device: `handle_buffers` (virtio/virtio_fs.c) as
-- the device type behind the queue.
use ya_vhost.Prelude.{
  ℕ, ◌^◌, ◌<◌, ◌≡◌, refl, sym, Bool, false, true, Option, some, none, List, subst, ap, ◌∙◌, length,
  ◌==◌, arith, Bool-cases, inl, inr,
}
use ya_vhost.Errno.{Errno}
use ya_vhost.Virtq.State.{Virtq, Iov, GuestTables}
use ya_vhost.Virtq.Publish.{Keeps, virtq_push-Keeps}
use ya_vhost.Virtq.Dequeue.{Resubmit, dequeue_many}
use ya_vhost.Virtq.Advance.{KeepsQueue, IsReady}
use ya_vhost.Virtq.Handed.{
  Handed, done, outside, refused, given, next_head, prepared, request, IsChain-nonempty,
}
use ya_vhost.Virtq.Many.{IsAvail, ManyEnds, ManyHands, dequeue_many-total}
use ya_vhost.Fs.Device.{FsBio, FsIo}
use ya_vhost.Fs.Request.{handle_buffers, handle_callback, dispatch_requests}
use ya_vhost.Fs.Once.{Outcome, aborted, refused, taken, handle_buffers-Ends}

module _ (dispatch : FsBio → ℕ) where
  handle_buffers-none :
      (io : FsIo) (vq : Virtq) (iov : Iov)
      → (length iov.buffers == 0) ≡ true
      → handle_buffers dispatch io vq iov ≡ none
  unfolding handle_buffers
  handle_buffers-none io vq iov e = rw (e, handle_buffers)

  Keeps-Outcome :
      (io io' : FsIo) (vq vq' : Virtq) (iov : Iov)
      → Outcome dispatch (λ len. Keeps vq) io vq iov io' vq'
      → Keeps vq vq'
  Keeps-Outcome io io' vq vq' iov (aborted bad back same) = back.pushed
  Keeps-Outcome io io' vq vq' iov (refused out framed res back) = back.pushed
  Keeps-Outcome io io' vq vq' iov (taken out framed res io_same same) =
      subst (Keeps vq) (sym same) refl

  -- The queue that a request leaves.
  callback-Keeps :
      (app : Option FsIo) (vq : Virtq) (iov : Iov)
      → Keeps vq (handle_callback dispatch app vq iov).1
  unfolding handle_callback
  callback-Keeps none vq iov = refl
  callback-Keeps (some io) vq iov = elim (Bool-cases (length iov.buffers == 0)) [
    | inl e ↦ rw (handle_buffers-none io vq iov e, handle_callback)
    | inr e ↦
        let (io', vq', q, r) =
          handle_buffers-Ends dispatch vq iov (λ len. Keeps vq) (virtq_push-Keeps vq iov) io
            (ground arith) in
        rw (q, handle_callback) (Keeps-Outcome io io' vq vq' iov r)
  ]

  pub fs_handle_callback-KeepsQueue : KeepsQueue (handle_callback dispatch)
  fs_handle_callback-KeepsQueue = record { keeps = callback-Keeps }

  -- A request with a buffer fails no assertion.
  callback-runs :
      (io : FsIo) (vq : Virtq) (iov : Iov)
      → 0 < length iov.buffers
      → (io' : FsIo) × ((handle_callback dispatch (some io) vq iov).0 ≡ some io')
  unfolding handle_callback
  callback-runs io vq iov filled =
      let (io', vq', q, r) =
        handle_buffers-Ends dispatch vq iov (λ len. Keeps vq) (virtq_push-Keeps vq iov) io filled in
      (io', rw (q, handle_callback) refl)

  Handed-runs :
      {mem : GuestTables} {n : ℕ} {app app' : Option FsIo} {vq vq' : Virtq} {res : Option Errno}
      (io : FsIo)
      → Handed mem (handle_callback dispatch) n app vq app' vq' res
      → app ≡ some io
      → (io' : FsIo) × (app' ≡ some io')
  Handed-runs io done e = (io, e)
  Handed-runs io (outside a) e = (io, e)
  Handed-runs io (refused a b) e = (io, e)
  Handed-runs {mem = mem} {app = app} {vq = vq} io (given {vq₁ = vq₁} bs lt w c h) e =
      let (io₁, f) =
        callback-runs io (prepared vq₁ (next_head vq)) (request vq (next_head vq) bs)
          (IsChain-nonempty c) in
      Handed-runs io₁ h (
        ap
          (λ a.
            (handle_callback dispatch a (prepared vq₁ (next_head vq))
              (request vq (next_head vq) bs)).0)
          e
        ∙ f)

-- `virtio_fs_dispatch_requests` ends, as that of a block device does, with no assertion that there is a
-- buffer failing, on a queue that is not broken and has no resubmission left, whatever the requests
-- are and whatever the backend answers, once the driver leaves the available index alone: `ManyEnds`
-- and `ManyHands` say how. The queue has as many buffers as a chain may have, and the indexes and the
-- counter are in the range of their types.
pub fs_dispatch_requests-total :
    (dispatch : FsBio → ℕ) (mem : GuestTables)
    (qsort : (Resubmit → Resubmit → Bool) → List Resubmit → List Resubmit) (now : ℕ)
    (reads : List ℕ) (io : FsIo) (vq : Virtq) (avail : ℕ)
    → IsReady vq
    → vq.broken ≡ false
    → vq.inflight_check ≡ false
    → IsAvail vq reads avail
    → avail < 2 ^ 16
    → let callback = handle_callback dispatch in
      let law = fs_handle_callback-KeepsQueue dispatch in
      (io' : FsIo) × (vq' : Virtq) × (res : Option Errno) × (dispatch_requests dispatch mem qsort
          now reads
          (some io, vq)
        ≡ some ((some io', vq'), res))
      × ManyEnds mem callback qsort law vq avail vq' res
      × ManyHands mem callback qsort law (some io) vq avail (some io') vq' res
unfolding dispatch_requests
fs_dispatch_requests-total dispatch mem qsort now reads io vq avail ready b c settled small =
    let callback = handle_callback dispatch in
    let law = fs_handle_callback-KeepsQueue dispatch in
    let (app', vq', res, q, ends, hands) =
      dequeue_many-total mem callback qsort law now reads (some io) vq avail ready b c settled
        small in
    let (io', e) = hands-run app' vq' res hands in
    (
      io',
      vq',
      res,
      subst (λ a. dequeue_many mem callback qsort now reads (some io, vq) ≡ some ((a, vq'), res)) e
          q,
      ends,
      subst (λ a. ManyHands mem callback qsort law (some io) vq avail a vq' res) e hands,
    )
  where
    hands-run :
        (app' : Option FsIo) (vq' : Virtq) (res : Option Errno)
        → ManyHands mem
            (handle_callback dispatch)
            qsort
            (fs_handle_callback-KeepsQueue dispatch)
            (some io)
            vq
            avail
            app'
            vq'
            res
        → (io' : FsIo) × (app' ≡ some io')
    hands-run app' vq' res (inl (over, e)) = (io, e)
    hands-run app' vq' res (inr (vq₃, _, h)) = Handed-runs dispatch io h refl
