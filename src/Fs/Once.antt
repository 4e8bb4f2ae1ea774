-- ===== src/Fs/Once.antt =====
-- Every request that `handle_buffers` (virtio/virtio_fs.c) gets is given back once.
use ya_vhost.Prelude.{
  ℕ, zero, suc, ◌+◌, ◌/◌, ◌%◌, ◌^◌, ◌<◌, ◌≡◌, ◌≢◌, refl, ◌∙◌, inl, inr, length, false, Option, none,
  some, ◌∷◌, ◌==◌, u32, arith, Bool-cases, Option-cases, ==_iff,
}
use ya_vhost.Virtq.State.{Virtq, Iov}
use ya_vhost.Virtq.Push.{virtq_push}
use ya_vhost.Virtq.Publish.{IsPushed, virtq_push-IsPushed}
use ya_vhost.Blk.Device.{read_le, write_byte}
use ya_vhost.Fs.Device.{out_header_size, FsBio, FsIo, write_le}
use ya_vhost.Fs.Request.{
  free_iov, push_and_free, abort_request, reply_length, complete_request, parse, write_error,
  first_base, submit, handle_buffers,
}
use ya_vhost.Fs.Framing.{IsFramed, parse_iff}

-- A number that is written is read back, whatever is written behind it afterwards.
write_le-below :
    (memory : ℕ → ℕ) (ptr n value p : ℕ) → p < ptr → write_le memory ptr n value p ≡ memory p
unfolding write_le
write_le-below memory ptr zero value p lt = refl
write_le-below memory ptr (suc n) value p lt =
    ground (arith, write_le-below (write_byte memory ptr (value % 256)) (ptr + 1) n (value / 256) p)

read_le-agree :
    (m m' : ℕ → ℕ) (ptr n : ℕ)
    → ((p : ℕ) → p < ptr + n → m p ≡ m' p)
    → read_le m ptr n ≡ read_le m' ptr n
unfolding read_le
read_le-agree m m' ptr zero h = refl
read_le-agree m m' ptr (suc n) h =
    ground (arith, h ptr (omega arith), read_le-agree m m' (ptr + 1) n (λ p lt. h p (omega arith)))

read_le-write_le : (memory : ℕ → ℕ) (ptr : ℕ) → read_le (write_le memory ptr 4 16) ptr 4 ≡ 16
unfolding read_le write_le
read_le-write_le memory ptr = ground arith

-- The length that a reply with an error has: that of its header.
abbrev pub error_length : Option ℕ → ℕ
error_length none = 0
error_length (some ptr) = out_header_size

reply_length-write_error :
    (io : FsIo) (src res : ℕ) (out : Option ℕ)
    → reply_length (record io { memory = write_error io.memory src res out }) out ≡ error_length out
unfolding reply_length write_error
reply_length-write_error io src res none = refl
reply_length-write_error io src res (some ptr) =
    let sized = write_le io.memory ptr 4 out_header_size in
    let failed = write_le sized (ptr + 4) 4 (u32 res) in
    read_le-agree (write_le failed (ptr + 8) 8 (read_le failed (src + 8) 8)) sized ptr 4 (λ p lt.
      write_le-below failed (ptr + 8) 8 (read_le failed (src + 8) 8) p (omega arith)
      ∙ write_le-below sized (ptr + 4) 4 (u32 res) p lt)
    ∙ read_le-write_le io.memory ptr

-- What is left of a request that is not with the backend: it was pushed and freed.
pub record IsGivenBack (P : Virtq → Type 0) (io : FsIo) (iov : Iov) (io' : FsIo) (vq' : Virtq)
    : Type 0 where
  pub pushed : P vq'
  pub freed : io'.freed ≡ iov ∷ io.freed
  pub submitted : io'.submitted ≡ io.submitted

-- The three ends of a request. `P len` is what a push of it with the length `len` makes of the
-- queue.
pub data Outcome (dispatch : FsBio → ℕ) (P : ℕ → Virtq → Type 0) (io : FsIo) (vq : Virtq)
    (iov : Iov) (io' : FsIo) (vq' : Virtq) : Type 0 where
  -- It is not well framed: it is given back with length 0, and no byte was written.
  aborted :
      ((out : Option ℕ) → ¬ IsFramed iov.buffers out)
      → IsGivenBack (P 0) io iov io' vq'
      → io'.memory ≡ io.memory
      → Outcome dispatch P io vq iov io' vq'
  -- The backend refuses it: it is given back with the length of an error header.
  refused :
      (out : Option ℕ)
      → IsFramed iov.buffers out
      → dispatch (record { iov = iov; out_hdr = out; buffers = iov.buffers }) ≢ 0
      → IsGivenBack (P (error_length out)) io iov io' vq'
      → Outcome dispatch P io vq iov io' vq'
  -- The backend has it, and nothing else has changed.
  taken :
      (out : Option ℕ)
      → IsFramed iov.buffers out
      → dispatch (record { iov = iov; out_hdr = out; buffers = iov.buffers }) ≡ 0
      → io' ≡ record io {
        submitted = record { iov = iov; out_hdr = out; buffers = iov.buffers } ∷ io.submitted;
      }
      → vq' ≡ vq
      → Outcome dispatch P io vq iov io' vq'

module _ (dispatch : FsBio → ℕ) (vq : Virtq) (iov : Iov) (P : ℕ → Virtq → Type 0)
    (push : (len : ℕ) → (vq' : Virtq) × (virtq_push vq iov len ≡ some vq') × P len vq') where
  abbrev pub Ends : FsIo → Option (FsIo × Virtq) → Type 0
  Ends io out =
      (io' : FsIo) × (vq' : Virtq) × (out ≡ some (io', vq')) × Outcome dispatch P io vq iov io' vq'

  push_and_free-some :
      (io : FsIo) (len : ℕ) → push_and_free io vq iov len ≡ some (free_iov io iov, (push len).0)
  unfolding push_and_free
  push_and_free-some io len = rw ((push len).1, push_and_free) refl

  abort_request-Ends :
      (io : FsIo)
      → ((out : Option ℕ) → ¬ IsFramed iov.buffers out)
      → Ends io (abort_request io vq iov)
  unfolding abort_request
  abort_request-Ends io bad =
      let (vq', e, p) = push 0 in
      (
        record io { freed = iov ∷ io.freed },
        vq',
        rw (push_and_free-some io 0, abort_request) refl,
        aborted bad (record { pushed = p; freed = refl; submitted = refl }) refl,
      )

  submit-Ends :
      (io : FsIo) (out : Option ℕ)
      → IsFramed iov.buffers out
      → Ends io (submit dispatch io vq iov out)
  unfolding submit complete_request
  submit-Ends io out framed = elim (Bool-cases (dispatch bio == 0)) [
    | inl t ↦ (
      record io { submitted = bio ∷ io.submitted },
      vq,
      rw (t, submit) refl,
      taken out framed ((==_iff _ 0).0 t) refl refl,
    )
    | inr t ↦
        let io₁ = record io {
          memory = write_error io.memory (first_base iov.buffers) (dispatch bio) out;
        } in
        let (vq', e, p) = push (error_length out) in
        let len = reply_length-write_error io (first_base iov.buffers) (dispatch bio) out in
        (
          record io₁ { freed = iov ∷ io.freed },
          vq',
          rw (t, submit, len, push_and_free-some io₁ (error_length out)) refl,
          refused out framed (λ z. ground arith)
              (record { pushed = p; freed = refl; submitted = refl }),
        )
  ]
    where
      bio : FsBio
      bio = record { iov = iov; out_hdr = out; buffers = iov.buffers }

  pub handle_buffers-Ends :
      (io : FsIo) → 0 < length iov.buffers → Ends io (handle_buffers dispatch io vq iov)
  unfolding handle_buffers
  handle_buffers-Ends io some_buffer =
      let filled : (length iov.buffers == 0) ≡ false = ground arith in
      elim (Option-cases (parse iov.buffers)) [
        | inl e ↦
            rw (filled, e, handle_buffers)
              (abort_request-Ends io (λ out f. ground (arith, (parse_iff iov.buffers out).1 f)))
        | inr (out, e) ↦
            rw (filled, e, handle_buffers) (submit-Ends io out ((parse_iff iov.buffers out).0 e))
      ]

-- With one request, which has a buffer, `handle_buffers` does one of three things: it gives back what is not well
-- framed with length 0 and writes no byte; it gives back what the backend refuses with the length
-- of a reply header, or 0 without one; or it leaves the request with the backend and the queue as
-- it was. Whatever is given back is pushed to the used ring and freed once, and is not with the
-- backend. The index of the used ring is a 16-bit number.
pub fs_handle_buffers-once :
    (dispatch : FsBio → ℕ) (io : FsIo) (vq : Virtq) (iov : Iov)
    → vq.used.idx < 2 ^ 16
    → 0 < length iov.buffers
    → (io' : FsIo) × (vq' : Virtq) × (handle_buffers dispatch io vq iov ≡ some (io', vq'))
      × Outcome dispatch (IsPushed vq iov.used_head) io vq iov io' vq'
fs_handle_buffers-once dispatch io vq iov small =
    handle_buffers-Ends dispatch vq iov (IsPushed vq iov.used_head)
      (λ len. virtq_push-IsPushed vq iov len small) io
