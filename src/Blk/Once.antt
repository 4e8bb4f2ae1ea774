-- ===== src/Blk/Once.antt =====
-- Every request that `handle_buffers` (virtio/virtio_blk.c) gets is completed once.
use ya_vhost.Prelude.{
  ℕ, ◌+◌, ◌*◌, ◌/◌, ◌^◌, ◌<◌, ◌≡◌, refl, ◌⊎◌, inl, inr, true, false, not, ◌&&◌, Option, some, List,
  [], ◌∷◌, ltb, ◌==◌, ==_iff, ◌++◌, ◌-◌, suc, take, drop, ap, sym, u64, length, get_or, arith, All,
  Bool-cases, Option-cases,
}
use ya_vhost.Errno.{Errno}
use ya_vhost.Virtq.State.{Buffer, Virtq, Iov}
use ya_vhost.Virtq.Inflight.{no_buffer}
use ya_vhost.Virtq.Push.{virtq_push}
use ya_vhost.Virtq.Publish.{IsPushed, virtq_push-IsPushed}
use ya_vhost.Blk.Device.{
  sector_size, status_ioerr, status_unsupp, BlkDev, ReqHdr, IoType, bdev_read, bdev_write, Bio, Io,
  req_hdr,
}
use ya_vhost.Blk.Request.{
  abort_request, complete_req, set_status, can_read, check_status_buffer, last_buffer, is_valid_req,
  data_length, data_buffers, is_write, handle_inout, handle_getid, handle_buffers,
}

-- The request was freed, and the backend has got nothing; `P` says how the queue is.
pub record IsFreed (P : Virtq → Type 0) (io : Io) (iov : Iov) (io' : Io) (vq' : Virtq)
    : Type 0 where
  pub pushed : P vq'
  pub freed : io'.freed ≡ iov ∷ io.freed
  pub submitted : io'.submitted ≡ io.submitted

-- The request was pushed with length 0 and freed, and the backend has got nothing.
abbrev pub IsCompleted : Io → Virtq → Iov → Io → Virtq → Type 0
IsCompleted io vq iov io' vq' = IsFreed (IsPushed vq iov.used_head 0) io iov io' vq'

-- The backend may carry the request out: the device can be written if the request writes, each of
-- its data buffers is for its direction, and the sectors pass the check against the capacity.
pub record IsAcceptable (dev : BlkDev) (bio : Bio) : Type 0 where
  pub writable : dev.bdev.readonly && is_write bio.type ≡ false
  pub directed : All (λ (b : Buffer). b.write_only ≡ not (is_write bio.type)) bio.buffers
  pub bytes : ℕ
  pub total : data_length bio.type bio.buffers 0 ≡ some bytes
  pub whole : bytes ≡ bio.total_sectors * sector_size
  pub valid : is_valid_req bio.first_sector bytes dev.config.capacity ≡ true

-- What the first buffer of a request says, with the last one for its status.
pub record HasHeader (io : Io) (iov : Iov) (type : IoType) (sector : ℕ) : Type 0 where
  pub whole : (get_or iov.buffers 0 no_buffer).len ≡ 16
  pub readable : (get_or iov.buffers 0 no_buffer).write_only ≡ false
  pub status_byte : (last_buffer iov).len ≡ 1
  pub status_writable : (last_buffer iov).write_only ≡ true
  pub typed :
      let code = (req_hdr io.memory (get_or iov.buffers 0 no_buffer).base).type in
      ((code ≡ 0) × (type ≡ bdev_read)) ⊎ ((code ≡ 1) × (type ≡ bdev_write))
  pub located : (req_hdr io.memory (get_or iov.buffers 0 no_buffer).base).sector ≡ sector

-- The backend has got the request, which is neither pushed nor freed, and no byte was written.
pub record IsSubmitted (dev : BlkDev) (io : Io) (vq : Virtq) (iov : Iov) (io' : Io) (vq' : Virtq)
    : Type 0 where
  pub bio : Bio
  pub same_queue : vq' ≡ vq
  pub same_iov : bio.iov ≡ iov
  pub header : HasHeader io iov bio.type bio.first_sector
  pub all_buffers :
      iov.buffers ≡ get_or iov.buffers 0 no_buffer ∷ (bio.buffers ++ last_buffer iov ∷ [])
  pub got : io' ≡ record io { submitted = bio ∷ io.submitted }
  pub acceptable : IsAcceptable dev bio

directed :
    (type : IoType) (bs : List Buffer) (len : ℕ) {n : ℕ}
    → data_length type bs len ≡ some n
    → All (λ (b : Buffer). b.write_only ≡ not (is_write type)) bs
unfolding data_length
directed type [] len e = tt
directed bdev_read (b ∷ bs) len {n} e =
    (ground arith, directed bdev_read bs (u64 (len + b.len)) {n = n} (ground arith))
directed bdev_write (b ∷ bs) len {n} e =
    (ground arith, directed bdev_write bs (u64 (len + b.len)) {n = n} (ground arith))

valid_whole :
    (sector len capacity : ℕ)
    → is_valid_req sector len capacity ≡ true
    → len ≡ len / sector_size * sector_size
unfolding is_valid_req
valid_whole sector len capacity e = ground arith

take-last :
    {A : Type 0} (x d : A) (xs : List A)
    → take (length xs) (x ∷ xs) ++ get_or (x ∷ xs) (length xs) d ∷ [] ≡ x ∷ xs
take-last x d [] = refl
take-last x d (y ∷ xs) = ap (λ l. x ∷ l) (take-last y d xs)

-- All the buffers of a request are its first, its data and its last.
data_buffers-all :
    (iov : Iov)
    → ltb (length iov.buffers) 3 ≡ false
    → iov.buffers ≡ get_or iov.buffers 0 no_buffer ∷ (data_buffers iov ++ last_buffer iov ∷ [])
data_buffers-all iov enough = go iov.buffers enough
  where
    go :
        (bs : List Buffer)
        → ltb (length bs) 3 ≡ false
        → bs
          ≡ get_or bs 0 no_buffer
            ∷ (take (length bs - 2) (drop 1 bs) ++ get_or bs (length bs - 1) no_buffer ∷ [])
    go [] e = absurd (ground (arith, e))
    go (b ∷ []) e = absurd (ground (arith, e))
    go (b ∷ c ∷ bs) e =
        let rest : suc (suc (length bs)) - 2 ≡ length bs = omega arith in
        let last : suc (suc (length bs)) - 1 ≡ suc (length bs) = omega arith in
        rw (rest, last) (ap (λ l. b ∷ l) (sym (take-last c no_buffer bs)))

-- `P` is what a push of the request makes of the queue.
module _ (dispatch : Bio → Option Errno) (dev : BlkDev) (vq : Virtq) (iov : Iov)
    (P : Virtq → Type 0) (push : (vq' : Virtq) × (virtq_push vq iov 0 ≡ some vq') × P vq') where
  abbrev pub Ends : Io → Option (Io × Virtq) → Type 0
  Ends io out =
      (io' : Io) × (vq' : Virtq) × (out ≡ some (io', vq'))
      × (IsFreed P io iov io' vq' ⊎ IsSubmitted dev io vq iov io' vq')

  complete_req-Ends :
      (io io₁ : Io) (status : ℕ)
      → io₁.freed ≡ io.freed
      → io₁.submitted ≡ io.submitted
      → Ends io (complete_req io₁ vq iov status)
  unfolding complete_req
  complete_req-Ends io io₁ status f s =
      let (vq', e, p) = push in
      (
        record (set_status io₁ iov status) { freed = iov ∷ io₁.freed },
        vq',
        rw (e, complete_req),
        inl (record { pushed = p; freed = rw f; submitted = s }),
      )

  abort_request-Ends : (io : Io) → Ends io (abort_request io vq iov)
  unfolding abort_request
  abort_request-Ends io =
      let (vq', e, p) = push in
      (
        record io { freed = iov ∷ io.freed },
        vq',
        rw (e, abort_request),
        inl (record { pushed = p; freed = refl; submitted = refl }),
      )

  handle_inout-Ends :
      (io : Io) (type : IoType) (req : ReqHdr)
      → HasHeader io iov type req.sector
      → Ends io (handle_inout dispatch dev type req io vq iov)
  unfolding handle_inout
  handle_inout-Ends io type req header = elim (Bool-cases (dev.bdev.readonly && is_write type)) [
    | inl t ↦ rw (t, handle_inout) fail
    | inr t ↦ elim (Bool-cases (ltb (length iov.buffers) 3)) [
      | inl u ↦ rw (t, handle_inout, u) fail
      | inr u ↦ elim (Option-cases (data_length type (data_buffers iov) 0)) [
        | inl v ↦ rw (t, handle_inout, u, v) fail
        | inr (len, v) ↦ elim (Bool-cases (is_valid_req req.sector len dev.config.capacity)) [
          | inr w ↦ rw (t, handle_inout, u, v, w) fail
          | inl w ↦ elim (Option-cases (dispatch (bio len))) [
            | inr (e, x) ↦ rw (t, handle_inout, u, v, w, x) fail
            | inl x ↦ (
              record io { submitted = bio len ∷ io.submitted },
              vq,
              rw (t, handle_inout, u, v, w, x),
              inr (record {
                bio = bio len;
                same_queue = refl;
                same_iov = refl;
                header = header;
                all_buffers = data_buffers-all iov u;
                got = refl;
                acceptable = record {
                  writable = t;
                  directed = directed type (data_buffers iov) 0 v;
                  bytes = len;
                  total = v;
                  whole = valid_whole req.sector len dev.config.capacity w;
                  valid = w;
                };
              }),
            )
          ]
        ]
      ]
    ]
  ]
    where
      bio : ℕ → Bio
      bio len = record {
        iov = iov;
        type = type;
        first_sector = req.sector;
        total_sectors = len / sector_size;
        buffers = data_buffers iov;
      }

      fail : Ends io (complete_req io vq iov status_ioerr)
      fail = complete_req-Ends io io status_ioerr refl refl

  handle_getid-same :
      (io : Io)
      → ((handle_getid dispatch dev io iov).0.freed ≡ io.freed)
        × ((handle_getid dispatch dev io iov).0.submitted ≡ io.submitted)
  unfolding handle_getid
  handle_getid-same io = ground arith

  pub handle_buffers-Ends :
      (io : Io) → 0 < length iov.buffers → Ends io (handle_buffers dispatch dev io vq iov)
  unfolding handle_buffers check_status_buffer
  handle_buffers-Ends io some_buffer = elim (Bool-cases (check_status_buffer (last_buffer iov))) [
    | inr t ↦ rw (filled, t, handle_buffers) (abort_request-Ends io)
    | inl t ↦ elim (Bool-cases (can_read req_buf)) [
      | inr u ↦ rw (filled, t, handle_buffers, u) (abort_request-Ends io)
      | inl u ↦ elim (Bool-cases (req_buf.len == 16)) [
        | inr v ↦ rw (filled, t, handle_buffers, u, v) (abort_request-Ends io)
        | inl v ↦ elim (Bool-cases (req.type == 0)) [
          | inl w ↦
              rw (filled, t, handle_buffers, u, v, w)
                (handle_inout-Ends io bdev_read req
                  (header t u v (inl ((==_iff req.type 0).0 w, refl))))
          | inr w ↦ elim (Bool-cases (req.type == 1)) [
            | inl x ↦
                rw (filled, t, handle_buffers, u, v, w, x)
                  (handle_inout-Ends io bdev_write req
                    (header t u v (inr ((==_iff req.type 1).0 x, refl))))
            | inr x ↦ elim (Bool-cases (req.type == 8)) [
              | inl y ↦
                  rw (filled, t, handle_buffers, u, v, w, x, y)
                    (complete_req-Ends io (handle_getid dispatch dev io iov).0
                      (handle_getid dispatch dev io iov).1 (handle_getid-same io).0
                      (handle_getid-same io).1)
              | inr y ↦
                  rw (filled, t, handle_buffers, u, v, w, x, y)
                    (complete_req-Ends io io status_unsupp refl refl)
            ]
          ]
        ]
      ]
    ]
  ]
    where
      req_buf : Buffer
      req_buf = get_or iov.buffers 0 no_buffer

      req : ReqHdr
      req = req_hdr io.memory req_buf.base

      filled : (length iov.buffers == 0) ≡ false
      filled = ground arith

      header :
          {type : IoType}
          → check_status_buffer (last_buffer iov) ≡ true
          → can_read req_buf ≡ true
          → (req_buf.len == 16) ≡ true
          → ((req.type ≡ 0) × (type ≡ bdev_read)) ⊎ ((req.type ≡ 1) × (type ≡ bdev_write))
          → HasHeader io iov type req.sector
      header t u v typed = record {
        whole = ground (arith, v);
        readable = ground (arith, u);
        status_byte = ground (arith, t);
        status_writable = ground (arith, t);
        typed = typed;
        located = refl;
      }

-- Every request with a buffer is handled, and one of two things happens: it is completed, by one
-- push of length 0 and one release, and the backend has got nothing; or the backend has got it
-- once, with the type and the sector of its header and with all its buffers but the first, the
-- header, and the last, the status byte, and neither the queue nor the memory has changed. The backend only gets requests
-- whose data buffers are all for its direction, whose sectors pass the check, and which do not
-- write to a device that is read-only. The used index is a 16-bit number.
pub handle_buffers-once :
    (dispatch : Bio → Option Errno) (dev : BlkDev) (io : Io) (vq : Virtq) (iov : Iov)
    → vq.used.idx < 2 ^ 16
    → 0 < length iov.buffers
    → (io' : Io) × (vq' : Virtq) × (handle_buffers dispatch dev io vq iov ≡ some (io', vq'))
      × (IsCompleted io vq iov io' vq' ⊎ IsSubmitted dev io vq iov io' vq')
handle_buffers-once dispatch dev io vq iov small =
    handle_buffers-Ends dispatch dev vq iov (IsPushed vq iov.used_head 0)
      (virtq_push-IsPushed vq iov 0 small) io
