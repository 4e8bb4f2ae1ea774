-- ===== src/Fs/Request.antt =====
-- The handling of a file system request (virtio/virtio_fs.c).
use ya_vhost.Prelude.{
  length, ◌==◌, if◌then◌else◌, ℕ, ◌+◌, Bool, not, Option, none, some, List, [], ◌∷◌, ltb, u32,
}
use ya_vhost.Virtq.State.{Buffer, Virtq, Iov, GuestTables}
use ya_vhost.Virtq.Push.{virtq_push}
use ya_vhost.Virtq.Dequeue.{Resubmit, dequeue_many}
use ya_vhost.Errno.{Errno}
use ya_vhost.Blk.Device.{IoResult, success, ioerr, canceled, read_le}
use ya_vhost.Fs.Device.{in_header_size, out_header_size, FsBio, FsIo, write_le}

abbrev pub free_iov : FsIo → Iov → FsIo
free_iov io iov = record io { freed = iov ∷ io.freed }

-- A push and the release of the request; `none`, here and below, would be a push that does not end.
unfoldable pub push_and_free : FsIo → Virtq → Iov → (len : ℕ) → Option (FsIo × Virtq)
push_and_free io vq iov len = elim (virtq_push vq iov len) [
  | none ↦ none
  | some vq' ↦ some (free_iov io iov, vq')
]

-- `abort_request`
unfoldable pub abort_request : FsIo → Virtq → Iov → Option (FsIo × Virtq)
unfolding push_and_free
abort_request io vq iov = push_and_free io vq iov 0

-- `vbio->out_hdr ? vbio->out_hdr->len : 0`
unfoldable pub reply_length : FsIo → Option ℕ → ℕ
reply_length io none = 0
reply_length io (some ptr) = read_le io.memory ptr 4

-- `complete_request`, for a request of the queue `vq`.
unfoldable pub complete_request : FsIo → Virtq → FsBio → IoResult → Option (FsIo × Virtq)
complete_request io vq bio canceled = some (free_iov io bio.iov, vq)
complete_request io vq bio success = push_and_free io vq bio.iov (reply_length io bio.out_hdr)
complete_request io vq bio ioerr = push_and_free io vq bio.iov (reply_length io bio.out_hdr)

-- The loops of `handle_buffers` that go past the buffers of one direction.
unfoldable pub skip_read_only : List Buffer → List Buffer
skip_read_only [] = []
skip_read_only (b ∷ bs) = if not b.write_only then skip_read_only bs else b ∷ bs

unfoldable pub skip_write_only : List Buffer → List Buffer
skip_write_only [] = []
skip_write_only (b ∷ bs) = if b.write_only then skip_write_only bs else b ∷ bs

-- The part of `handle_buffers` on the OUT buffers: none if they are wrong, otherwise the header.
unfoldable pub parse_out : List Buffer → Option (Option ℕ)
parse_out [] = some none
parse_out (b ∷ bs) =
    if ltb b.len out_header_size
    then none
    else elim (skip_write_only (b ∷ bs)) [ [] ↦ some (some b.base) | _ ∷ _ ↦ none ]

-- The part of `handle_buffers` that parses the buffers of a request.
unfoldable pub parse : List Buffer → Option (Option ℕ)
parse [] = none
parse (b ∷ bs) =
    if b.write_only
    then none
    else if ltb b.len in_header_size
    then none
    else parse_out (skip_read_only (b ∷ bs))

-- `out->len`, `out->error` and `out->unique` of a request that was not submitted; `in` is at `src`.
unfoldable pub write_error : (ℕ → ℕ) → (src : ℕ) → (res : ℕ) → Option ℕ → ℕ → ℕ
write_error memory src res none = memory
write_error memory src res (some ptr) =
    let sized = write_le memory ptr 4 out_header_size in
    let failed = write_le sized (ptr + 4) 4 (u32 res) in
    write_le failed (ptr + 8) 8 (read_le failed (src + 8) 8)

abbrev pub first_base : List Buffer → ℕ
first_base [] = 0
first_base (b ∷ bs) = b.base

-- `dispatch` is the one of the device: the bits of the number that it returns for a request.
module _ (dispatch : FsBio → ℕ) where
  -- `handle_buffers` for a request whose buffers are right.
  unfoldable pub submit : FsIo → Virtq → Iov → Option ℕ → Option (FsIo × Virtq)
  submit io vq iov out =
      let bio : FsBio = record { iov = iov; out_hdr = out; buffers = iov.buffers } in
      let res = dispatch bio in
      if res == 0
      then some (record io { submitted = bio ∷ io.submitted }, vq)
      else complete_request
          (record io { memory = write_error io.memory (first_base iov.buffers) res out }) vq bio
          success

  -- `handle_buffers`; `none` is also the failed assertion that there is a buffer.
  unfoldable pub handle_buffers : FsIo → Virtq → Iov → Option (FsIo × Virtq)
  handle_buffers io vq iov = if length iov.buffers == 0 then none else elim (parse iov.buffers) [
    | none ↦ abort_request io vq iov
    | some out ↦ submit io vq iov out
  ]

  -- `handle_buffers` as a callback. Behind an assertion that has failed there is no state.
  unfoldable pub handle_callback : Option FsIo → Virtq → Iov → Option FsIo × Virtq
  handle_callback none vq iov = (none, vq)
  handle_callback (some io) vq iov = elim (handle_buffers io vq iov) [
    | none ↦ (none, vq)
    | some (io', vq') ↦ (some io', vq')
  ]

  -- `virtio_fs_dispatch_requests`
  unfoldable pub dispatch_requests :
      GuestTables
      → ((Resubmit → Resubmit → Bool) → List Resubmit → List Resubmit)
      → (now : ℕ) → List ℕ
      → Option FsIo × Virtq
      → Option ((Option FsIo × Virtq) × Option Errno)
  dispatch_requests mem qsort now reads s = dequeue_many mem handle_callback qsort now reads s
