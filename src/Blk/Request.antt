-- ===== src/Blk/Request.antt =====
-- The handling of a block request (virtio/virtio_blk.c).
use ya_vhost.Prelude.{
  ℕ, ◌+◌, ◌-◌, ◌/◌, ◌%◌, Bool, true, false, not, ◌&&◌, ◌||◌, Option, none, some, List, [], ◌∷◌, ltb,
  ◌==◌, if◌then◌else◌, u64, sub_u64, length, get_or, take, drop,
}
use ya_vhost.Errno.{Errno}
use ya_vhost.Virtq.State.{Buffer, Virtq, Iov}
use ya_vhost.Virtq.Inflight.{no_buffer}
use ya_vhost.Virtq.Push.{virtq_push}
use ya_vhost.Blk.Device.{
  sector_size, diskid_length, status_ok, status_ioerr, status_unsupp, BlkDev, ReqHdr, IoType,
  bdev_read, bdev_write, IoResult, success, ioerr, canceled, Bio, Io, req_hdr, write_byte, strncpy,
}

-- `translate_status`
unfoldable pub translate_status : IoResult → ℕ
translate_status success = status_ok
translate_status ioerr = status_ioerr
translate_status canceled = status_ioerr

-- `&iov->buffers[iov->nvecs - 1]`
abbrev pub last_buffer : Iov → Buffer
last_buffer iov = get_or iov.buffers (length iov.buffers - 1) no_buffer

-- `set_status`
abbrev pub set_status : Io → Iov → ℕ → Io
set_status io iov status = record io {
  memory = write_byte io.memory ((last_buffer iov).base) status;
}

-- `virtio_free_iov`: the reference of the request on the memory map goes with it.
abbrev pub free_iov : Io → Iov → Io
free_iov io iov = record io { freed = iov ∷ io.freed }

-- `abort_request`; `none`, here and below, would be a push that does not end.
unfoldable pub abort_request : Io → Virtq → Iov → Option (Io × Virtq)
abort_request io vq iov = elim (virtq_push vq iov 0) [
  | none ↦ none
  | some vq' ↦ some (free_iov io iov, vq')
]

-- `complete_req`
unfoldable pub complete_req : Io → Virtq → Iov → ℕ → Option (Io × Virtq)
complete_req io vq iov status = elim (virtq_push vq iov 0) [
  | none ↦ none
  | some vq' ↦ some (free_iov (set_status io iov status) iov, vq')
]

-- `complete_io`, for a request of the queue `vq`.
unfoldable pub complete_io : Io → Virtq → Bio → IoResult → Option (Io × Virtq)
complete_io io vq bio canceled = some (free_iov io bio.iov, vq)
complete_io io vq bio success = complete_req io vq bio.iov (translate_status success)
complete_io io vq bio ioerr = complete_req io vq bio.iov (translate_status ioerr)

-- `vhd_buffer_can_read` and `vhd_buffer_can_write`
abbrev pub can_read : Buffer → Bool
can_read buf = not buf.write_only

abbrev pub can_write : Buffer → Bool
can_write buf = buf.write_only

-- `check_status_buffer`
unfoldable pub check_status_buffer : Buffer → Bool
check_status_buffer buf = buf.len == 1 && can_write buf

-- `is_valid_req`
unfoldable pub is_valid_req : (sector len capacity : ℕ) → Bool
is_valid_req sector len capacity =
    let nsectors = len / sector_size in
    if len == 0
    then false
    else if not (len % sector_size == 0)
    then false
    else if ltb capacity sector || ltb (sub_u64 capacity nsectors) sector
    then false
    else true

-- The loop of `handle_inout` over the data buffers: their length, or none if one of them cannot be
-- used for the direction of the request.
unfoldable pub data_length : IoType → List Buffer → (len : ℕ) → Option ℕ
data_length type [] len = some len
data_length bdev_read (b ∷ bs) len =
    if not (can_write b) then none else data_length bdev_read bs (u64 (len + b.len))
data_length bdev_write (b ∷ bs) len =
    if not (can_read b) then none else data_length bdev_write bs (u64 (len + b.len))

abbrev pub is_write : IoType → Bool
is_write bdev_read = false
is_write bdev_write = true

-- The data buffers of a request: all but the first and the last.
abbrev pub data_buffers : Iov → List Buffer
data_buffers iov = take (length iov.buffers - 2) (drop 1 iov.buffers)

-- `dispatch` is the one of the device: what it returns for a request, as an error or none.
module _ (dispatch : Bio → Option Errno) where
  -- `handle_inout`, for the request type that the header has.
  unfoldable pub handle_inout : BlkDev → IoType → ReqHdr → Io → Virtq → Iov → Option (Io × Virtq)
  handle_inout dev type req io vq iov =
      let fail = complete_req io vq iov status_ioerr in
      if dev.bdev.readonly && is_write type
      then fail
      else if ltb (length iov.buffers) 3
      then fail
      else elim (data_length type (data_buffers iov) 0) [
        | none ↦ fail
        | some len ↦
            let bio : Bio = record {
              iov = iov;
              type = type;
              first_sector = req.sector;
              total_sectors = len / sector_size;
              buffers = data_buffers iov;
            } in
            if not (is_valid_req req.sector len dev.config.capacity)
            then fail
            else elim (dispatch bio) [
              | some e ↦ fail
              | none ↦ some (record io { submitted = bio ∷ io.submitted }, vq)
            ]
      ]

  -- `handle_getid`: the status, and the memory with the serial number written.
  unfoldable pub handle_getid : BlkDev → Io → Iov → Io × ℕ
  handle_getid dev io iov =
      let id_buf = get_or iov.buffers 1 no_buffer in
      if not (length iov.buffers == 3)
      then (io, status_ioerr)
      else if not (id_buf.len == diskid_length) || not (can_write id_buf)
      then (io, status_ioerr)
      else (
        record io { memory = strncpy io.memory id_buf.base dev.bdev.serial id_buf.len },
        status_ok,
      )

  -- `handle_buffers`; `none` is also the failed assertion that there is a buffer.
  unfoldable pub handle_buffers : BlkDev → Io → Virtq → Iov → Option (Io × Virtq)
  handle_buffers dev io vq iov =
      let req_buf = get_or iov.buffers 0 no_buffer in
      let req = req_hdr io.memory req_buf.base in
      let (io', status) = handle_getid dev io iov in
      if length iov.buffers == 0
      then none
      else if not (check_status_buffer (last_buffer iov))
      then abort_request io vq iov
      else if not (can_read req_buf)
      then abort_request io vq iov
      else if not (req_buf.len == 16)
      then abort_request io vq iov
      else if req.type == 0
      then handle_inout dev bdev_read req io vq iov
      else if req.type == 1
      then handle_inout dev bdev_write req io vq iov
      else if req.type == 8
      then complete_req io' vq iov status
      else complete_req io vq iov status_unsupp
