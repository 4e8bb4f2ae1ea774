-- ===== src/Fs/Tests.antt =====
-- The file system device of virtio/virtio_fs.c at concrete inputs.
use ya_vhost.Prelude.{List, Bool, ℕ, ◌≡◌, refl, ◌↔◌, true, false, none, some, [], ◌∷◌, arith}
use ya_vhost.Virtq.State.{Virtq, Iov, Desc, Buffer, GuestTables}
use ya_vhost.Virtq.Inflight.{no_stat, no_buffer}
use ya_vhost.Virtq.Dequeue.{Resubmit}
use ya_vhost.Virtq.Advance.{IsReady}
use ya_vhost.Virtq.Publish.{IsPushed}
use ya_vhost.Prelude.{length, u32}
use ya_vhost.ConfigSpace.{of_le_bytes}
use ya_vhost.Fs.Device.{FsdevInfo, FsBio, FsIo, tag_size, config_tag, init_dev, vfs_get_config}
use ya_vhost.Fs.Space.{vfs_get_config-fields}
use ya_vhost.Fs.Request.{parse, parse_out, skip_read_only, skip_write_only, handle_buffers}
use ya_vhost.Fs.Framing.{IsFramed, parse_iff}
use ya_vhost.Fs.Once.{Outcome, fs_handle_buffers-once}

abbrev no_desc : ℕ → Desc
no_desc i = record { addr = 0; len = 0; flags = 0; next = 0 }

abbrev queue : Virtq
queue = record {
  flags = 0;
  desc = no_desc;
  avail = record { flags = 0; idx = 1; ring = λ i. 0 };
  used = record { idx = 0; ring = λ i. record { id = 0; len = 0 }; avail_event = 0 };
  used_gpa_base = 0;
  qsz = 4;
  max_chain_len = 3;
  last_avail = 0;
  next_buffer = 3;
  buffers = [];
  broken = false;
  has_event_idx = false;
  notify_fd = some 7;
  req_cnt = 1;
  inflight_region = none;
  inflight_check = false;
  mm = record { refcount = 1; map_cb = none; unmap_cb = none; regions = [] };
  log = none;
  stat = no_stat;
  signals = [];
}

abbrev idle : FsIo
idle = record { memory = λ p. 0; submitted = []; freed = [] }

-- A FUSE request: its header with one argument, and a reply header.
abbrev fuse_buffers : List Buffer
fuse_buffers =
    record { base = 0x1000; len = 40; write_only = false }
    ∷ record { base = 0x2000; len = 100; write_only = false }
    ∷ record { base = 0x3000; len = 16; write_only = true }
    ∷ []

abbrev fuse_iov : Iov
fuse_iov = record { used_head = 3; mm = []; buffers = fuse_buffers }

parse_iff_example : (parse fuse_buffers ≡ some (some 0x3000)) ↔ IsFramed fuse_buffers (some 0x3000)
parse_iff_example = parse_iff fuse_buffers (some 0x3000)

-- A backend that refuses everything with -EIO.
abbrev refusing : FsBio → ℕ
refusing bio = 0xFFFFFFFB

fs_handle_buffers-once_example :
    (io' : FsIo) × (vq' : Virtq) × (handle_buffers refusing idle queue fuse_iov ≡ some (io', vq'))
    × Outcome refusing (IsPushed queue 3) idle queue fuse_iov io' vq'
fs_handle_buffers-once_example =
    fs_handle_buffers-once refusing idle queue fuse_iov (omega arith) (omega arith)

fuse_parsed : parse fuse_buffers ≡ some (some 0x3000)
unfolding parse parse_out skip_read_only skip_write_only
fuse_parsed = refl

abbrev unsorted : (Resubmit → Resubmit → Bool) → List Resubmit → List Resubmit
unsorted before rs = rs

abbrev tables : GuestTables
tables ptr i = record { addr = 0; len = 0; flags = 0; next = 0 }

abbrev ready_queue : Virtq
ready_queue = record queue { buffers = no_buffer ∷ no_buffer ∷ no_buffer ∷ [] }

ready_queue-IsReady : IsReady ready_queue
ready_queue-IsReady = record {
  allocated = refl;
  small = omega arith;
  wraps = omega arith;
  counts = omega arith;
}

-- The tag "ab", and three queues.
abbrev fs_info : FsdevInfo
fs_info = record { tag = some (0x61 ∷ 0x62 ∷ []); num_queues = 3 }

driver_reads_fields :
    (vfs_get_config (init_dev fs_info) tag_size 0 ≡ config_tag (some (0x61 ∷ 0x62 ∷ [])))
    × (length (config_tag (some (0x61 ∷ 0x62 ∷ []))) ≡ tag_size)
    × (of_le_bytes (vfs_get_config (init_dev fs_info) 4 tag_size) ≡ u32 3)
driver_reads_fields = vfs_get_config-fields fs_info
