-- ===== src/Blk/Tests.antt =====
-- The block device type of virtio/virtio_blk.c at concrete inputs.
use ya_vhost.Prelude.{
  List, inl, Bool, ℕ, ◌+◌, ◌/◌, ◌%◌, ◌≤◌, ◌<◌, ◌≡◌, refl, ◌↔◌, ◌⊎◌, true, false, Option, none, some,
  [], ◌∷◌, ◌==◌, if◌then◌else◌, arith,
}
use ya_vhost.Errno.{Errno}
use ya_vhost.Virtq.State.{Virtq, Iov, Desc}
use ya_vhost.Virtq.Inflight.{no_stat, no_buffer}
use ya_vhost.Blk.Device.{
  BdevInfo, BlkDev, bdev_read, canceled, Bio, Io, read_le, req_hdr, find_first_bit, init_dev,
  sector_size,
}
use ya_vhost.Blk.Request.{
  is_valid_req, handle_buffers, handle_inout, handle_getid, complete_io, data_length,
  check_status_buffer,
}
use ya_vhost.Blk.Capacity.{is_valid_req_iff}
use ya_vhost.Prelude.{◌*◌, ◌^◌, ◌++◌}
use ya_vhost.ConfigSpace.{of_le_bytes, read_config, read_config-append}
use ya_vhost.Blk.Register.{
  config_bytes, vblk_get_config, land, is_valid_bdev, vhd_register_blockdev,
}
use ya_vhost.Blk.Geometry.{registered-capacity}
use ya_vhost.Blk.Space.{vblk_get_config-fields}
use ya_vhost.Virtq.Dequeue.{Resubmit}
use ya_vhost.Virtq.Advance.{IsReady}
use ya_vhost.Virtq.Many.{ManyEnds, ManyHands}
use ya_vhost.Virtq.State.{GuestTables}
use ya_vhost.Blk.Dispatch.{
  handle_callback, handle_callback-KeepsQueue, dispatch_requests, dispatch_requests-total,
}
use ya_vhost.Blk.Once.{IsCompleted, IsSubmitted, handle_buffers-once}

-- A disk of 1000 blocks of 4096 bytes.
abbrev disk_info : BdevInfo
disk_info = record {
  serial = 0x61 ∷ 0x62 ∷ [];
  block_size = 4096;
  num_queues = 2;
  total_blocks = 1000;
  readonly = false;
}

disk_capacity : (init_dev disk_info).config.capacity ≡ 8000
unfolding init_dev find_first_bit
disk_capacity = refl

disk_geometry :
    ((init_dev disk_info).config.sectors ≡ 255)
    × ((init_dev disk_info).config.heads ≡ 32)
    × ((init_dev disk_info).config.cylinders ≡ 1)
unfolding init_dev find_first_bit
disk_geometry = (refl, refl, refl)

is_valid_req_iff_example :
    (is_valid_req 7992 4096 8000 ≡ true)
    ↔ ((0 < 4096) × (4096 % sector_size ≡ 0) × (7992 + 4096 / sector_size ≤ 8000))
is_valid_req_iff_example = is_valid_req_iff 7992 4096 8000 (omega arith) (omega arith)

abbrev disk : BlkDev
disk = init_dev disk_info

abbrev no_desc : ℕ → Desc
no_desc i = record { addr = 0; len = 0; flags = 0; next = 0 }

abbrev queue : Virtq
queue = record {
  flags = 0;
  desc = no_desc;
  avail = record { flags = 0; idx = 1; ring = λ i. 0 };
  used = record { idx = 0; ring = λ i. record { id = 0; len = 0 }; avail_event = 0 };
  used_gpa_base = 0;
  qsz = 4;
  max_chain_len = 3;
  last_avail = 0;
  next_buffer = 3;
  buffers = [];
  broken = false;
  has_event_idx = false;
  notify_fd = some 7;
  req_cnt = 1;
  inflight_region = none;
  inflight_check = false;
  mm = record { refcount = 1; map_cb = none; unmap_cb = none; regions = [] };
  log = none;
  stat = no_stat;
  signals = [];
}

-- A read of one sector at sector 5: the header is at 0x1000.
abbrev memory : ℕ → ℕ
memory ptr = if ptr == 0x1008 then 5 else 0

abbrev idle : Io
idle = record { memory = memory; submitted = []; freed = [] }

abbrev read_iov : Iov
read_iov = record {
  used_head = 3;
  mm = [];
  buffers =
      record { base = 0x1000; len = 16; write_only = false }
      ∷ record { base = 0x2000; len = 512; write_only = true }
      ∷ record { base = 0x3000; len = 1; write_only = true }
      ∷ [];
}

abbrev accepting : Bio → Option Errno
accepting bio = none

abbrev read_bio : Bio
read_bio = record {
  iov = read_iov;
  type = bdev_read;
  first_sector = 5;
  total_sectors = 1;
  buffers = record { base = 0x2000; len = 512; write_only = true } ∷ [];
}

submitted_once :
    handle_buffers accepting disk idle queue read_iov
    ≡ some (record idle { submitted = read_bio ∷ [] }, queue)
unfolding handle_buffers handle_inout handle_getid check_status_buffer req_hdr read_le data_length
    is_valid_req init_dev find_first_bit
submitted_once = refl

handle_buffers-once_example :
    (io' : Io) × (vq' : Virtq) × (handle_buffers accepting disk idle queue read_iov
      ≡ some (io', vq'))
    × (IsCompleted idle queue read_iov io' vq' ⊎ IsSubmitted disk idle queue read_iov io' vq')
handle_buffers-once_example =
    handle_buffers-once accepting disk idle queue read_iov (omega arith) (omega arith)

abbrev unsorted : (Resubmit → Resubmit → Bool) → List Resubmit → List Resubmit
unsorted before rs = rs

abbrev tables : GuestTables
tables ptr i = record { addr = 0; len = 0; flags = 0; next = 0 }

abbrev ready_queue : Virtq
ready_queue = record queue { buffers = no_buffer ∷ no_buffer ∷ no_buffer ∷ [] }

ready_queue-IsReady : IsReady ready_queue
ready_queue-IsReady = record {
  allocated = refl;
  small = omega arith;
  wraps = omega arith;
  counts = omega arith;
}

dispatch_requests-total_example :
    let callback = handle_callback accepting disk in
    let law = handle_callback-KeepsQueue accepting disk in
    (io' : Io) × (vq' : Virtq) × (res : Option Errno) × (dispatch_requests accepting disk tables
        unsorted 100 []
        (some idle, ready_queue)
      ≡ some ((some io', vq'), res))
    × ManyEnds tables callback unsorted law ready_queue 1 vq' res
    × ManyHands tables callback unsorted law (some idle) ready_queue 1 (some io') vq' res
dispatch_requests-total_example =
    dispatch_requests-total accepting disk tables unsorted 100 [] idle ready_queue 1
      ready_queue-IsReady refl refl (inl (refl, refl)) (omega arith)

-- A canceled request is freed, and its head is not given back.
canceled_once :
    complete_io idle queue read_bio canceled ≡ some (record idle { freed = read_iov ∷ [] }, queue)
unfolding complete_io
canceled_once = refl

registered-capacity_example :
    (disk ∷ [] ≡ disk ∷ []) × (disk.config.capacity * sector_size ≡ 1000 * 4096)
unfolding vhd_register_blockdev is_valid_bdev land
registered-capacity_example =
    registered-capacity true [] disk_info disk (disk ∷ []) (omega arith) (omega arith) refl

driver_reads_fields :
    (of_le_bytes (vblk_get_config disk 8 0) ≡ disk.config.capacity)
    × (of_le_bytes (vblk_get_config disk 4 12) ≡ disk.config.seg_max)
    × (of_le_bytes (vblk_get_config disk 4 20) ≡ disk.config.blk_size)
    × (of_le_bytes (vblk_get_config disk 2 34) ≡ disk.config.numqueues)
unfolding init_dev find_first_bit
driver_reads_fields =
    vblk_get_config-fields disk (omega arith) (omega arith) (omega arith) (omega arith)

-- The first twelve bytes, and the four behind them.
read_in_two_parts :
    read_config (config_bytes disk.config) 12 0 ++ read_config (config_bytes disk.config) 4 12
    ≡ read_config (config_bytes disk.config) 16 0
read_in_two_parts = read_config-append (config_bytes disk.config) 12 4 0

-- A device with a size of 2^73 bytes gets the capacity 0.
abbrev huge_info : BdevInfo
huge_info = record disk_info { block_size = 1024; total_blocks = 2 ^ 63 }

huge_registered : (is_valid_bdev huge_info ≡ true) × ((init_dev huge_info).config.capacity ≡ 0)
unfolding is_valid_bdev land init_dev find_first_bit
huge_registered = (refl, refl)
