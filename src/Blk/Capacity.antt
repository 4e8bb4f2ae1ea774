-- ===== src/Blk/Capacity.antt =====
-- Which requests `is_valid_req` (virtio/virtio_blk.c) lets through.
use ya_vhost.Prelude.{ℕ, ◌+◌, ◌/◌, ◌%◌, ◌^◌, ◌≤◌, ◌<◌, ◌≡◌, ◌↔◌, true, arith}
use ya_vhost.Blk.Device.{sector_size}
use ya_vhost.Blk.Request.{is_valid_req}

-- A request of no more sectors than the device has is valid exactly if it is not empty, has whole
-- sectors, and ends within the device; the capacity is a 64-bit number.
pub is_valid_req_iff :
    (sector len capacity : ℕ)
    → capacity < 2 ^ 64
    → len / sector_size ≤ capacity
    → (is_valid_req sector len capacity ≡ true)
      ↔ ((0 < len) × (len % sector_size ≡ 0) × (sector + len / sector_size ≤ capacity))
unfolding is_valid_req
is_valid_req_iff sector len capacity c fits = ground arith

-- A request of whole sectors that are more than the device has is valid from every sector up to the
-- capacity, since the difference of the capacity and the number of sectors wraps; the length is a
-- 64-bit number.
pub is_valid_req_beyond :
    (sector len capacity : ℕ)
    → len < 2 ^ 64
    → len % sector_size ≡ 0
    → capacity < len / sector_size
    → sector ≤ capacity
    → (is_valid_req sector len capacity ≡ true) × (capacity < sector + len / sector_size)
unfolding is_valid_req
is_valid_req_beyond sector len capacity small whole over at = ground arith
