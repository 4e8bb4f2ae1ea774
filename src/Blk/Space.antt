-- ===== src/Blk/Space.antt =====
-- What a driver reads from the configuration space of a block device (blockdev.c,
-- virtio/virtio_blk_spec.h).
use ya_vhost.Prelude.{◌^◌, ◌<◌, ◌≡◌}
use ya_vhost.ConfigSpace.{le_bytes, of_le_bytes, read_config, of_le_bytes-le_bytes}
use ya_vhost.Blk.Device.{BlkDev}
use ya_vhost.Blk.Register.{config_bytes, vblk_get_config}

-- A driver that reads the configuration space at the offsets of `struct virtio_blk_config` gets the
-- capacity, the number of segments, the block size and the number of queues of the device, if these
-- fit their fields.
pub vblk_get_config-fields :
    (dev : BlkDev)
    → dev.config.capacity < 2 ^ 64
    → dev.config.seg_max < 2 ^ 32
    → dev.config.blk_size < 2 ^ 32
    → dev.config.numqueues < 2 ^ 16
    → (of_le_bytes (vblk_get_config dev 8 0) ≡ dev.config.capacity)
      × (of_le_bytes (vblk_get_config dev 4 12) ≡ dev.config.seg_max)
      × (of_le_bytes (vblk_get_config dev 4 20) ≡ dev.config.blk_size)
      × (of_le_bytes (vblk_get_config dev 2 34) ≡ dev.config.numqueues)
unfolding vblk_get_config config_bytes read_config le_bytes
vblk_get_config-fields dev capacity seg_max blk_size numqueues = (
  of_le_bytes-le_bytes 8 dev.config.capacity capacity,
  of_le_bytes-le_bytes 4 dev.config.seg_max seg_max,
  of_le_bytes-le_bytes 4 dev.config.blk_size blk_size,
  of_le_bytes-le_bytes 2 dev.config.numqueues numqueues,
)
