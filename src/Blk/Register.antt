-- ===== src/Blk/Register.antt =====
-- The registration of a block device, its features and its configuration space (blockdev.c).
use ya_vhost.Prelude.{
  ℕ, zero, suc, ◌+◌, ◌-◌, ◌*◌, ◌/◌, ◌%◌, ◌^◌, Bool, true, false, not, ◌&&◌, ◌||◌, Option, none,
  some, List, ◌∷◌, ◌++◌, ◌==◌, if◌then◌else◌,
}
use ya_vhost.ConfigSpace.{le_bytes, read_config}
use ya_vhost.Blk.Device.{BdevInfo, BlkDev, Config, init_dev, sector_size}

-- `VIRTIO_BLK_DEFAULT_FEATURES`: the bits 28, 29, 32, 2, 4, 6, 10 and 12.
abbrev pub default_features : ℕ
default_features = 2 ^ 28 + 2 ^ 29 + 2 ^ 32 + 2 ^ 2 + 2 ^ 4 + 2 ^ 6 + 2 ^ 10 + 2 ^ 12

abbrev pub feature_ro : ℕ
feature_ro = 5

-- `vblk_get_features`; the bit of `VIRTIO_BLK_F_RO` is not one of the default features.
unfoldable pub vblk_get_features : BdevInfo → ℕ
vblk_get_features bdev = default_features + (if bdev.readonly then 2 ^ feature_ro else 0)

-- `struct virtio_blk_config` as the bytes of the packed structure; `size_max`, `writeback` and
-- `_reserved` are never set.
unfoldable pub config_bytes : Config → List ℕ
config_bytes c =
    le_bytes 8 c.capacity
    ++ le_bytes 4 0
    ++ le_bytes 4 c.seg_max
    ++ le_bytes 2 c.cylinders
    ++ le_bytes 1 c.heads
    ++ le_bytes 1 c.sectors
    ++ le_bytes 4 c.blk_size
    ++ le_bytes 1 c.physical_block_exp
    ++ le_bytes 1 c.alignment_offset
    ++ le_bytes 2 c.min_io_size
    ++ le_bytes 4 c.opt_io_size
    ++ le_bytes 1 0
    ++ le_bytes 1 0
    ++ le_bytes 2 c.numqueues

-- `vblk_get_config`
unfoldable pub vblk_get_config : BlkDev → (bufsize offset : ℕ) → List ℕ
vblk_get_config dev bufsize offset = read_config (config_bytes dev.config) bufsize offset

-- `a & b` on the lowest `n` bits
unfoldable pub land : (n a b : ℕ) → ℕ
land zero a b = 0
land (suc n) a b = (if (a % 2 == 1) && (b % 2 == 1) then 1 else 0) + 2 * land n (a / 2) (b / 2)

-- The two checks of `vhd_register_blockdev`; `block_size` is a uint32_t.
unfoldable pub is_valid_bdev : BdevInfo → Bool
is_valid_bdev bdev =
    if (bdev.total_blocks == 0) || (bdev.block_size == 0)
    then false
    else if not (land 32 bdev.block_size (bdev.block_size - 1) == 0)
        || not (bdev.block_size % sector_size == 0)
    then false
    else true

-- `vhd_register_blockdev` on `g_bdev_list`; `started` is whether `vhd_vdev_init_server` succeeds.
unfoldable pub vhd_register_blockdev :
    (started : Bool) → List BlkDev → BdevInfo → Option BlkDev × List BlkDev
vhd_register_blockdev started bdevs bdev =
    if is_valid_bdev bdev
    then if started then (some (init_dev bdev), init_dev bdev ∷ bdevs) else (none, bdevs)
    else (none, bdevs)
