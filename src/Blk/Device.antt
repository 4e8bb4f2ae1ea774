-- ===== src/Blk/Device.antt =====
-- A block device and what it works on (virtio/virtio_blk.c, virtio/virtio_blk.h,
-- virtio/virtio_blk_spec.h, include/vhost/blockdev.h, include/vhost/types.h, bio.h).
use ya_vhost.Prelude.{
  ℕ, zero, suc, ◌+◌, ◌-◌, ◌*◌, ◌/◌, ◌%◌, ◌^◌, Bool, List, [], ◌∷◌, ◌==◌, if◌then◌else◌, u8, u16,
  u64, sub_u64, min,
}
use ya_vhost.Virtq.State.{Buffer, Iov}

abbrev pub sector_size : ℕ
sector_size = 512

abbrev pub sector_shift : ℕ
sector_shift = 9

abbrev pub diskid_length : ℕ
diskid_length = 20

-- `VIRTIO_BLK_S_OK`, `VIRTIO_BLK_S_IOERR`, `VIRTIO_BLK_S_UNSUPP`
abbrev pub status_ok : ℕ
status_ok = 0

abbrev pub status_ioerr : ℕ
status_ioerr = 1

abbrev pub status_unsupp : ℕ
status_unsupp = 2

-- `struct vhd_bdev_info`; `serial` has the bytes of the string up to its end.
pub record BdevInfo : Type 0 where
  pub serial : List ℕ
  pub block_size : ℕ
  pub num_queues : ℕ
  pub total_blocks : ℕ
  pub readonly : Bool

-- `struct virtio_blk_config`, its geometry and topology included.
pub record Config : Type 0 where
  pub capacity : ℕ
  pub seg_max : ℕ
  pub cylinders : ℕ
  pub heads : ℕ
  pub sectors : ℕ
  pub blk_size : ℕ
  pub physical_block_exp : ℕ
  pub alignment_offset : ℕ
  pub min_io_size : ℕ
  pub opt_io_size : ℕ
  pub numqueues : ℕ

-- `struct virtio_blk_dev`, without its `dispatch`.
pub record BlkDev : Type 0 where
  pub bdev : BdevInfo
  pub config : Config

-- `struct virtio_blk_req_hdr`
pub record ReqHdr : Type 0 where
  pub type : ℕ
  pub reserved : ℕ
  pub sector : ℕ

-- `enum vhd_bdev_io_type` and `enum vhd_bdev_io_result`
pub data IoType : Type 0 where
  bdev_read bdev_write : IoType

pub data IoResult : Type 0 where
  success ioerr canceled : IoResult

-- `struct virtio_blk_io` with its `struct vhd_bio`: a request that the backend has got.
pub record Bio : Type 0 where
  pub iov : Iov
  pub type : IoType
  pub first_sector : ℕ
  pub total_sectors : ℕ
  pub buffers : List Buffer

-- What the handling of a request changes outside the queue: the bytes of the guest memory that is
-- mapped, the requests that the backend has got and those that were freed, latest first.
pub record Io : Type 0 where
  pub memory : ℕ → ℕ
  pub submitted : List Bio
  pub freed : List Iov

-- A little-endian number of `n` bytes.
unfoldable pub read_le : (ℕ → ℕ) → (ptr n : ℕ) → ℕ
read_le memory ptr zero = 0
read_le memory ptr (suc n) = memory ptr + 256 * read_le memory (ptr + 1) n

unfoldable pub req_hdr : (ℕ → ℕ) → ℕ → ReqHdr
req_hdr memory ptr = record {
  type = read_le memory ptr 4;
  reserved = read_le memory (ptr + 4) 4;
  sector = read_le memory (ptr + 8) 8;
}

abbrev pub write_byte : (ℕ → ℕ) → (ptr byte : ℕ) → ℕ → ℕ
write_byte memory ptr byte p = if p == ptr then byte else memory p

-- `strncpy`: the rest is filled with zeroes, and there may be no room for one.
unfoldable pub strncpy : (ℕ → ℕ) → (ptr : ℕ) → List ℕ → (n : ℕ) → ℕ → ℕ
strncpy memory ptr src zero = memory
strncpy memory ptr [] (suc n) = strncpy (write_byte memory ptr 0) (ptr + 1) [] n
strncpy memory ptr (c ∷ src) (suc n) = strncpy (write_byte memory ptr c) (ptr + 1) src n

-- `vhd_find_first_bit32`, for a number that is not 0, whose first bit is among the first `n`.
unfoldable pub find_first_bit : (n val : ℕ) → ℕ
find_first_bit zero val = 0
find_first_bit (suc n) val =
    let rest = find_first_bit n (val / 2) in if val % 2 == 1 then 0 else suc rest

-- `virtio_blk_init_dev`
unfoldable pub init_dev : BdevInfo → BlkDev
init_dev bdev =
    let phys_block_sectors = bdev.block_size / 2 ^ sector_shift in
    let phys_block_exp = u8 (find_first_bit 32 phys_block_sectors) in
    let capacity = u64 (bdev.total_blocks * 2 ^ phys_block_exp) in
    let last = sub_u64 capacity 1 in
    record {
      bdev = bdev;
      config = record {
        capacity = capacity;
        seg_max = 128 - 2;
        cylinders = min (u64 (1 + last / (255 * 255))) 65535;
        heads = min (u64 (1 + last / 255)) 255;
        sectors = min capacity 255;
        blk_size = sector_size;
        physical_block_exp = phys_block_exp;
        alignment_offset = 0;
        min_io_size = 1;
        opt_io_size = 0;
        numqueues = u16 bdev.num_queues;
      };
    }
