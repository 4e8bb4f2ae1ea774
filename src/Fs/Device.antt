-- ===== src/Fs/Device.antt =====
-- A file system device and what it works on (virtio/virtio_fs.c, virtio/virtio_fs.h,
-- virtio/virtio_fs_spec.h, include/vhost/fs.h), and its configuration (fs.c).
use ya_vhost.Prelude.{
  ℕ, zero, suc, ◌+◌, ◌-◌, ◌/◌, ◌%◌, ◌^◌, Option, none, some, List, ◌++◌, min, length, take,
  replicate, u32,
}
use ya_vhost.ConfigSpace.{le_bytes, read_config}
use ya_vhost.Virtq.State.{Buffer, Iov}
use ya_vhost.Blk.Device.{write_byte}

-- `sizeof(struct virtio_fs_in_header)` and `sizeof(struct virtio_fs_out_header)`
abbrev pub in_header_size : ℕ
in_header_size = 40

abbrev pub out_header_size : ℕ
out_header_size = 16

abbrev pub tag_size : ℕ
tag_size = 36

-- `struct vhd_fsdev_info`; `tag` has the bytes of the string up to its end, `none` for NULL.
pub record FsdevInfo : Type 0 where
  pub tag : Option (List ℕ)
  pub num_queues : ℕ

-- `struct virtio_fs_config`
pub record FsConfig : Type 0 where
  pub tag : List ℕ
  pub num_request_queues : ℕ

-- `struct virtio_fs_dev`, without its `dispatch`.
pub record FsDev : Type 0 where
  pub fsdev : FsdevInfo
  pub config : FsConfig

-- `struct virtio_fs_io` with its `struct vhd_bio`: a request for the backend.
pub record FsBio : Type 0 where
  pub iov : Iov
  pub out_hdr : Option ℕ
  pub buffers : List Buffer

-- What the handling of a request changes outside the queue: the bytes of the guest memory that is
-- mapped, the requests that the backend has got and those that were freed, latest first.
pub record FsIo : Type 0 where
  pub memory : ℕ → ℕ
  pub submitted : List FsBio
  pub freed : List Iov

-- The writes of a little-endian number of `n` bytes.
unfoldable pub write_le : (ℕ → ℕ) → (ptr n value : ℕ) → ℕ → ℕ
write_le memory ptr zero value = memory
write_le memory ptr (suc n) value =
    write_le (write_byte memory ptr (value % 256)) (ptr + 1) n (value / 256)

-- The tag of the configuration: as much of the string as fits, and zeroes.
unfoldable pub config_tag : Option (List ℕ) → List ℕ
config_tag none = replicate tag_size 0
config_tag (some tag) =
    let n = min (length tag) tag_size in take n tag ++ replicate (tag_size - n) 0

-- `virtio_fs_init_dev`
unfoldable pub init_dev : FsdevInfo → FsDev
init_dev fsdev = record {
  fsdev = fsdev;
  config = record { tag = config_tag fsdev.tag; num_request_queues = u32 fsdev.num_queues };
}

-- `VIRTIO_FS_DEFAULT_FEATURES`, which `vfs_get_features` (fs.c) returns: the bits 28 and 32.
abbrev pub vfs_get_features : ℕ
vfs_get_features = 2 ^ 28 + 2 ^ 32

-- `struct virtio_fs_config` as the bytes of the packed structure.
unfoldable pub config_bytes : FsConfig → List ℕ
config_bytes c = c.tag ++ le_bytes 4 c.num_request_queues

-- `vfs_get_config` (fs.c)
unfoldable pub vfs_get_config : FsDev → (bufsize offset : ℕ) → List ℕ
vfs_get_config dev bufsize offset = read_config (config_bytes dev.config) bufsize offset
