-- ===== src/Fs/Space.antt =====
-- What a driver reads from the configuration space of a file system device (fs.c,
-- virtio/virtio_fs_spec.h).
use ya_vhost.Prelude.{
  ℕ, ◌-◌, ◌≡◌, refl, ap, subst, ◌∙◌, Option, none, some, List, [], ◌∷◌, ◌++◌, length, take, drop,
  min, replicate, arith, length-append, length-take, length-replicate, u32,
}
use ya_vhost.ConfigSpace.{le_bytes, of_le_bytes, of_le_bytes-le_bytes, read_config-take}
use ya_vhost.Fs.Device.{FsdevInfo, tag_size, config_tag, config_bytes, init_dev, vfs_get_config}

length-config_tag : (tag : Option (List ℕ)) → length (config_tag tag) ≡ tag_size
unfolding config_tag
length-config_tag none = length-replicate {A = ℕ} tag_size 0
length-config_tag (some tag) =
    let n = min (length tag) tag_size in
    omega (
      arith,
      length-append (take n tag) (replicate (tag_size - n) 0),
      length-take n tag,
      length-replicate {A = ℕ} (tag_size - n) 0,
    )

take_front : (xs ys : List ℕ) → take (length xs) (xs ++ ys) ≡ xs
take_front [] ys = refl
take_front (x ∷ xs) ys = ap (λ l. x ∷ l) (take_front xs ys)

drop_front : (xs ys : List ℕ) → drop (length xs) (xs ++ ys) ≡ ys
drop_front [] ys = refl
drop_front (x ∷ xs) ys = drop_front xs ys

take_number : (n : ℕ) → take 4 (le_bytes 4 n) ≡ le_bytes 4 n
unfolding le_bytes
take_number n = refl

-- A driver that reads the configuration space at the offsets of `struct virtio_fs_config` gets the
-- tag, cut at 36 bytes or filled with zeroes up to there, and the lowest 32 bits of the number of
-- queues.
pub vfs_get_config-fields :
    (fsdev : FsdevInfo)
    → (vfs_get_config (init_dev fsdev) tag_size 0 ≡ config_tag fsdev.tag)
      × (length (config_tag fsdev.tag) ≡ tag_size)
      × (of_le_bytes (vfs_get_config (init_dev fsdev) 4 tag_size) ≡ u32 fsdev.num_queues)
unfolding vfs_get_config config_bytes init_dev
vfs_get_config-fields fsdev =
    let tag = config_tag fsdev.tag in
    let number = le_bytes 4 (u32 fsdev.num_queues) in
    let size = length-config_tag fsdev.tag in
    (
      read_config-take (tag ++ number) tag_size 0
          ∙ subst (λ n. take n (tag ++ number) ≡ tag) size (take_front tag number),
      size,
      ap of_le_bytes (
            read_config-take (tag ++ number) 4 tag_size
            ∙ ap (take 4)
                (subst (λ n. drop n (tag ++ number) ≡ number) size (drop_front tag number)))
          ∙ ap of_le_bytes (take_number (u32 fsdev.num_queues))
          ∙ of_le_bytes-le_bytes 4 (u32 fsdev.num_queues) (omega arith),
    )
