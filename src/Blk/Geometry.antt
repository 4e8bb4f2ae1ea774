-- ===== src/Blk/Geometry.antt =====
-- Which devices `vhd_register_blockdev` (blockdev.c) takes, and the capacity that
-- `virtio_blk_init_dev` (virtio/virtio_blk.c) then gives them.
use ya_vhost.Prelude.{
  ℕ, zero, suc, ◌+◌, ◌-◌, ◌*◌, ◌/◌, ◌%◌, ◌^◌, ◌≤◌, ◌<◌, ◌≡◌, ◌↔◌, refl, sym, ◌∙◌, ap, subst, Bool,
  true, false, Option, none, some, List, ◌∷◌, ◌==◌, inl, inr, arith, Bool-cases, if◌then◌else◌, u64,
  dec_lt, u8,
}
use mathlib.Core.Option.{some-injective}
use native.Mathlib.Nat.{pow-le-pow_right}
use ya_vhost.Blk.Device.{BdevInfo, BlkDev, init_dev, find_first_bit, sector_size}
use ya_vhost.Blk.Register.{land, is_valid_bdev, vhd_register_blockdev}

land_self : (n x : ℕ) → x < 2 ^ n → land n x x ≡ x
unfolding land
land_self zero x lt = omega arith
land_self (suc n) x lt = ground (arith, land_self n (x / 2) (omega arith))

land-even : (n a b : ℕ) → a % 2 ≡ 0 → land (suc n) a b ≡ 0 → land n (a / 2) (b / 2) ≡ 0
unfolding land
land-even n a b even e = ground arith

find_first_bit-even :
    (n x : ℕ) → x % 2 ≡ 0 → find_first_bit (suc n) x ≡ suc (find_first_bit n (x / 2))
unfolding find_first_bit
find_first_bit-even n x even = ground arith

-- A number whose `x & (x - 1)` is 0 is the power of two of its first bit.
land_pred-pow : (n x : ℕ) → 0 < x → x < 2 ^ n → land n x (x - 1) ≡ 0 → x ≡ 2 ^ find_first_bit n x
unfolding land find_first_bit
land_pred-pow zero x pos lt e = absurd (omega arith)
land_pred-pow (suc n) x pos lt e = elim (Bool-cases (x % 2 == 1)) [
  | inl t ↦ ground (arith, land_self n (x / 2) (omega arith))
  | inr t ↦
      let pos' : 0 < x / 2 = ground arith in
      let small : x / 2 < 2 ^ n = omega arith in
      let half : (x - 1) / 2 ≡ x / 2 - 1 = ground arith in
      let first : find_first_bit (suc n) x ≡ suc (find_first_bit n (x / 2)) =
        find_first_bit-even n x (ground arith) in
      let rest : land n (x / 2) (x / 2 - 1) ≡ 0 =
        subst (λ y. land n (x / 2) y ≡ 0) half (land-even n x (x - 1) (ground arith) e) in
      let ih = land_pred-pow n (x / 2) pos' small rest in rw first (omega (arith, ih))
]

land-zero : (n : ℕ) → land n 0 0 ≡ 0
unfolding land
land-zero zero = refl
land-zero (suc n) = ground (arith, land-zero n)

pow-land_pred : (n k : ℕ) → land n (2 ^ k) (2 ^ k - 1) ≡ 0
unfolding land
pow-land_pred zero k = refl
pow-land_pred (suc n) zero = ground (arith, land-zero n)
pow-land_pred (suc n) (suc k) = ground (arith, pow-land_pred n k)

pub find_first_bit-pow : (n k : ℕ) → k < n → find_first_bit n (2 ^ k) ≡ k
unfolding find_first_bit
find_first_bit-pow zero k lt = absurd (omega arith)
find_first_bit-pow (suc n) zero lt = refl
find_first_bit-pow (suc n) (suc k) lt = ground (arith, find_first_bit-pow n k (omega arith))

-- The block sizes that are taken.
abbrev pub IsBlockSize : ℕ → Type 0
IsBlockSize size = (j : ℕ) × (j < 23) × (size ≡ sector_size * 2 ^ j)

pow-nine : (j : ℕ) → 2 ^ (9 + j) ≡ sector_size * 2 ^ j
pow-nine zero = refl
pow-nine (suc j) =
    let shift : 2 ^ (9 + suc j) ≡ 2 ^ suc (9 + j) = ap (λ i. 2 ^ i) (omega arith) in
    omega (arith, shift, pow-nine j)

split_pow : (k : ℕ) → 9 ≤ k → 2 ^ k ≡ sector_size * 2 ^ (k - 9)
split_pow k le = ap (λ i. 2 ^ i) (omega arith) ∙ pow-nine (k - 9)

pow-IsBlockSize : (k : ℕ) → 2 ^ k < 2 ^ 32 → 2 ^ k % sector_size ≡ 0 → IsBlockSize (2 ^ k)
pow-IsBlockSize k lt e =
    let pos = pow-le-pow_right {n = 2} (omega arith) {i = 0} {j = k} (omega arith) in
    let high : k < 32 = elim (dec_lt k 32) [
      | yes l ↦ l
      | no l ↦ absurd (
          let p = pow-le-pow_right {n = 2} (omega arith) {i = 32} {j = k} (omega arith) in
          omega arith)
    ] in
    elim (dec_lt k 9) [
      | yes l ↦ absurd (
          let p = pow-le-pow_right {n = 2} (omega arith) {i = k} {j = 8} (omega arith) in
          omega arith)
      | no l ↦ (k - 9, omega arith, split_pow k (omega arith))
    ]

pub is_valid_bdev-size :
    (bdev : BdevInfo)
    → bdev.block_size < 2 ^ 32
    → is_valid_bdev bdev ≡ true
    → IsBlockSize bdev.block_size
unfolding is_valid_bdev
is_valid_bdev-size bdev lt e =
    let p = land_pred-pow 32 bdev.block_size (ground arith) lt (ground arith) in
    subst IsBlockSize (sym p)
      (pow-IsBlockSize (find_first_bit 32 bdev.block_size) (omega arith) (ground arith))

IsBlockSize-land :
    (size : ℕ)
    → IsBlockSize size
    → (land 32 size (size - 1) ≡ 0) × (size % sector_size ≡ 0) × (0 < size)
IsBlockSize-land size (j, lt, e) =
    let pos = pow-le-pow_right {n = 2} (omega arith) {i = 0} {j = j} (omega arith) in
    let whole : size ≡ 2 ^ (9 + j) = e ∙ sym (pow-nine j) in
    (
      subst (λ s. land 32 s (s - 1) ≡ 0) (sym whole) (pow-land_pred 32 (9 + j)),
      omega arith,
      omega arith,
    )

-- `vhd_register_blockdev` takes a device for valid exactly if it has blocks, and their size is 512
-- bytes times a power of two; the size is a uint32_t.
pub is_valid_bdev_iff :
    (bdev : BdevInfo)
    → bdev.block_size < 2 ^ 32
    → (is_valid_bdev bdev ≡ true) ↔ ((0 < bdev.total_blocks) × IsBlockSize bdev.block_size)
unfolding is_valid_bdev
is_valid_bdev_iff bdev lt = (
  λ e. (ground arith, is_valid_bdev-size bdev lt e),
  λ h. ground (arith, IsBlockSize-land bdev.block_size h.1),
)

-- The capacity that a device of this block size gets.
init_dev-capacity :
    (bdev : BdevInfo) (j : ℕ)
    → j < 23
    → bdev.block_size ≡ sector_size * 2 ^ j
    → (init_dev bdev).config.capacity ≡ u64 (bdev.total_blocks * 2 ^ j)
unfolding init_dev
init_dev-capacity bdev j lt e =
    let pos = pow-le-pow_right {n = 2} (omega arith) {i = 0} {j = j} (omega arith) in
    let sectors : bdev.block_size / 512 ≡ 2 ^ j = omega arith in
    let exp : u8 (find_first_bit 32 (bdev.block_size / 512)) ≡ j =
      ap (λ s. u8 (find_first_bit 32 s)) sectors
      ∙ (ap u8 (find_first_bit-pow 32 j (omega arith)) ∙ omega arith) in
    ap (λ k. u64 (bdev.total_blocks * 2 ^ k)) exp

init_dev-capacity_bytes :
    (bdev : BdevInfo)
    → IsBlockSize bdev.block_size
    → bdev.total_blocks * (bdev.block_size / sector_size) < 2 ^ 64
    → (init_dev bdev).config.capacity * sector_size ≡ bdev.total_blocks * bdev.block_size
init_dev-capacity_bytes bdev (j, lt, e) fits =
    let pos = pow-le-pow_right {n = 2} (omega arith) {i = 0} {j = j} (omega arith) in
    let sectors : bdev.block_size / 512 ≡ 2 ^ j = omega arith in
    let fits' : bdev.total_blocks * 2 ^ j < 2 ^ 64 =
      subst (λ s. bdev.total_blocks * s < 2 ^ 64) sectors fits in
    rw (init_dev-capacity bdev j lt e) (rw e (omega arith))

-- What a call of `vhd_register_blockdev` that returns a device has checked and done.
record IsRegistered (bdevs : List BlkDev) (bdev : BdevInfo) (dev : BlkDev) (bdevs' : List BlkDev)
    : Type 0 where
  valid : is_valid_bdev bdev ≡ true
  device : init_dev bdev ≡ dev
  listed : bdevs' ≡ dev ∷ bdevs

register-IsRegistered :
    (started : Bool) (bdevs : List BlkDev) (bdev : BdevInfo) (dev : BlkDev) (bdevs' : List BlkDev)
    → vhd_register_blockdev started bdevs bdev ≡ (some dev, bdevs')
    → IsRegistered bdevs bdev dev bdevs'
unfolding vhd_register_blockdev
register-IsRegistered true bdevs bdev dev bdevs' e = elim (Bool-cases (is_valid_bdev bdev)) [
  | inl v ↦
      let taken : Option BlkDev × List BlkDev = (some (init_dev bdev), init_dev bdev ∷ bdevs) in
      let given : Option BlkDev × List BlkDev = (some dev, bdevs') in
      let q : taken ≡ given = sym (ap (λ b. if b then taken else (none, bdevs)) v) ∙ e in
      let device : init_dev bdev ≡ dev = some-injective (init_dev bdev) dev (ap (λ r. r.0) q) in
      record {
        valid = v;
        device = device;
        listed = sym (ap (λ r. r.1) q) ∙ ap (λ d. d ∷ bdevs) device;
      }
  | inr v ↦ absurd (ground arith)
]
register-IsRegistered false bdevs bdev dev bdevs' e = absurd (ground arith)

-- A device that `vhd_register_blockdev` registers is the one at the head of its list, and its
-- capacity in sectors of 512 bytes has the bytes of its blocks, if their number of sectors fits
-- 64 bits; the block size is a uint32_t.
pub registered-capacity :
    (started : Bool) (bdevs : List BlkDev) (bdev : BdevInfo) (dev : BlkDev) (bdevs' : List BlkDev)
    → bdev.block_size < 2 ^ 32
    → bdev.total_blocks * (bdev.block_size / sector_size) < 2 ^ 64
    → vhd_register_blockdev started bdevs bdev ≡ (some dev, bdevs')
    → (bdevs' ≡ dev ∷ bdevs)
      × (dev.config.capacity * sector_size ≡ bdev.total_blocks * bdev.block_size)
registered-capacity started bdevs bdev dev bdevs' small fits e =
    let r = register-IsRegistered started bdevs bdev dev bdevs' e in
    let size = is_valid_bdev-size bdev small r.valid in
    (
      r.listed,
      subst (λ d. d.config.capacity * sector_size ≡ bdev.total_blocks * bdev.block_size) r.device
          (init_dev-capacity_bytes bdev size fits),
    )
