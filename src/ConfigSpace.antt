-- ===== src/ConfigSpace.antt =====
-- The configuration space of a device, as `vblk_get_config` (blockdev.c) and `vfs_get_config`
-- (fs.c) read it: the bytes of a packed structure.
use ya_vhost.Prelude.{
  ℕ, zero, suc, ◌+◌, ◌-◌, ◌*◌, ◌/◌, ◌%◌, ◌^◌, ◌≤◌, ◌<◌, ◌≡◌, refl, sym, ap, ◌∙◌, List, [], ◌∷◌,
  ◌++◌, leb, dec_lt, true, false, if◌then◌else◌, min, length, take, drop, arith, length-drop,
}

-- The bytes of a little-endian number of `n` bytes, and back.
unfoldable pub le_bytes : (n value : ℕ) → List ℕ
le_bytes zero value = []
le_bytes (suc n) value = value % 256 ∷ le_bytes n (value / 256)

unfoldable pub of_le_bytes : List ℕ → ℕ
of_le_bytes [] = 0
of_le_bytes (b ∷ bs) = b + 256 * of_le_bytes bs

-- What comes into the buffer of `vblk_get_config` and of `vfs_get_config`.
unfoldable pub read_config : List ℕ → (bufsize offset : ℕ) → List ℕ
read_config bytes bufsize offset =
    if leb (length bytes) offset
    then []
    else take (min bufsize (length bytes - offset)) (drop offset bytes)

pub of_le_bytes-le_bytes : (n value : ℕ) → value < 256 ^ n → of_le_bytes (le_bytes n value) ≡ value
unfolding of_le_bytes le_bytes
of_le_bytes-le_bytes zero value lt = omega arith
of_le_bytes-le_bytes (suc n) value lt =
    let ih = of_le_bytes-le_bytes n (value / 256) (omega arith) in omega arith

drop_all : (n : ℕ) (xs : List ℕ) → length xs ≤ n → drop n xs ≡ []
drop_all zero [] le = refl
drop_all (suc n) [] le = refl
drop_all zero (x ∷ xs) le = absurd (omega arith)
drop_all (suc n) (x ∷ xs) le = drop_all n xs (omega arith)

take_all : (n : ℕ) (xs : List ℕ) → length xs ≤ n → take n xs ≡ xs
take_all zero [] le = refl
take_all (suc n) [] le = refl
take_all zero (x ∷ xs) le = absurd (omega arith)
take_all (suc n) (x ∷ xs) le = ap (λ ys. x ∷ ys) (take_all n xs (omega arith))

take-append : (n m : ℕ) (xs : List ℕ) → take n xs ++ take m (drop n xs) ≡ take (n + m) xs
take-append zero m xs = ap (λ k. take k xs) {x = m} {y = 0 + m} (omega arith)
take-append (suc n) m [] = take_all m [] (omega arith) ∙ sym (take_all (suc n + m) [] (omega arith))
take-append (suc n) m (x ∷ xs) =
    ap (λ ys. x ∷ ys) (take-append n m xs)
    ∙ ap (λ k. take k (x ∷ xs)) {x = suc (n + m)} {y = suc n + m} (omega arith)

drop-drop : (n m : ℕ) (xs : List ℕ) → drop m (drop n xs) ≡ drop (n + m) xs
drop-drop zero m xs = ap (λ k. drop k xs) {x = m} {y = 0 + m} (omega arith)
drop-drop (suc n) m [] = drop_all m [] (omega arith) ∙ sym (drop_all (suc n + m) [] (omega arith))
drop-drop (suc n) m (x ∷ xs) =
    drop-drop n m xs ∙ ap (λ k. drop k (x ∷ xs)) {x = suc (n + m)} {y = suc n + m} (omega arith)

-- Without the test and the bound, which change nothing.
pub read_config-take :
    (bytes : List ℕ) (bufsize offset : ℕ)
    → read_config bytes bufsize offset ≡ take bufsize (drop offset bytes)
unfolding read_config
read_config-take bytes bufsize offset =
    let rest = length-drop offset bytes in
    elim (dec_lt offset (length bytes)) [
      | no l ↦
          let e : leb (length bytes) offset ≡ true = ground arith in
          let gone = drop_all offset bytes (omega arith) in
          rw (e, gone) (sym (take_all bufsize [] (omega arith)))
      | yes l ↦
          let e : leb (length bytes) offset ≡ false = ground arith in
          rw e (elim (dec_lt bufsize (length bytes - offset)) [
            | yes k ↦ ap (λ n. take n (drop offset bytes)) (omega arith)
            | no k ↦
                take_all (min bufsize (length bytes - offset)) (drop offset bytes) (omega arith)
                ∙ sym (take_all bufsize (drop offset bytes) (omega arith))
          ])
    ]

-- A read of the configuration space in two parts, the second at the place where the first asked
-- to end, brings the bytes that one read brings.
pub read_config-append :
    (bytes : List ℕ) (first second offset : ℕ)
    → read_config bytes first offset ++ read_config bytes second (offset + first)
      ≡ read_config bytes (first + second) offset
read_config-append bytes first second offset =
    rw
      (
        read_config-take bytes first offset,
        read_config-take bytes second (offset + first),
        read_config-take bytes (first + second) offset,
        sym (drop-drop offset first bytes),
      )
      (take-append first second (drop offset bytes))
