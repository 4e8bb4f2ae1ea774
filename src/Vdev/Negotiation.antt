-- ===== src/Vdev/Negotiation.antt =====
-- What the negotiation of vdev.c lets through.
use ya_vhost.Prelude.{
  ℕ, zero, suc, ◌<◌, ◌≡◌, Bool, false, not, ◌&&◌, ◌==◌, arith, Bool-cases, inl, inr, dec_lt,
}
use ya_vhost.Errno.{ok}
use ya_vhost.Vdev.Features.{
  Features, f_log_all, Vdev, Reply, any_bit, beyond, negotiable, changed, xor, set_features,
}

any_bit-false : (n : ℕ) (f : Features) (bit : ℕ) → any_bit n f ≡ false → bit < n → f bit ≡ false
unfolding any_bit
any_bit-false zero f bit e lt = absurd (omega arith)
any_bit-false (suc n) f bit e lt = elim (dec_lt bit n) [
  | yes below ↦ any_bit-false n f bit (ground arith) below
  | no at ↦ let same : bit ≡ n = omega arith in rw same (ground arith)
]

-- A feature of the 64 bits that an accepted `vhost_set_features` negotiates was offered, and is not
-- the one for protocol features; and while vrings may have requests in flight, no feature but the
-- logging changes.
pub set_features-allowed :
    (malformed : Bool) (features : Features) (vdev : Vdev) (bit : ℕ) {reply : Reply}
    → bit < 64
    → (set_features malformed features vdev).0 ≡ ok reply
    → ((set_features malformed features vdev).1.negotiated_features bit ≡ features bit)
      × (features bit && not (negotiable vdev bit) ≡ false)
      × (not (vdev.num_vrings_in_flight == 0)
            && not (bit == f_log_all)
            && xor (vdev.negotiated_features bit) (features bit)
          ≡ false)
unfolding set_features
set_features-allowed malformed features vdev bit lt e =
    elim (Bool-cases (any_bit 64 (beyond features (negotiable vdev)))) [
      | inl t ↦ absurd (ground arith)
      | inr t ↦ elim (Bool-cases (any_bit 64 (changed vdev features))) [
        | inl u ↦ ground (arith, any_bit-false 64 (beyond features (negotiable vdev)) bit t lt)
        | inr u ↦ ground (
          arith,
          any_bit-false 64 (beyond features (negotiable vdev)) bit t lt,
          any_bit-false 64 (changed vdev features) bit u lt,
        )
      ]
    ]
