-- ===== src/Vdev/Features.antt =====
-- The negotiation of features and the settings of a stopped vring (vdev.c, vdev.h, vhost_spec.h).
-- A feature word is the function from bit number to bit, for 64 bits.
use ya_vhost.Prelude.{
  ℕ, zero, suc, ◌+◌, [], ◌∷◌, Bool, true, false, not, ◌&&◌, ◌||◌, none, some, List, ◌==◌,
  if◌then◌else◌, u16, get_elem?, set, map,
}
use ya_vhost.Errno.{einval, enotsup, eisconn, Result, ok, err}

abbrev pub Features : Type 0
Features = ℕ → Bool

-- `VHOST_F_LOG_ALL`, `VIRTIO_F_RING_EVENT_IDX`, `VHOST_USER_F_PROTOCOL_FEATURES`
abbrev pub f_log_all : ℕ
f_log_all = 26

abbrev pub f_event_idx : ℕ
f_event_idx = 29

abbrev pub f_protocol_features : ℕ
f_protocol_features = 30

-- `struct vhd_vring`: its part that these messages set. `logs` is whether `shadow_vq.log` is the
-- log of the device, and not NULL; `syncing` is whether it has `vring_sync_to_virtq_bh` to run.
pub record Vring : Type 0 where
  pub started_in_ctl : Bool
  pub qsz : ℕ
  pub last_avail : ℕ
  pub has_event_idx : Bool
  pub logs : Bool
  pub syncing : Bool

-- `struct vhd_vdev`: its part that these messages set.
pub record Vdev : Type 0 where
  pub supported_protocol_features : Features
  pub negotiated_protocol_features : Features
  pub supported_features : Features
  pub negotiated_features : Features
  pub vrings : List Vring
  pub num_vrings_in_flight : ℕ
  pub num_vrings_handling_msg : ℕ

-- How a message that was accepted goes on: it is answered at once, or when the vrings are done.
pub data Reply : Type 0 where
  ack wait : Reply

-- Whether one of the first `n` bits is set.
unfoldable pub any_bit : ℕ → Features → Bool
any_bit zero f = false
any_bit (suc n) f = let rest = any_bit n f in f n || rest

-- `*features & ~supported`
abbrev pub beyond : Features → Features → Features
beyond features supported bit = features bit && not (supported bit)

abbrev pub xor : Bool → Bool → Bool
xor true b = not b
xor false b = b

-- `vhost_set_protocol_features`; `malformed` is whether the size or the descriptors are wrong.
unfoldable pub set_protocol_features : Bool → Features → Vdev → Result Reply × Vdev
set_protocol_features malformed features vdev =
    if malformed
    then (err einval, vdev)
    else if not (vdev.num_vrings_in_flight == 0)
    then (err eisconn, vdev)
    else if any_bit 64 (beyond features vdev.supported_protocol_features)
    then (err enotsup, vdev)
    else (ok ack, record vdev { negotiated_protocol_features = features })

-- The bits that may be negotiated: `VHOST_USER_F_PROTOCOL_FEATURES` is offered only.
abbrev pub negotiable : Vdev → Features
negotiable vdev bit = vdev.supported_features bit && not (bit == f_protocol_features)

-- `(vdev->negotiated_features ^ *features) & ~(1ull << VHOST_F_LOG_ALL)`
abbrev pub changed : Vdev → Features → Features
changed vdev features bit =
    xor (vdev.negotiated_features bit) (features bit) && not (bit == f_log_all)

-- `update_shadow_vq_memlog` and `vring_handle_msg` on a vring.
abbrev pub resync : Bool → Vring → Vring
resync logs vring =
    let vring' = record vring { logs = logs } in
    if vring.started_in_ctl then record vring' { syncing = true } else vring'

unfoldable pub count_started : List Vring → ℕ
count_started [] = 0
count_started (vring ∷ vrings) =
    let rest = count_started vrings in if vring.started_in_ctl then suc rest else rest

-- `vhost_set_features`
unfoldable pub set_features : Bool → Features → Vdev → Result Reply × Vdev
set_features malformed features vdev =
    if malformed
    then (err einval, vdev)
    else if any_bit 64 (beyond features (negotiable vdev))
    then (err enotsup, vdev)
    else if vdev.num_vrings_in_flight == 0
    then (
      ok ack,
      record vdev {
        negotiated_features = features;
        vrings = map (λ (v : Vring). record v { has_event_idx = features f_event_idx }) vdev.vrings;
      },
    )
    else if any_bit 64 (changed vdev features)
    then (err eisconn, vdev)
    else (
      ok wait,
      record vdev {
        negotiated_features = features;
        vrings = map (resync (features f_log_all)) vdev.vrings;
        num_vrings_handling_msg = vdev.num_vrings_handling_msg + count_started vdev.vrings;
      },
    )

-- `vhost_set_vring_num` and `vhost_set_vring_base`, with `get_vring`: `change` sets the field. The
-- index and the value of the message are cut to 16 bits.
unfoldable pub set_stopped : Bool → (index : ℕ) → (Vring → Vring) → Vdev → Result Reply × Vdev
set_stopped malformed index change vdev =
    if malformed then (err einval, vdev) else elim (get_elem? vdev.vrings index) [
      | none ↦ (err einval, vdev)
      | some vring ↦
          if vring.started_in_ctl
          then (err eisconn, vdev)
          else (ok ack, record vdev { vrings = set vdev.vrings index (change vring) })
    ]

unfoldable pub set_vring_num : Bool → (index num : ℕ) → Vdev → Result Reply × Vdev
set_vring_num malformed index num vdev =
    set_stopped malformed (u16 index) (λ v. record v { qsz = u16 num }) vdev

unfoldable pub set_vring_base : Bool → (index num : ℕ) → Vdev → Result Reply × Vdev
set_vring_base malformed index num vdev =
    set_stopped malformed (u16 index) (λ v. record v { last_avail = u16 num }) vdev
