-- ===== src/Vdev/Tests.antt =====
-- The negotiation of vdev.c at concrete inputs.
use ya_vhost.Prelude.{◌≡◌, refl, true, false, not, ◌&&◌, ◌||◌, ◌==◌, [], ◌∷◌, arith}
use ya_vhost.Errno.{eisconn, enotsup, ok, err}
use ya_vhost.Vdev.Features.{
  Features, f_log_all, Vring, Vdev, wait, any_bit, negotiable, xor, set_features, set_vring_num,
  set_stopped,
}
use ya_vhost.Vdev.Negotiation.{set_features-allowed}

-- Logging, event indexes, protocol features and version 1 are offered.
abbrev offered : Features
offered bit = bit == 26 || bit == 29 || bit == 30 || bit == 32

abbrev version_1 : Features
version_1 bit = bit == 32

abbrev with_log : Features
with_log bit = bit == 32 || bit == 26

abbrev a_vring : Vring
a_vring = record {
  started_in_ctl = true;
  qsz = 128;
  last_avail = 0;
  has_event_idx = false;
  logs = false;
  syncing = false;
}

-- A device with one vring that is started.
abbrev device : Vdev
device = record {
  supported_protocol_features = offered;
  negotiated_protocol_features = version_1;
  supported_features = offered;
  negotiated_features = version_1;
  vrings = a_vring ∷ [];
  num_vrings_in_flight = 1;
  num_vrings_handling_msg = 0;
}

log_on : (set_features false with_log device).0 ≡ ok wait
unfolding set_features any_bit
log_on = refl

event_idx_refused : (set_features false offered device).0 ≡ err enotsup
unfolding set_features any_bit
event_idx_refused = refl

num_refused : set_vring_num false 0 256 device ≡ (err eisconn, device)
unfolding set_vring_num set_stopped
num_refused = refl

set_features-allowed_example :
    ((set_features false with_log device).1.negotiated_features 29 ≡ with_log 29)
    × (with_log 29 && not (negotiable device 29) ≡ false)
    × (not (1 == 0) && not (29 == f_log_all) && xor (version_1 29) (with_log 29) ≡ false)
set_features-allowed_example = set_features-allowed false with_log device 29 (omega arith) log_on
