-- ===== src/Msg/Features.antt =====
-- The messages about features, the queues and the configuration, and their payloads (vdev.c).
use ya_vhost.Prelude.{
  ℕ, ◌-◌, Option, none, some, not, ◌&&◌, ◌||◌, ◌==◌, ltb, if◌then◌else◌, length, map,
}
use ya_vhost.Errno.{einval, eisconn, enotsup}
use ya_vhost.Vdev.Features.{
  Features, any_bit, beyond, xor, f_log_all, f_event_idx, f_protocol_features,
}
use ya_vhost.Msg.State.{Ring, word, number, config, Conn, Sys, Out, features_complete, sync_bh}
use ya_vhost.Msg.Reply.{reply, ack, handle_all}

-- `g_default_features`
abbrev pub g_default_features : Features
g_default_features bit = bit == f_protocol_features || bit == f_log_all

-- `vhost_get_features`
unfoldable pub vhost_get_features : Sys → (num_fds : ℕ) → Conn → Out
vhost_get_features sys num_fds d =
    let supported = λ (bit : ℕ). g_default_features bit || sys.get_features bit in
    if not (num_fds == 0)
    then some (some einval, d)
    else some (reply sys (word supported) 8 (record d { supported_features = supported }))

-- `vhost_get_protocol_features`
unfoldable pub vhost_get_protocol_features : Sys → (num_fds : ℕ) → Conn → Out
vhost_get_protocol_features sys num_fds d =
    if not (num_fds == 0)
    then some (some einval, d)
    else some (reply sys (word d.supported_protocol_features) 8 d)

-- `vhost_set_protocol_features`
unfoldable pub vhost_set_protocol_features : Sys → Features → (size num_fds : ℕ) → Conn → Out
vhost_set_protocol_features sys features size num_fds d =
    if not (num_fds == 0) || ltb size 8
    then some (some einval, d)
    else if not (d.num_vrings_in_flight == 0)
    then some (some eisconn, d)
    else if any_bit 64 (beyond features d.supported_protocol_features)
    then some (some enotsup, d)
    else some (ack sys none (record d { negotiated_protocol_features = features }))

abbrev pub with_log : Option ℕ → Ring → Ring
with_log log r = record r { shadow_vq = record (r.shadow_vq) { log = log } }

-- The log that the vrings are to use.
abbrev pub shadow_log : Conn → Option ℕ
shadow_log d = if d.negotiated_features f_log_all then d.memlog else none

-- `update_shadow_vq_memlog`
unfoldable pub update_shadow_vq_memlog : Conn → Conn
update_shadow_vq_memlog d = record d { vrings = map (with_log (shadow_log d)) d.vrings }

-- `vhost_set_features`
unfoldable pub vhost_set_features : Sys → Features → (size num_fds : ℕ) → Conn → Out
unfolding update_shadow_vq_memlog
vhost_set_features sys features size num_fds d =
    let has_event_idx = features f_event_idx in
    let supported = λ (bit : ℕ). d.supported_features bit && not (bit == f_protocol_features) in
    let changed =
      λ (bit : ℕ). xor (d.negotiated_features bit) (features bit) && not (bit == f_log_all) in
    let negotiated = record d { negotiated_features = features } in
    if not (num_fds == 0) || ltb size 8
    then some (some einval, d)
    else if any_bit 64 (beyond features supported)
    then some (some enotsup, d)
    else if d.num_vrings_in_flight == 0
    then some (
        ack sys none (record negotiated {
          vrings =
              map (λ (r : Ring). record r { vq = record (r.vq) { has_event_idx = has_event_idx } })
                d.vrings;
        }))
    else if any_bit 64 changed
    then some (some eisconn, d)
    else (let logged = update_shadow_vq_memlog negotiated in
        some
          (none, handle_all sync_bh (record logged { handle_complete = some features_complete })))

-- `vhost_set_owner`
unfoldable pub vhost_set_owner : Sys → (num_fds : ℕ) → Conn → Out
vhost_set_owner sys num_fds d =
    if not (num_fds == 0) then some (some einval, d) else some (ack sys none d)

-- `vhost_get_queue_num`
unfoldable pub vhost_get_queue_num : Sys → (num_fds : ℕ) → Conn → Out
vhost_get_queue_num sys num_fds d =
    if not (num_fds == 0)
    then some (some einval, d)
    else some (reply sys (number (length d.vrings)) 8 d)

-- `VHOST_CONFIG_HDR_SIZE` and `sizeof(struct vhost_user_config_space)`
abbrev pub config_hdr_size : ℕ
config_hdr_size = 12

abbrev pub sizeof_config_space : ℕ
sizeof_config_space = 268

-- `vhost_get_config`: the offset and the size that the message asks for, and its own size.
unfoldable pub vhost_get_config : Sys → (offset asked size num_fds : ℕ) → Conn → Out
vhost_get_config sys offset asked size num_fds d =
    let room = size - config_hdr_size in
    let bytes = sys.get_config (if ltb room asked then room else asked) offset in
    if not (num_fds == 0) || ltb size config_hdr_size || ltb sizeof_config_space size
    then some (some einval, d)
    else some (reply sys (config offset (length bytes) bytes) size d)
