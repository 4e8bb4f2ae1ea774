-- ===== src/Msg/Reply.antt =====
-- The start and the end of the handling of a message, its reply, and the vrings that it is about
-- (vdev.c).
use ya_vhost.Prelude.{
  ℕ, suc, ◌+◌, List, [], ◌∷◌, Option, none, some, Bool, false, not, ◌&&◌, ◌==◌, ltb, if◌then◌else◌,
  u8, u16, has_bit, get_elem?, set,
}
use ya_vhost.Errno.{Errno}
use ya_vhost.Msg.State.{
  Ring, Handler, gone, detached, attached, RqBh, Payload, status, Sent, Conn, Sys,
}

-- `VHOST_USER_NONE`, and the bits `VHOST_USER_PROTOCOL_F_REPLY_ACK` and
-- `VHOST_USER_MSG_FLAGS_REPLY_ACK`
abbrev pub req_none : ℕ
req_none = 0

abbrev pub f_reply_ack : ℕ
f_reply_ack = 3

abbrev pub flag_reply_ack : ℕ
flag_reply_ack = 3

-- `msg_ack_needed`
unfoldable pub msg_ack_needed : Conn → (flags : ℕ) → Bool
msg_ack_needed d flags = d.negotiated_protocol_features f_reply_ack && has_bit flags flag_reply_ack

-- `vdev_handle_start`
unfoldable pub handle_start : (req : ℕ) → (ack_pending : Bool) → Conn → Conn
handle_start req ack_pending d = record d {
  conn_handler = detached;
  req = req;
  ack_pending = ack_pending;
  timer_handler = attached;
}

abbrev pub resume : Handler → Handler
resume gone = gone
resume detached = attached
resume attached = attached

-- `vdev_handle_finish`
unfoldable pub handle_finish : Conn → Conn
handle_finish d = record d {
  timer_handler = detached;
  ack_pending = false;
  req = req_none;
  conn_handler = resume d.conn_handler;
  finishes = suc d.finishes;
}

-- `vhost_reply_fds`, with `vhost_send_fds`: only a reply that was sent finishes the message.
unfoldable pub reply_fds : Sys → Payload → (len : ℕ) → (fds : List ℕ) → Conn → Option Errno × Conn
unfolding handle_finish
reply_fds sys payload len fds d = elim sys.send [
  | some e ↦ (some e, d)
  | none ↦
      let msg : Sent = record { req = d.req; payload = payload; len = len; fds = fds } in
      (none, handle_finish (record d { sent = msg ∷ d.sent }))
]

-- `vhost_reply`
unfoldable pub reply : Sys → Payload → (len : ℕ) → Conn → Option Errno × Conn
unfolding reply_fds
reply sys payload len d = reply_fds sys payload len [] d

-- `vhost_ack`, with the error that it tells the client, or none.
unfoldable pub ack : Sys → Option Errno → Conn → Option Errno × Conn
unfolding reply handle_finish
ack sys ret d = if not d.ack_pending then (none, handle_finish d) else reply sys (status ret) 8 d

-- `vring_handle_msg` on the vring `i`.
unfoldable pub handle_msg : RqBh → ℕ → Ring → Conn → Conn
handle_msg bh i r d = if not r.started_in_ctl then d else record d {
  num_vrings_handling_msg = suc d.num_vrings_handling_msg;
  posted = (bh, i) ∷ d.posted;
}

-- How many vrings are started, and the bottom half `bh` of each, from the vring numbered `i`.
unfoldable pub started_vrings : List Ring → ℕ
started_vrings [] = 0
started_vrings (r ∷ rs) = (if r.started_in_ctl then 1 else 0) + started_vrings rs

unfoldable pub post_started : RqBh → ℕ → List Ring → List (RqBh × ℕ) → List (RqBh × ℕ)
post_started bh i [] posted = posted
post_started bh i (r ∷ rs) posted =
    post_started bh (suc i) rs (if r.started_in_ctl then (bh, i) ∷ posted else posted)

-- The loop that calls `vring_handle_msg` on all vrings.
unfoldable pub handle_all : RqBh → Conn → Conn
unfolding started_vrings post_started
handle_all bh d = record d {
  num_vrings_handling_msg = d.num_vrings_handling_msg + started_vrings d.vrings;
  posted = post_started bh 0 d.vrings d.posted;
}

-- `get_vring`; the index of the messages is cut to 16 bits.
unfoldable pub get_vring : Conn → (index : ℕ) → Option Ring
get_vring d index = get_elem? d.vrings (u16 index)

-- `msg_u64_get_vring`: the number of the vring, and the vring.
unfoldable pub msg_u64_get_vring : Conn → (u64 size num_fds : ℕ) → Option (ℕ × Ring)
unfolding get_vring
msg_u64_get_vring d u64 size num_fds =
    let has_fd = if has_bit u64 8 then 0 else 1 in
    if ltb size 8
    then none
    else if not (num_fds == has_fd)
    then none
    else elim (get_vring d (u8 u64)) [ none ↦ none | some r ↦ some (u8 u64, r) ]

abbrev pub put_ring : ℕ → Ring → Conn → Conn
put_ring i r d = record d { vrings = set d.vrings i r }
