-- ===== src/Msg/Read.antt =====
-- conn_read of vdev.c: a message from the socket to its handler.
use ya_vhost.Prelude.{ℕ, List, ◌++◌, Option, none, some, ◌==◌, if◌then◌else◌}
use ya_vhost.Errno.{Result, ok, err}
use ya_vhost.Msg.Net.{Received, Recv, net_recv_msg, max_fds}
use ya_vhost.Msg.State.{Conn, Sys, Out}
use ya_vhost.Msg.Reply.{msg_ack_needed, handle_start, handle_finish}
use ya_vhost.Msg.Dispatch.{MsgPayload, vhost_handle_msg}
use ya_vhost.Msg.Close.{vdev_disconnect}

-- A message on the socket: what the calls of the system bring of it, and what it says.
pub record Incoming : Type 0 where
  pub recvmsg : Result Received
  pub req : ℕ
  pub flags : ℕ
  pub size : ℕ
  pub read : Result ℕ
  pub payload : MsgPayload

-- `sizeof(union vhost_user_msg_payload)`
abbrev pub sizeof_payload : ℕ
sizeof_payload = 272

-- What `conn_read` does with what `vhost_handle_msg` returns: it closes the descriptors of the
-- message, and ends a message that failed.
unfoldable pub conn_read_out : Sys → (fds : List ℕ) → Out → Option Conn
unfolding handle_finish vdev_disconnect
conn_read_out sys fds none = none
conn_read_out sys fds (some (none, d)) = some (record d { closed = fds ++ d.closed })
conn_read_out sys fds (some (some e, d)) =
    vdev_disconnect sys (handle_finish (record d { closed = fds ++ d.closed }))

-- `conn_read`, from what `net_recv_msg` returns.
unfoldable pub conn_read_received : Sys → Incoming → Result ℕ → (fds : List ℕ) → Conn → Option Conn
unfolding conn_read_out handle_start msg_ack_needed
conn_read_received sys m (err e) fds d = vdev_disconnect sys d
conn_read_received sys m (ok n) fds d =
    let start = handle_start m.req (msg_ack_needed d m.flags) d in
    if n == 0
    then vdev_disconnect sys d
    else conn_read_out sys fds (vhost_handle_msg sys m.req m.payload m.size fds start)

-- The device with the descriptors that `net_recv_msg` got.
abbrev pub received : Recv → Conn → Conn
received r d = record d { opened = r.fds ++ (r.closed ++ d.opened); closed = r.closed ++ d.closed }

-- `conn_read`
unfoldable pub conn_read : Sys → Incoming → Conn → Option Conn
unfolding conn_read_received
conn_read sys m d =
    let r = net_recv_msg m.recvmsg m.size m.read sizeof_payload max_fds in
    conn_read_received sys m r.result r.fds (received r d)
