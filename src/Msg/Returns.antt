-- ===== src/Msg/Returns.antt =====
-- conn_read of vdev.c on a device that is between messages.
use ya_vhost.Prelude.{◌≡◌, ◌≢◌, ◌<◌, Option, none, some, Bool, true, false}
use ya_vhost.Msg.State.{Conn}
use ya_vhost.Msg.Reply.{req_none, started_vrings}
use ya_vhost.Msg.Close.{is_gone}
use ya_vhost.Msg.Runs.{clear, Kickless}

-- The device is between messages: none is in handling, nothing is kept for the end of one, and no
-- stopped vring has a kick descriptor. A vring that may have requests in flight is a started one.
pub record IsIdle (d : Conn) : Type 0 where
  pub connected : is_gone d.conn_handler ≡ false
  pub req : d.req ≡ req_none
  pub settled : clear d ≡ true
  pub kicks : Kickless d
  pub used : d.num_vrings_in_flight ≢ 0 → 0 < started_vrings d.vrings

unfoldable returns : Option Conn → Bool
returns none = false
returns (some d) = true
