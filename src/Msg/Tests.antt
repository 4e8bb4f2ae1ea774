-- ===== src/Msg/Tests.antt =====
-- Messages at concrete inputs.
use ya_vhost.Prelude.{ℕ, ◌≡◌, ◌≤◌, ◌↔◌, refl, List, [], ◌∷◌, none, some, true, false, arith, ◌==◌}
use ya_vhost.Errno.{einval, os, Result, ok, err}
use ya_vhost.Msg.Net.{Received, net_recv_msg, net_recv_msg-Arrived, Arrived, sizeof_hdr}
use ya_vhost.Msg.State.{Ring, Conn, Sys, attached, detached, no_addrs}
use ya_vhost.Msg.Reply.{msg_u64_get_vring, ack}
use ya_vhost.Msg.Dispatch.{MsgPayload, vhost_handle_msg}
use ya_vhost.Msg.Rings.{vhost_set_vring_call, swap_fd}
use ya_vhost.Msg.Inflight.{vhost_set_inflight_fd, vring_inflight_buf_size, set_regions}
use ya_vhost.Msg.Read.{Incoming, conn_read}
use ya_vhost.Msg.Bottom.{AcceptSys, init_server, new_ring, vring_mark_drained, server_read}
use ya_vhost.MemMap.Os.{reserve, shared_file, anonymous}
use ya_vhost.Msg.Stranded.{mark_drained-unsent}
use ya_vhost.Msg.Regions.{Placed, set_inflight_fd-Placed}
use ya_vhost.Msg.Leaks.{Move, accept, read, moves, IsSound, moves-init_server}

-- A header with two descriptors, and half of the payload.
abbrev cut_short : Received
cut_short = record { bytes = 12; fds = 15 ∷ (16 ∷ []) }

abbrev whole : Result ℕ
whole = ok 8

net_recv_msg-Arrived_example :
    Arrived (net_recv_msg (ok cut_short) 8 whole 272 8).result
    ↔ ((cut_short.bytes ≡ sizeof_hdr) × (8 ≤ 272) × (whole ≡ ok 8))
net_recv_msg-Arrived_example = net_recv_msg-Arrived cut_short 8 whole 272 8

-- A system where the maps fail, and all else succeeds.
abbrev willing : Sys
willing = record {
  dup = ok 20;
  send = none;
  os = record { mmap = λ req. err einval; munmap = λ addr len. none };
  memlog_new = some 7;
  memfd_create = ok 30;
  ftruncate = none;
  virtq_init = true;
  mmap = ok 0x7000;
  get_features = λ bit. false;
  get_config = λ size offset. [];
}

abbrev fresh : Conn
unfolding init_server
fresh = init_server none none (λ bit. bit == 3) 2

abbrev accepting : AcceptSys
accepting = record { accept = ok 10; conn_added = true; timerfd_create = ok 11; timer_added = true }

abbrev zeros : MsgPayload
zeros = record {
  u64 = 0;
  features = λ bit. false;
  config_offset = 0;
  config_size = 0;
  nregions = 0;
  regions = [];
  index = 0;
  num = 0;
  vring_flags = 0;
  vring_addrs = no_addrs;
  used_gpa_base = 0;
  mmap_size = 0;
  mmap_offset = 0;
  num_queues = 0;
  queue_size = 0;
}

-- VHOST_USER_SET_VRING_CALL for the vring 1, with the descriptor 15.
abbrev set_call : Incoming
set_call = record {
  recvmsg = ok (record { bytes = 12; fds = 15 ∷ [] });
  req = 13;
  flags = 0;
  size = 8;
  read = ok 8;
  payload = record zeros { u64 = 1 };
}

-- The device with the connection.
abbrev connected : Conn
connected = record fresh {
  connfd = some 10;
  conn_handler = attached;
  timerfd = some 11;
  timer_handler = detached;
  opened = 11 ∷ (10 ∷ []);
}

-- The same once it has the descriptor: it is duplicated, and the one of the message is closed.
abbrev with_call : Conn
with_call = record connected {
  vrings = new_ring ∷ (record new_ring { callfd = some 20 } ∷ []);
  opened = 20 ∷ (15 ∷ connected.opened);
  closed = 15 ∷ [];
  finishes = 1;
}

conn_read-call : conn_read willing set_call connected ≡ some with_call
unfolding conn_read init_server vhost_handle_msg vhost_set_vring_call swap_fd msg_u64_get_vring
    net_recv_msg
conn_read-call = refl

-- A client connects, and sends the message.
abbrev script : List Move
script = accept accepting ∷ (read willing set_call ∷ [])

script-runs : moves script (init_server none none (λ bit. bit == 3) 2) ≡ some with_call
unfolding moves server_read conn_read init_server vhost_handle_msg vhost_set_vring_call swap_fd
    msg_u64_get_vring net_recv_msg
script-runs = refl

moves-init_server_example : IsSound with_call
moves-init_server_example =
    moves-init_server none none (λ bit. bit == 3) 2 script with_call script-runs

-- The vring 0 is stopped, and its base was asked for; the client is not there any more.
abbrev drained_ring : Ring
drained_ring = record new_ring { started_in_ctl = true; on_drain_cb = true }

abbrev asked_base : Conn
asked_base = record connected {
  conn_handler = detached;
  timer_handler = attached;
  req = 11;
  vrings = drained_ring ∷ (new_ring ∷ []);
  num_vrings_in_flight = 1;
}

abbrev hung_up : Sys
hung_up = record willing { send = some (os 32) }

mark_drained-unsent_example : vring_mark_drained hung_up 0 asked_base ≡ none
unfolding init_server
mark_drained-unsent_example =
    mark_drained-unsent hung_up 0 asked_base drained_ring (os 32) refl refl refl refl refl
      (omega arith) refl refl refl

abbrev ring_at_region : ℕ → Ring
ring_at_region region = record new_ring {
  vq = record (new_ring.vq) { inflight_region = some region };
}

-- The client gave inflight memory for two queues of 8, and then gives some for one: the vring 1 keeps
-- its region in the memory that is unmapped.
abbrev two_regions : Conn
two_regions = record connected {
  vrings = ring_at_region 0x6000 ∷ (ring_at_region 0x6090 ∷ []);
  inflight_mem = some 0x6000;
  inflight_size = 288;
}

abbrev one_region : Conn
one_region = record connected {
  vrings = ring_at_region 0x7000 ∷ (ring_at_region 0x6090 ∷ []);
  inflight_mem = some 0x7000;
  inflight_size = 144;
  unmapped_inflight = (0x6000, 288) ∷ [];
  finishes = 1;
}

one_region-runs : vhost_set_inflight_fd willing 144 0 1 8 24 1 two_regions ≡ some (none, one_region)
unfolding vhost_set_inflight_fd vring_inflight_buf_size init_server ack set_regions
one_region-runs = refl

set_inflight_fd-Placed_example :
    Placed two_regions one_region 0x7000 (vring_inflight_buf_size 8) 1 1
unfolding init_server
set_inflight_fd-Placed_example =
    set_inflight_fd-Placed willing 144 0 1 8 24 1 1 0x7000 two_regions one_region refl (omega arith)
      one_region-runs

-- A system that maps where it likes, and a device with a vring that is started.
abbrev mapping : Sys
mapping = record willing {
  os = record {
    mmap = λ req. elim req [
      | reserve len ↦ ok 0x10000000
      | shared_file addr len fd offset ↦ ok addr
      | anonymous addr len ↦ ok addr
    ];
    munmap = λ addr len. none;
  };
}

abbrev running : Conn
running = record connected {
  vrings =
      record new_ring {
        started_in_ctl = true;
        addr_cache = record { desc = 0x40000000; used = 0x40000400; avail = 0x40000800 };
      }
      ∷ (new_ring ∷ []);
  num_vrings_in_flight = 1;
  num_vrings_started = 1;
}
