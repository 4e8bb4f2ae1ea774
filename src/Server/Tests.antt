-- ===== src/Server/Tests.antt =====
-- The vhost server (server.c) at concrete inputs.
use ya_vhost.Prelude.{
  ℕ, ◌≡◌, refl, List, [], ◌∷◌, ◌++◌, none, some, true, false, ◌==◌, if◌then◌else◌, times, ◌+◌,
}
use ya_vhost.Errno.{Errno, ok}
use ya_vhost.Event.Handlers.{
  Handlers, Ready, del, perform_all, perform, del_io_handler, detach_io_handler, handle_events,
  handle_ready,
}
use ya_vhost.Event.Run.{
  calls, EventLoop, Waited, timed_out, failed, woken_by, bh_poll, free_event_loop, bh_cleanup,
}
use ya_vhost.Server.Thread.{start_vhost_server, stop_vhost_server}
use ya_vhost.Server.Devices.{
  Registry, list_remove, SocketCalls, absent, bind_and_listen, open_socket, sock_create_server, Sem,
  vdev_release, vfs_free, vdev_work_fn, submit_work_and_wait, vdev_start, vhd_vdev_init_server,
  vhd_register_fs, vhd_unregister_fs,
}
use ya_vhost.Server.Registered.{vhd_unregister_fs-register, vhd_register_fs-refused}
use ya_vhost.Server.Stops.{all_quiet, is_quiet, stop_vhost_server-stops}

abbrev one_handler : Handlers
one_handler = record {
  attached = λ h. h == 3;
  deleted_handlers = [];
  num_events_attached = 1;
  called = [];
  freed = [];
}

-- A bottom half is to delete the handler 3, for which an event is ready.
abbrev serving : EventLoop
serving = record {
  has_home_thread = true;
  is_terminated = false;
  bhs = calls (del none 3 ∷ []) ∷ [];
  handlers = one_handler;
}

abbrev ready : List Ready
ready = record { handler = some 3; readable = true; ops = []; fails = true } ∷ []

abbrev left : Handlers
left = record {
  attached = λ h. if h == 3 then false else h == 3;
  deleted_handlers = 3 ∷ [];
  num_events_attached = 0;
  called = [];
  freed = [];
}

abbrev interrupted : List Waited
interrupted = timed_out ∷ failed true (Errno.os 4) ∷ []

stop_vhost_server-stops_example :
    stop_vhost_server (interrupted ++ woken_by ready [] [] ∷ []) (record { evloop = some serving })
    ≡ some (record { evloop = none })
unfolding all_quiet is_quiet bh_poll perform_all perform del_io_handler detach_io_handler
    handle_events handle_ready
stop_vhost_server-stops_example =
    stop_vhost_server-stops interrupted [] ready [] serving
      (record serving { is_terminated = true; bhs = []; handlers = left })
      (record left { deleted_handlers = []; freed = 3 ∷ [] }) refl refl refl refl refl

-- The server does not start without its thread, and the loop that it frees never ran.
start_vhost_server_aborts :
    start_vhost_server true (some (Errno.os 11)) (record { evloop = none }) ≡ none
unfolding start_vhost_server free_event_loop bh_cleanup
start_vhost_server_aborts = refl

abbrev socket_calls : SocketCalls
socket_calls = record {
  path_length = 20;
  unlinked = absent;
  socket = ok 7;
  bound = none;
  listened = none;
}

-- Its `bind` fails.
abbrev unbound_calls : SocketCalls
unbound_calls = record socket_calls { bound = some (Errno.os 13) }

abbrev working : Sem
working = record { init = none; wait = none }

-- The device 1 is registered.
abbrev one_device : Registry
one_device = record {
  vdevs = 1 ∷ [];
  devices = 1 ∷ [];
  opened = 6 ∷ [];
  closed = [];
  freed = [];
  released = [];
}

vhd_unregister_fs-register_example :
    vhd_unregister_fs working false true 7 2
      (record one_device { vdevs = 2 ∷ 1 ∷ []; devices = 2 ∷ 1 ∷ []; opened = 7 ∷ 6 ∷ [] })
    ≡ some (record one_device {
      opened = 7 ∷ 6 ∷ [];
      closed = 7 ∷ [];
      freed = 2 ∷ [];
      released = 2 ∷ [];
    })
unfolding vhd_register_fs vhd_vdev_init_server sock_create_server open_socket bind_and_listen
    submit_work_and_wait vdev_work_fn vdev_start
vhd_unregister_fs-register_example =
    vhd_unregister_fs-register socket_calls working working true 3 7 2 one_device
      (record one_device { vdevs = 2 ∷ 1 ∷ []; devices = 2 ∷ 1 ∷ []; opened = 7 ∷ 6 ∷ [] }) refl
      refl refl

vhd_register_fs-refused_example :
    (one_device.vdevs ≡ one_device.vdevs)
    × (one_device.devices ≡ one_device.devices)
    × (2 ∷ [] ≡ 2 ∷ one_device.freed)
    × ((fd : ℕ)
        → times fd (7 ∷ 6 ∷ []) + times fd one_device.closed
          ≡ times fd (7 ∷ []) + times fd one_device.opened)
unfolding vhd_register_fs vhd_vdev_init_server sock_create_server open_socket bind_and_listen
    list_remove
vhd_register_fs-refused_example =
    vhd_register_fs-refused unbound_calls working true 3 2 one_device
      (record one_device { opened = 7 ∷ 6 ∷ []; closed = 7 ∷ []; freed = 2 ∷ [] }) refl refl

-- The handler of its socket cannot be added.
register_not_added : vhd_register_fs socket_calls working false 3 2 one_device ≡ none
unfolding vhd_register_fs vhd_vdev_init_server sock_create_server open_socket bind_and_listen
    submit_work_and_wait vdev_work_fn vdev_start vdev_release vfs_free list_remove
register_not_added = refl
