-- ===== src/Server/Registered.antt =====
-- What the registration of a device leaves behind (vdev.c, fs.c).
use ya_vhost.Prelude.{
  times, ℕ, ◌+◌, ◌≡◌, ◌≢◌, ◌⊎◌, ◌≤◌, List, ◌∷◌, none, some, Bool, true, false, arith,
}
use ya_vhost.Errno.{ok}
use ya_vhost.Server.Devices.{
  Registry, list_remove, SocketCalls, bind_and_listen, open_socket, sock_create_server, vfs_free,
  vdev_release, Sem, vdev_work_fn, submit_work_and_wait, vdev_start, vhd_vdev_init_server,
  vhd_register_fs, vdev_stop, vhd_vdev_stop_server, vhd_unregister_fs,
}

list_remove-head : (d : ℕ) (xs : List ℕ) → list_remove d (d ∷ xs) ≡ some xs
unfolding list_remove
list_remove-head d xs = ground arith

-- What a registration leaves that returned the device.
registered_lem :
    (calls : SocketCalls) (sem : Sem) (added : Bool) (num_queues fd d : ℕ) (r r' : Registry)
    → calls.socket ≡ ok fd
    → vhd_register_fs calls sem added num_queues d r ≡ some (true, r')
    → r' ≡ record r { vdevs = d ∷ r.vdevs; devices = d ∷ r.devices; opened = fd ∷ r.opened }
unfolding vhd_register_fs vhd_vdev_init_server sock_create_server open_socket bind_and_listen
    submit_work_and_wait vdev_work_fn vdev_start
registered_lem calls sem added num_queues fd d r r' s e = ground (arith, s, e)

-- A file system device that was registered, and has no client and no work when it is removed: if the
-- semaphore of the removal works, `vhd_unregister_fs` leaves the lists of devices as they were before
-- the registration, has freed the device, called its release callback, and closed the socket.
pub vhd_unregister_fs-register :
    (calls : SocketCalls) (sem sem' : Sem) (added : Bool) (num_queues fd d : ℕ) (r r' : Registry)
    → calls.socket ≡ ok fd
    → vhd_register_fs calls sem added num_queues d r ≡ some (true, r')
    → sem'.init ≡ none
    → vhd_unregister_fs sem' false true fd d r'
      ≡ some (record r {
        opened = fd ∷ r.opened;
        closed = fd ∷ r.closed;
        freed = d ∷ r.freed;
        released = d ∷ r.released;
      })
unfolding vhd_unregister_fs vhd_vdev_stop_server vdev_stop submit_work_and_wait vdev_work_fn
    vdev_release vfs_free
vhd_unregister_fs-register calls sem sem' added num_queues fd d r r' s e i = ground (
  arith,
  i,
  registered_lem calls sem added num_queues fd d r r' s e,
  list_remove-head d r.vdevs,
  list_remove-head d r.devices,
)

-- If `vhd_register_fs` returns NULL, for a device that was not on the list of devices, the lists of
-- devices are as before, the device is freed once, and no descriptor is left open.
pub vhd_register_fs-refused :
    (calls : SocketCalls) (sem : Sem) (added : Bool) (num_queues d : ℕ) (r r' : Registry)
    → list_remove d r.devices ≡ none
    → vhd_register_fs calls sem added num_queues d r ≡ some (false, r')
    → (r'.vdevs ≡ r.vdevs)
      × (r'.devices ≡ r.devices)
      × (r'.freed ≡ d ∷ r.freed)
      × ((fd : ℕ) → times fd r'.opened + times fd r.closed ≡ times fd r'.closed + times fd r.opened)
unfolding vhd_register_fs vhd_vdev_init_server sock_create_server open_socket bind_and_listen
    submit_work_and_wait vdev_work_fn vdev_start times vdev_release vfs_free
vhd_register_fs-refused calls sem added num_queues d r r' new e = (
  ground (arith, e, new),
  ground (arith, e, new),
  ground (arith, e, new),
  λ fd. ground (arith, e, new),
)

-- A device that is not on the list of devices before its registration, which has its socket, and
-- whose start fails, because of the semaphore or of the handler: `vhd_vdev_init_server` has released
-- the device, which is not on the list of devices yet, and `vhd_register_fs` does not return.
pub vhd_register_fs-unstarted :
    (calls : SocketCalls) (sem : Sem) (added : Bool) (num_queues fd d : ℕ) (r s : Registry)
    → list_remove d r.devices ≡ none
    → sock_create_server calls r ≡ (ok fd, s)
    → (num_queues ≤ 256)
    → (added ≡ false) ⊎ (sem.init ≢ none)
    → vhd_register_fs calls sem added num_queues d r ≡ none
unfolding vhd_register_fs vhd_vdev_init_server sock_create_server open_socket bind_and_listen
    submit_work_and_wait vdev_work_fn vdev_start times vdev_release vfs_free list_remove
vhd_register_fs-unstarted calls sem added num_queues fd d r s new sock few fails =
    ground (arith, new, sock, few, fails)
