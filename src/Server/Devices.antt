-- ===== src/Server/Devices.antt =====
-- The registration and the removal of a device, over the devices of the library (vdev.c, fs.c). What
-- the system answers is an argument, and `none` is a null pointer that is written through, or an assertion.
use ya_vhost.Prelude.{
  ℕ, List, [], ◌∷◌, Option, none, some, Bool, true, false, ◌==◌, ltb, leb, ◌&&◌, ◌^◌, u16,
  if◌then◌else◌,
}
use ya_vhost.Errno.{Errno, Result, ok, err}

-- `g_vdevs` and `g_fsdev_list` with their devices by numbers; the descriptors that were opened and
-- closed, and the devices that were freed and whose release callback was called, latest first.
pub record Registry : Type 0 where
  pub vdevs : List ℕ
  pub devices : List ℕ
  pub opened : List ℕ
  pub closed : List ℕ
  pub freed : List ℕ
  pub released : List ℕ

-- `LIST_REMOVE`: an entry that is on no list has no predecessor.
unfoldable pub list_remove : ℕ → List ℕ → Option (List ℕ)
list_remove d [] = none
list_remove d (x ∷ xs) =
    let rest = list_remove d xs in
    if d == x then some xs else elim rest [ none ↦ none | some ys ↦ some (x ∷ ys) ]

-- What the calls of `sock_create_server` answer.
pub data Unlinked : Type 0 where
  removed absent : Unlinked
  refused : Errno → Unlinked

pub record SocketCalls : Type 0 where
  pub path_length : ℕ
  pub unlinked : Unlinked
  pub socket : Result ℕ
  pub bound : Option Errno
  pub listened : Option Errno

-- `sizeof(sockaddr.sun_path)`
abbrev pub sun_path_size : ℕ
sun_path_size = 108

-- `bind` and `listen` in `sock_create_server`.
unfoldable pub bind_and_listen : SocketCalls → (fd : ℕ) → Registry → Result ℕ × Registry
bind_and_listen calls fd r = elim calls.bound [
  | some e ↦ (err e, record r { closed = fd ∷ r.closed })
  | none ↦ elim calls.listened [
    | some e ↦ (err e, record r { closed = fd ∷ r.closed })
    | none ↦ (ok fd, r)
  ]
]

-- `socket` and what follows in `sock_create_server`.
unfoldable pub open_socket : SocketCalls → Registry → Result ℕ × Registry
unfolding bind_and_listen
open_socket calls r = elim calls.socket [
  | err e ↦ (err e, r)
  | ok fd ↦ bind_and_listen calls fd (record r { opened = fd ∷ r.opened })
]

-- `sock_create_server`
unfoldable pub sock_create_server : SocketCalls → Registry → Result ℕ × Registry
unfolding open_socket
sock_create_server calls r =
    if leb sun_path_size calls.path_length then (err Errno.einval, r) else elim calls.unlinked [
      | refused e ↦ (err e, r)
      | removed ↦ open_socket calls r
      | absent ↦ open_socket calls r
    ]

-- `vfs_free`
unfoldable pub vfs_free : ℕ → Registry → Option Registry
unfolding list_remove
vfs_free d r = elim (list_remove d r.devices) [
  | none ↦ none
  | some devices ↦ some (record r { devices = devices; freed = d ∷ r.freed })
]

-- `vhd_vdev_release` of a device with `vfs_free`; `callback` is whether it has a release callback.
unfoldable pub vdev_release : (callback : Bool) → ℕ → Registry → Option Registry
unfolding vfs_free list_remove
vdev_release callback d r = elim (list_remove d r.vdevs) [
  | none ↦ none
  | some vdevs ↦
      vfs_free d
        (record r { vdevs = vdevs; released = if callback then d ∷ r.released else r.released })
]

-- The semaphore of `vhd_submit_work_and_wait`: the errors of `sem_init` and of `sem_wait`.
pub record Sem : Type 0 where
  pub init : Option Errno
  pub wait : Option Errno

-- A function of the control loop that completes its work with a result.
abbrev pub Work : Type 0
Work = Registry → Option (Option Errno × Registry)

-- `EBUSY`
abbrev pub ebusy : Errno
ebusy = Errno.os 16

-- `vdev_work_fn` on a device with a work or without one.
unfoldable pub vdev_work_fn : (busy : Bool) → Work → Work
vdev_work_fn busy func r = if busy then some (some ebusy, r) else func r

-- `vdev_submit_work_and_wait`, with `vhd_submit_work_and_wait`.
unfoldable pub submit_work_and_wait : Sem → (busy : Bool) → Work → Work
unfolding vdev_work_fn
submit_work_and_wait sem busy func r = elim sem.init [
  | some e ↦ some (some e, r)
  | none ↦ elim (vdev_work_fn busy func r) [
    | none ↦ none
    | some (ret, r') ↦ elim sem.wait [ none ↦ some (ret, r') | some e ↦ some (some e, r') ]
  ]
]

-- `vdev_start` with `vdev_start_listening`; `added` is whether the handler of the socket is added.
unfoldable pub vdev_start : (added : Bool) → Work
vdev_start added r = some ((if added then none else some Errno.eio), r)

-- `vhd_vdev_init_server` of a new device. `max_queues` comes as a uint32_t, is tested as an int and cut
-- to 16 bits; without a queue, the assertion of `vhd_calloc` fails.
unfoldable pub vhd_vdev_init_server :
    SocketCalls → Sem → (added : Bool) → (max_queues : ℕ) → ℕ → Work
unfolding sock_create_server submit_work_and_wait vdev_start vdev_release
vhd_vdev_init_server calls sem added max_queues d r =
    let (listenfd, r') = sock_create_server calls r in
    let too_many = ltb 256 max_queues && ltb max_queues (2 ^ 31) in
    if too_many then some (some (Errno.os 1), r) else elim listenfd [
      | err e ↦ some (some (Errno.os 1), r')
      | ok fd ↦
          if u16 max_queues == 0
          then none
          else elim (submit_work_and_wait sem false (vdev_start added)
              (record r' { vdevs = d ∷ r'.vdevs })) [
                | none ↦ none
                | some (ret, s) ↦ elim ret [
                  | none ↦ some (none, s)
                  | some e ↦ elim (vdev_release false d s) [
                    | none ↦ none
                    | some s' ↦ some (some e, s')
                  ]
                ]
              ]
    ]

-- `vhd_register_fs`: whether it returns the device, which is `d`.
unfoldable pub vhd_register_fs :
    SocketCalls → Sem → (added : Bool) → (num_queues : ℕ) → ℕ → Registry → Option (Bool × Registry)
unfolding vhd_vdev_init_server
vhd_register_fs calls sem added num_queues d r =
    elim (vhd_vdev_init_server calls sem added num_queues d r) [
      | none ↦ none
      | some (res, s) ↦ elim res [
        | none ↦ some (true, record s { devices = d ∷ s.devices })
        | some e ↦ some (false, record s { freed = d ∷ s.freed })
      ]
    ]

-- `vdev_stop` of a device without a client: it stops listening, and is drained and released at once.
unfoldable pub vdev_stop : (callback : Bool) → (listenfd d : ℕ) → Work
unfolding vdev_release
vdev_stop callback listenfd d r =
    elim (vdev_release callback d (record r { closed = listenfd ∷ r.closed })) [
      | none ↦ none
      | some s ↦ some (none, s)
    ]

-- `vhd_vdev_stop_server` of such a device; `busy` is whether it has a work.
unfoldable pub vhd_vdev_stop_server : Sem → (busy callback : Bool) → (listenfd d : ℕ) → Work
unfolding submit_work_and_wait vdev_stop
vhd_vdev_stop_server sem busy callback listenfd d =
    submit_work_and_wait sem busy (vdev_stop callback listenfd d)

-- `vhd_unregister_fs` of such a device.
unfoldable pub vhd_unregister_fs :
    Sem → (busy callback : Bool) → (listenfd d : ℕ) → Registry → Option Registry
unfolding vhd_vdev_stop_server
vhd_unregister_fs sem busy callback listenfd d r =
    elim (vhd_vdev_stop_server sem busy callback listenfd d r) [
      | none ↦ none
      | some (ret, s) ↦ some s
    ]
