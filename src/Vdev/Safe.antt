-- ===== src/Vdev/Safe.antt =====
-- No function of the life of the vrings of a device (vdev.c) fails an assertion, and what they leave
-- when the connection is closed.
use ya_vhost.Prelude.{ℕ, suc, ◌<◌, ◌≡◌, Bool, true, Option, some}
use ya_vhost.Vdev.Life.{
  Device, put, vring_start, disconnect, mark_msg_handled, mark_stopped, mark_drained, start_failed,
  stop,
}
use ya_vhost.Vdev.Running.{Reach}
use ya_vhost.Vdev.Handlers.{Flags}
use ya_vhost.Vdev.Invariant.{Reach-Inv}

abbrev pub Succeeds {ℓ} : {A : Type ℓ} → Option A → Type ℓ
Succeeds {A = A} o = (a : A) × (o ≡ some a)

-- Everything that may run next succeeds: the end of the connection and of the device, and each bottom
-- half that is scheduled.
pub record IsSafe (d : Device) : Type 0 where
  pub disconnect_ends : Succeeds (disconnect d)
  pub stop_ends : d.listen_handler ≡ true → Succeeds (stop d)
  pub start_ends :
      (i n : ℕ) (attached : Bool)
      → i < d.num_queues
      → (d.vrings i).start_bh ≡ suc n
      → Succeeds (vring_start attached (record (d.vrings i) { start_bh = n }))
  pub msg_handled_ends :
      (i n : ℕ) (fails : Bool)
      → i < d.num_queues
      → (d.vrings i).msg_handled_bh ≡ suc n
      → Succeeds (mark_msg_handled fails (put d i (record (d.vrings i) { msg_handled_bh = n })))
  pub vring_stopped_ends :
      (i n : ℕ)
      → i < d.num_queues
      → (d.vrings i).mark_stopped_bh ≡ suc n
      → Succeeds (mark_stopped (put d i (record (d.vrings i) { mark_stopped_bh = n })))
  pub vring_drained_ends :
      (i n : ℕ) (fails : Bool)
      → i < d.num_queues
      → (d.vrings i).mark_drained_bh ≡ suc n
      → Succeeds (mark_drained i fails (put d i (record (d.vrings i) { mark_drained_bh = n })))
  pub not_started_ends :
      (i n : ℕ) (fails drain_fails : Bool)
      → i < d.num_queues
      → (d.vrings i).start_failed_bh ≡ suc n
      → Succeeds
          (start_failed i fails drain_fails (put d i (record (d.vrings i) { start_failed_bh = n })))

-- In every state that is reached the work of a stop waits exactly while the device is stopping and a
-- vring is started; the device is released exactly if it is stopping and its last connection is
-- closed; a closed connection leaves no vring started, in flight or handling a message; and a device
-- that is stopping reads no message.
pub Reach-Flags : {q : ℕ} {d : Device} → Reach q d → Flags d
Reach-Flags r = (Reach-Inv r).flags
