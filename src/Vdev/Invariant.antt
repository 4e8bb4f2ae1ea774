-- ===== src/Vdev/Invariant.antt =====
-- What holds in every state of a device (vdev.c) that is reached.
use ya_vhost.Prelude.{ℕ, suc, sym, ◌∙◌, subst}
use mathlib.Core.Option.{some-injective}
use ya_vhost.Vdev.Life.{Device, put}
use ya_vhost.Vdev.Running.{
  Step, connected, kicked, synced, base_asked, disconnected, stopped, start, stop_vring, sync,
  submitted, completed, msg_handled, vring_stopped, vring_drained, not_started, Reach, begin, later,
}
use ya_vhost.Vdev.Handlers.{disconnect-Ends}
use ya_vhost.Vdev.Lifecycle.{
  Inv, Ends-Inv, stop-Ends, msg_handled-Ends, vring_stopped-Ends, vring_drained-Ends,
  not_started-Ends,
}
use ya_vhost.Vdev.Moves.{
  new_device-Inv, accept-Inv, kicked-Inv, synced-Inv, start-Inv, stop_vring-Inv, submitted-Inv,
  completed-Inv, bounded, sync-Inv, base_asked-Inv,
}

pub Step-Inv : {q : ℕ} {d d' : Device} → Step d d' → Inv q d → Inv q d'
Step-Inv {q} {d} (connected e l) inv = accept-Inv d q e l inv
Step-Inv {q} {d} (kicked i lt e ctl) inv = kicked-Inv d q i (bounded d q i lt inv) e ctl inv
Step-Inv {q} {d} (synced i lt e ctl) inv = synced-Inv d q i (bounded d q i lt inv) e inv
Step-Inv {q} {d} (base_asked i lt e ctl) inv =
    base_asked-Inv d q i (suc (d.vrings i).stop_bh) (bounded d q i lt inv) inv
Step-Inv {q} {d} (disconnected e) inv = Ends-Inv (disconnect-Ends d inv.flags inv.counts) e
Step-Inv {q} {d} (stopped l e) inv = Ends-Inv (stop-Ends d l inv.flags inv.counts) e
Step-Inv {q} {d} (start i attached {n} lt b e) inv =
    let (l, ends, after) = start-Inv d q i n attached (bounded d q i lt inv) b inv in
    subst (λ m. Inv q (put d i m)) (some-injective l _ (sym ends ∙ e)) after
Step-Inv {q} {d} (stop_vring i queued {n} lt b some_left) inv =
    stop_vring-Inv d q i n queued (bounded d q i lt inv) b some_left inv
Step-Inv {q} {d} (sync i {n} lt b) inv = sync-Inv d q i n (bounded d q i lt inv) b inv
Step-Inv {q} {d} (submitted i lt e small) inv = submitted-Inv d q i (bounded d q i lt inv) e inv
Step-Inv {q} {d} (completed i lt pos) inv = completed-Inv d q i (bounded d q i lt inv) pos inv
Step-Inv {q} {d} (msg_handled i fails {n} lt b e) inv =
    Ends-Inv (msg_handled-Ends d q i n fails inv (bounded d q i lt inv) b) e
Step-Inv {q} {d} (vring_stopped i {n} lt b e) inv =
    Ends-Inv (vring_stopped-Ends d q i n inv (bounded d q i lt inv) b) e
Step-Inv {q} {d} (vring_drained i fails {n} lt b e) inv =
    Ends-Inv (vring_drained-Ends d q i n fails inv (bounded d q i lt inv) b) e
Step-Inv {q} {d} (not_started i fails drain_fails {n} lt b e) inv =
    Ends-Inv (not_started-Ends d q i n fails drain_fails inv (bounded d q i lt inv) b) e

pub Reach-Inv : {q : ℕ} {d : Device} → Reach q d → Inv q d
Reach-Inv {q} begin = new_device-Inv q
Reach-Inv (later r st) = Step-Inv st (Reach-Inv r)
