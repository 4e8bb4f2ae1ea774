-- ===== src/Vdev/Settle.antt =====
-- The end of a connection and of a device: `vdev_maybe_vrings_stopped` and `vdev_maybe_drained`
-- (vdev.c).
use ya_vhost.Prelude.{
  ◌≡◌, refl, ap, Bool, true, false, not, ◌&&◌, some, ◌==◌, ltb, inl, inr, arith, Bool-cases,
}
use ya_vhost.Vdev.Life.{
  Device, vrings_stopped, maybe_vrings_stopped, in_use, release, drained, maybe_drained, settle,
}

-- Nothing is left to wait for: not in use, and no vring is started.
abbrev pub idle : Device → Bool
idle d = not (in_use d) && (d.num_vrings_started == 0)

abbrev pub with_flags : Device → (work connfd released : Bool) → Device
with_flags d w c r = record d { work = w; connfd = c; released = r }

-- What `vdev_maybe_drained` makes of a device that is not released.
abbrev pub calm : Device → Device
calm d = with_flags d d.work (not (idle d) && d.connfd) (idle d && not d.listen_handler)

abbrev pub settled : Device → Device
settled d =
    with_flags d (ltb 0 d.num_vrings_started && not d.listen_handler) (not (idle d) && d.connfd)
      (idle d && not d.listen_handler)

same_flags :
    (d : Device) {w c r : Bool}
    → d.work ≡ w
    → d.connfd ≡ c
    → d.released ≡ r
    → d ≡ with_flags d w c r
same_flags d e f g i = with_flags d (e i) (f i) (g i)

same_work : (d : Device) {w : Bool} → d.work ≡ w → d ≡ record d { work = w }
same_work d e i = record d { work = e i }

pub maybe_drained-calm :
    (d : Device) → d.released ≡ false → d.clean ≡ true → maybe_drained d ≡ some (calm d)
unfolding maybe_drained drained release in_use
maybe_drained-calm d fresh clean = elim (Bool-cases (in_use d)) [
  | inl u ↦ rw (u, maybe_drained) (ap some (same_flags d refl refl fresh))
  | inr u ↦ elim (Bool-cases (d.num_vrings_started == 0)) [
    | inl s ↦
        let h : d.num_vrings_handling_msg == 0 && d.clean ≡ true = ground arith in
        elim (Bool-cases d.listen_handler) [
          | inl l ↦ rw (u, s, h, l, fresh, maybe_drained) refl
          | inr l ↦ rw (u, s, h, l, fresh, maybe_drained) refl
        ]
    | inr s ↦ rw (u, s, maybe_drained) (ap some (same_flags d refl refl fresh))
  ]
]

maybe_vrings_stopped-work :
    (d : Device)
    → d.work ≡ not d.listen_handler
    → maybe_vrings_stopped d
      ≡ some (record d { work = ltb 0 d.num_vrings_started && not d.listen_handler })
unfolding maybe_vrings_stopped vrings_stopped
maybe_vrings_stopped-work d busy = elim (Bool-cases (d.num_vrings_started == 0)) [
  | inl s ↦
      let done : ltb 0 d.num_vrings_started ≡ false = ground arith in
      elim (Bool-cases d.listen_handler) [
        | inl l ↦
            let free : d.work ≡ false = ground arith in
            rw (s, done, l, free, maybe_vrings_stopped) refl
        | inr l ↦
            let held : d.work ≡ true = ground arith in
            rw (s, done, l, held, maybe_vrings_stopped) refl
      ]
  | inr s ↦
      let more : ltb 0 d.num_vrings_started ≡ true = ground arith in
      rw (s, more, maybe_vrings_stopped) (ap some (same_work d busy))
]

-- Together they complete the work once no vring is started, and otherwise keep it.
pub settle-settled :
    (d : Device)
    → d.released ≡ false
    → d.clean ≡ true
    → d.work ≡ not d.listen_handler
    → settle d ≡ some (settled d)
unfolding settle in_use
settle-settled d fresh clean busy =
    let stopped : Device = record d { work = ltb 0 d.num_vrings_started && not d.listen_handler } in
    rw (maybe_vrings_stopped-work d busy, settle) (maybe_drained-calm stopped fresh clean)
