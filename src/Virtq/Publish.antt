-- ===== src/Virtq/Publish.antt =====
-- What `virtq_push` (virtio/virt_queue.c) has done when it returns.
use ya_vhost.Prelude.{
  subst, sym, ℕ, ◌+◌, ◌*◌, ◌%◌, ◌^◌, ◌<◌, ◌≡◌, refl, ◌≢◌, inl, inr, Bool, not, Option, none, some,
  List, [], ◌∷◌, ◌==◌, if◌then◌else◌, u16, u64, has_bit, arith, Bool-cases, Option-cases,
}
use ya_vhost.MemMap.Region.{Region}
use ya_vhost.MemLog.Log.{MemoryLog}
use ya_vhost.MemLog.Marks.{mark_gpa_range_dirty-total, mark_range_dirty-total}
use ya_vhost.Virtq.State.{Buffer, Virtq, Iov}
use ya_vhost.Virtq.Inflight.{inflight_used_update, inflight_used_commit}
use ya_vhost.Virtq.Push.{
  log_buffers, log_modified, do_notify, need_notify, notify, push_used, virtq_push,
}

log_buffers-total :
    (log : MemoryLog) (mm : List Region) (bs : List Buffer)
    → (log' : MemoryLog) × (log_buffers log mm bs ≡ some log')
unfolding log_buffers
log_buffers-total log mm [] = (log, refl)
log_buffers-total log mm (b ∷ bs) = elim (Bool-cases b.write_only) [
  | inr f ↦ let (log', e) = log_buffers-total log mm bs in (log', rw (f, log_buffers) e)
  | inl t ↦
      let (log₁, e) = mark_range_dirty-total log mm b.base b.len in
      let (log', q) = log_buffers-total log₁ mm bs in (log', rw (t, log_buffers, e) q)
]

log_modified-total :
    (log : MemoryLog) (flags gpa : ℕ) (mm : List Region) (iov : Iov) (i : ℕ)
    → (log' : MemoryLog) × (log_modified log flags gpa mm iov i ≡ some log')
unfolding log_modified
log_modified-total log flags gpa mm iov i =
    let (log₁, e) = log_buffers-total log mm iov.buffers in
    let (log₂, e₂) = mark_gpa_range_dirty-total log₁ (u64 (gpa + 2)) 2 in
    let (log₃, e₃) = mark_gpa_range_dirty-total log₂ (u64 (gpa + (4 + 8 * i))) 8 in
    elim (Bool-cases (has_bit flags 0)) [
      | inr f ↦ (log₁, rw (e, f, log_modified))
      | inl t ↦ (log₃, rw (e, t, log_modified, e₂, e₃))
    ]

-- Whether the driver wants to hear of the next used buffer: it asked for the event at this index,
-- or, without event indexes, has not turned interrupts off.
abbrev pub wants_event : Virtq → Bool
wants_event vq =
    if vq.has_event_idx then vq.avail.ring vq.qsz == vq.used.idx else not (has_bit vq.avail.flags 0)

abbrev signalled : Virtq → List ℕ
signalled vq = elim vq.notify_fd [ none ↦ vq.signals | some fd ↦ fd ∷ vq.signals ]

-- The request is in the used ring, at the index that the driver looks at next, and nothing of the
-- queue has changed but the ring, the inflight region, the log and the events.
pub record IsPushed (vq : Virtq) (head len : ℕ) (vq' : Virtq) : Type 0 where
  pub published : vq'.used.idx ≡ u16 (vq.used.idx + 1)
  pub elem : vq'.used.ring (vq.used.idx % vq.qsz) ≡ record { id = head; len = len }
  pub others : (i : ℕ) → i ≢ vq.used.idx % vq.qsz → vq'.used.ring i ≡ vq.used.ring i
  pub told : vq'.signals ≡ (if wants_event vq then signalled vq else vq.signals)
  pub frame : vq' ≡ record vq {
    used = record (vq'.used) { avail_event = vq.used.avail_event };
    inflight_region = vq'.inflight_region;
    log = vq'.log;
    signals = vq'.signals;
  }

push_used-IsPushed :
    (vq : Virtq) (iov : Iov) (len : ℕ) (log : Option MemoryLog)
    → vq.used.idx < 2 ^ 16
    → IsPushed vq iov.used_head len (notify (record (push_used vq iov len) { log = log }))
unfolding push_used notify do_notify need_notify inflight_used_update inflight_used_commit
push_used-IsPushed vq iov len log small = elim (Option-cases vq.inflight_region) [
  | inl e ↦ record {
    published = ground arith;
    elem = ground arith;
    others = λ i ne. ground arith;
    told = ground arith;
    frame = ground arith;
  }
  | inr (region, e) ↦ record {
    published = ground arith;
    elem = ground arith;
    others = λ i ne. ground arith;
    told = ground arith;
    frame = ground arith;
  }
]

-- `virtq_push` ends, with some log.
virtq_push-notify :
    (vq : Virtq) (iov : Iov) (len : ℕ)
    → (vq' : Virtq) × (virtq_push vq iov len ≡ some vq')
      × (log : Option MemoryLog) × (vq' ≡ notify (record (push_used vq iov len) { log = log }))
unfolding virtq_push notify need_notify push_used inflight_used_commit
virtq_push-notify vq iov len =
    let pushed = push_used vq iov len in
    elim (Option-cases pushed.log) [
      | inl e ↦ (notify pushed, rw (e, virtq_push), pushed.log, refl)
      | inr (log, e) ↦
          let (log', q) =
            log_modified-total log pushed.flags pushed.used_gpa_base iov.mm iov
              (vq.used.idx % vq.qsz) in
          (notify (record pushed { log = some log' }), rw (e, virtq_push, q), some log', refl)
    ]

-- `virtq_push` ends, whatever the dirty log and the buffers are. The request is then in the element
-- of the used ring at the old index, no other element has changed, and the index has gone on by
-- one; an event is written exactly if the driver wants it and there is a descriptor to write to;
-- and nothing else of the queue has changed but the inflight region and the log. The used index is
-- a 16-bit number.
pub virtq_push-IsPushed :
    (vq : Virtq) (iov : Iov) (len : ℕ)
    → vq.used.idx < 2 ^ 16
    → (vq' : Virtq) × (virtq_push vq iov len ≡ some vq') × IsPushed vq iov.used_head len vq'
virtq_push-IsPushed vq iov len small =
    let (vq', e, log, same) = virtq_push-notify vq iov len in
    (
      vq',
      e,
      subst (IsPushed vq iov.used_head len) (sym same) (push_used-IsPushed vq iov len log small),
    )

-- What a device type may change of a queue, which is what `virtq_push` changes, and the reference
-- count of the memory map.
abbrev pub Keeps : Virtq → Virtq → Type 0
Keeps vq vq' = vq' ≡ record vq {
  used = vq'.used;
  inflight_region = vq'.inflight_region;
  log = vq'.log;
  signals = vq'.signals;
  mm = vq'.mm;
}

push_used-Keeps :
    (vq : Virtq) (iov : Iov) (len : ℕ) (log : Option MemoryLog)
    → Keeps vq (notify (record (push_used vq iov len) { log = log }))
unfolding push_used notify do_notify need_notify inflight_used_update inflight_used_commit
push_used-Keeps vq iov len log = elim (Option-cases vq.inflight_region) [
  | inl e ↦ ground arith
  | inr (region, e) ↦ ground arith
]

pub virtq_push-Keeps :
    (vq : Virtq) (iov : Iov) (len : ℕ)
    → (vq' : Virtq) × (virtq_push vq iov len ≡ some vq') × Keeps vq vq'
virtq_push-Keeps vq iov len =
    let (vq', e, log, same) = virtq_push-notify vq iov len in
    (vq', e, subst (Keeps vq) (sym same) (push_used-Keeps vq iov len log))
