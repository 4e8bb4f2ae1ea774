-- ===== src/Virtq/Writes.antt =====
-- The writes of `virtq_push` (virtio/virt_queue.c) to the memory that outlives the process.
use ya_vhost.Prelude.{ℕ, ◌+◌, ◌%◌, ◌≡◌, refl, some, List, [], ◌∷◌, u16}
use ya_vhost.Virtq.State.{InflightRegion, Used, Virtq, Iov}
use ya_vhost.Virtq.Inflight.{set_desc, inflight_used_update, inflight_used_commit}
use ya_vhost.Virtq.Push.{push_used, set_used}

-- The writes that `virtq_push` makes to the shared memory, in their order.
pub data Write : Type 0 where
  put_elem link_last become_last bump_idx clear_inflight sync_idx : Write

-- What survives the process: the used ring and the inflight region.
pub record Shared : Type 0 where
  pub used : Used
  pub region : InflightRegion

abbrev pub write : (qsz head len : ℕ) → Write → Shared → Shared
write qsz head len put_elem s = record s {
  used = record (s.used) {
    ring = set_used s.used.ring (s.used.idx % qsz) (record { id = head; len = len });
  };
}
write qsz head len link_last s = record s {
  region = record (s.region) {
    desc =
        set_desc s.region.desc head
          (record (s.region.desc head) { next = s.region.last_batch_head });
  };
}
write qsz head len become_last s = record s {
  region = record (s.region) { last_batch_head = head };
}
write qsz head len bump_idx s = record s { used = record (s.used) { idx = u16 (s.used.idx + 1) } }
write qsz head len clear_inflight s = record s {
  region = record (s.region) {
    desc = set_desc s.region.desc head (record (s.region.desc head) { inflight = 0 });
  };
}
write qsz head len sync_idx s = record s { region = record (s.region) { used_idx = s.used.idx } }

abbrev pub push_writes : List Write
push_writes = put_elem ∷ link_last ∷ become_last ∷ bump_idx ∷ clear_inflight ∷ sync_idx ∷ []

abbrev pub writes : (qsz head len : ℕ) → List Write → Shared → Shared
writes qsz head len [] s = s
writes qsz head len (w ∷ ws) s = writes qsz head len ws (write qsz head len w s)

-- The queue of a process over the shared memory.
abbrev pub over : Virtq → Shared → Virtq
over vq s = record vq { used = s.used; inflight_region = some s.region }

-- The writes of `push_writes` lead to the state that `push_used` leaves.
push_used-writes :
    (vq : Virtq) (s : Shared) (iov : Iov) (len : ℕ)
    → push_used (over vq s) iov len ≡ over vq (writes vq.qsz iov.used_head len push_writes s)
unfolding push_used inflight_used_update inflight_used_commit
push_used-writes vq s iov len = refl
