-- ===== src/Virtq/Recovery.antt =====
-- A process that dies inside `virtq_push` (virtio/virt_queue.c), and the next one that reconnects.
use ya_vhost.Prelude.{
  ℕ, zero, suc, ◌+◌, ◌-◌, ◌^◌, ◌≤◌, ◌<◌, ◌≡◌, refl, ap, ◌∙◌, ◌≢◌, false, ◌⊎◌, inl, inr, some, ◌==◌,
  u16, u64, sub_u16, arith, take, dec_lt,
}
use ya_vhost.Virtq.State.{InflightDesc, InflightRegion, Virtq}
use ya_vhost.Virtq.Inflight.{set_desc, max_counter, clear_batch, inflight_reconnect_update}
use ya_vhost.Virtq.Writes.{Shared, writes, over, push_writes}

max_counter-ge :
    (n : ℕ) (desc : ℕ → InflightDesc) (j : ℕ) → j < n → (desc j).counter ≤ max_counter n desc
unfolding max_counter
max_counter-ge zero desc j lt = absurd (omega arith)
max_counter-ge (suc n) desc j lt = elim (dec_lt j n) [
  | yes below ↦ let ih = max_counter-ge n desc j below in ground arith
  | no last ↦ let e : j ≡ n = omega arith in rw e (ground arith)
]

max_counter-lt :
    (n : ℕ) (desc : ℕ → InflightDesc) (bound : ℕ)
    → 0 < bound
    → ((j : ℕ) → (desc j).counter < bound)
    → max_counter n desc < bound
unfolding max_counter
max_counter-lt zero desc bound pos h = pos
max_counter-lt (suc n) desc bound pos h = ground (arith, h n, max_counter-lt n desc bound pos h)

-- The region after a reconnection, where the last batch was committed or holds one request.
record Recovered (vq : Virtq) (t : Shared) (desc : ℕ → InflightDesc) : Type 0 where
  queue : Virtq
  done : inflight_reconnect_update (over vq t) ≡ some queue
  region : queue.inflight_region ≡ some (record (t.region) { desc = desc; used_idx = t.used.idx })
  fresh : (j : ℕ) → j < t.region.desc_num → (t.region.desc j).counter < queue.req_cnt

module _ (vq : Virtq) (t : Shared) (head : ℕ) (known : head < t.region.desc_num)
    (counted : 0 < (t.region.desc head).counter)
    (small : (j : ℕ) → (t.region.desc j).counter < 2 ^ 64 - 1) (idx16 : t.used.idx < 2 ^ 16) where
  abbrev out : (ℕ → InflightDesc) → Virtq
  out desc = record vq {
    used = t.used;
    req_cnt = u64 (max_counter t.region.desc_num t.region.desc + 1);
    inflight_region = some (record (t.region) { desc = desc; used_idx = t.used.idx });
  }

  recovered :
      (desc : ℕ → InflightDesc)
      → inflight_reconnect_update (over vq t) ≡ some (out desc)
      → Recovered vq t desc
  recovered desc e = record {
    queue = out desc;
    done = e;
    region = refl;
    fresh = λ j lt. omega (
      arith,
      max_counter-ge t.region.desc_num t.region.desc j lt,
      max_counter-lt t.region.desc_num t.region.desc (2 ^ 64 - 1) (omega arith) small,
    );
  }

  Recovered-committed : t.region.used_idx ≡ t.used.idx → Recovered vq t t.region.desc
  unfolding inflight_reconnect_update
  Recovered-committed same =
      recovered t.region.desc
        (ground (arith, max_counter-ge t.region.desc_num t.region.desc head known))

  Recovered-one :
      t.region.used_idx < 2 ^ 16
      → t.used.idx ≡ u16 (t.region.used_idx + 1)
      → Recovered vq t (
          set_desc t.region.desc t.region.last_batch_head
            (record (t.region.desc t.region.last_batch_head) { inflight = 0 }))
  unfolding inflight_reconnect_update clear_batch
  Recovered-one small_idx bumped =
      let one : sub_u16 t.used.idx t.region.used_idx ≡ 1 = omega arith in
      let seen : (max_counter t.region.desc_num t.region.desc == 0) ≡ false =
        ground (arith, max_counter-ge t.region.desc_num t.region.desc head known) in
      recovered _ (rw (seen, one, inflight_reconnect_update))

-- What a reconnection owes: the request counts as in flight exactly if its index was not published,
-- every other request as before, and new requests get larger counters than all before.
pub record IsConsistent (s t : Shared) (head : ℕ) (vq : Virtq) : Type 0 where
  pub queue : Virtq
  pub desc : ℕ → InflightDesc
  pub done : inflight_reconnect_update (over vq t) ≡ some queue
  pub region :
      queue.inflight_region
      ≡ some (record (s.region) {
        desc = desc;
        used_idx = t.used.idx;
        last_batch_head = t.region.last_batch_head;
      })
  pub published :
      ((t.used.idx ≡ s.used.idx) × ((desc head).inflight ≡ 1))
      ⊎ ((t.used.idx ≡ u16 (s.used.idx + 1)) × ((desc head).inflight ≡ 0))
  pub others : (j : ℕ) → j ≢ head → (desc j).inflight ≡ (s.region.desc j).inflight
  pub fresh : (j : ℕ) → j < s.region.desc_num → (s.region.desc j).counter < queue.req_cnt

module _ (vq : Virtq) (s : Shared) (head len : ℕ) (known : head < s.region.desc_num)
    (flying : (s.region.desc head).inflight ≡ 1) (counted : 0 < (s.region.desc head).counter)
    (small : (j : ℕ) → (s.region.desc j).counter < 2 ^ 64 - 1) (idx16 : s.used.idx < 2 ^ 16)
    (synced : s.region.used_idx ≡ s.used.idx) where
  abbrev crashed : ℕ → Shared
  crashed n = writes vq.qsz head len (take n push_writes) s

  -- Where the published index and the one of the region agree, nothing is undone.
  crash_committed :
      (n : ℕ)
      → let t = crashed n in
        (t.region ≡ record (s.region) {
          desc = t.region.desc;
          used_idx = t.region.used_idx;
          last_batch_head = t.region.last_batch_head;
        })
        → t.region.used_idx ≡ t.used.idx
        → t.used.idx < 2 ^ 16
        → ((j : ℕ) → (t.region.desc j).counter ≡ (s.region.desc j).counter)
        → ((t.used.idx ≡ s.used.idx) × ((t.region.desc head).inflight ≡ 1))
          ⊎ ((t.used.idx ≡ u16 (s.used.idx + 1)) × ((t.region.desc head).inflight ≡ 0))
        → ((j : ℕ) → j ≢ head → (t.region.desc j).inflight ≡ (s.region.desc j).inflight)
        → IsConsistent s t head vq
  crash_committed n frame same fits counters published others =
      let num : (crashed n).region.desc_num ≡ s.region.desc_num =
        ap (λ (r : InflightRegion). r.desc_num) frame in
      let r =
        Recovered-committed vq (crashed n) head (rw num known) (rw (counters head) counted)
          (λ j. rw (counters j) (small j)) fits same in
      record {
        queue = r.queue;
        desc = (crashed n).region.desc;
        done = r.done;
        region =
            r.region
            ∙ ap (λ (q : InflightRegion). some (record q { used_idx = (crashed n).used.idx }))
                frame;
        published = published;
        others = others;
        fresh = λ j lt. omega (arith, r.fresh j (rw num lt), counters j);
      }

  -- Where it does not, the request of the last batch is taken for published.
  crash_published :
      (n : ℕ)
      → let t = crashed n in
        (t.region ≡ record (s.region) {
          desc = t.region.desc;
          used_idx = t.region.used_idx;
          last_batch_head = head;
        })
        → t.region.used_idx ≡ s.used.idx
        → t.used.idx ≡ u16 (s.used.idx + 1)
        → ((j : ℕ) → (t.region.desc j).counter ≡ (s.region.desc j).counter)
        → ((j : ℕ) → j ≢ head → (t.region.desc j).inflight ≡ (s.region.desc j).inflight)
        → IsConsistent s t head vq
  crash_published n frame old bumped counters others =
      let num : (crashed n).region.desc_num ≡ s.region.desc_num =
        ap (λ (r : InflightRegion). r.desc_num) frame in
      let last : (crashed n).region.last_batch_head ≡ head =
        ap (λ (r : InflightRegion). r.last_batch_head) frame in
      let r =
        Recovered-one vq (crashed n) head (rw num known) (rw (counters head) counted)
          (λ j. rw (counters j) (small j)) (omega arith) (omega arith) (omega arith) in
      let cleared : ℕ → InflightDesc =
        set_desc (crashed n).region.desc (crashed n).region.last_batch_head
          (record ((crashed n).region.desc (crashed n).region.last_batch_head) { inflight = 0 }) in
      record {
        queue = r.queue;
        desc = cleared;
        done = r.done;
        region =
            r.region
            ∙ ap
                (λ (q : InflightRegion). some (record q {
                  desc = cleared;
                  used_idx = (crashed n).used.idx;
                  last_batch_head = (crashed n).region.last_batch_head;
                }))
                frame;
        published = inr (bumped, ground (arith, last));
        others = λ j ne. ground (arith, others j ne, last);
        fresh = λ j lt. omega (arith, r.fresh j (rw num lt), counters j);
      }

  -- Wherever in `virtq_push` the process dies, after any number of its writes to the shared
  -- memory, the reconnection of the next one succeeds; the request counts as in flight exactly if
  -- its index was not published, every other request counts as before, and new requests get larger
  -- counters than all of the region. Before, the request was in flight with a counter, the region
  -- agreed with the used index, and no counter was at the end of its range.
  pub push_crash-IsConsistent : (n : ℕ) → IsConsistent s (crashed n) head vq
  push_crash-IsConsistent zero =
      crash_committed 0 refl synced idx16 (λ j. refl) (inl (refl, flying)) (λ j ne. refl)
  push_crash-IsConsistent (suc zero) =
      crash_committed 1 refl synced idx16 (λ j. refl) (inl (refl, flying)) (λ j ne. refl)
  push_crash-IsConsistent (suc (suc zero)) =
      crash_committed 2 refl synced idx16 (λ j. ground arith) (inl (refl, ground arith))
        (λ j ne. ground arith)
  push_crash-IsConsistent (suc (suc (suc zero))) =
      crash_committed 3 refl synced idx16 (λ j. ground arith) (inl (refl, ground arith))
        (λ j ne. ground arith)
  push_crash-IsConsistent (suc (suc (suc (suc zero)))) =
      crash_published 4 refl synced refl (λ j. ground arith) (λ j ne. ground arith)
  push_crash-IsConsistent (suc (suc (suc (suc (suc zero))))) =
      crash_published 5 refl synced refl (λ j. ground arith) (λ j ne. ground arith)
  push_crash-IsConsistent (suc (suc (suc (suc (suc (suc zero)))))) =
      crash_committed 6 refl refl (omega arith) (λ j. ground arith) (inr (refl, ground arith))
        (λ j ne. ground arith)
  push_crash-IsConsistent (suc (suc (suc (suc (suc (suc (suc n))))))) =
      crash_committed 7 refl refl (omega arith) (λ j. ground arith) (inr (refl, ground arith))
        (λ j ne. ground arith)
