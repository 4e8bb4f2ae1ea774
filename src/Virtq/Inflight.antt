-- ===== src/Virtq/Inflight.antt =====
-- The record of the requests in flight, which outlives the process (virtio/virt_queue.c).
use ya_vhost.Prelude.{
  ℕ, zero, suc, ◌+◌, true, false, Option, none, some, [], ◌∷◌, ltb, ◌==◌, if◌then◌else◌, u64,
  sub_u16, max, replicate,
}
use ya_vhost.Virtq.State.{InflightDesc, Stat, Buffer, Virtq}

-- `desc[i] = d`
abbrev pub set_desc : (ℕ → InflightDesc) → ℕ → InflightDesc → ℕ → InflightDesc
set_desc desc i d j = if j == i then d else desc j

-- `virtq_inflight_avail_update`
unfoldable pub inflight_avail_update : Virtq → ℕ → Virtq
inflight_avail_update vq head = elim vq.inflight_region [
  | none ↦ vq
  | some region ↦ record vq {
    inflight_region = some (record region {
      desc =
          set_desc region.desc head
            (record (region.desc head) { inflight = 1; counter = vq.req_cnt });
    });
    req_cnt = u64 (vq.req_cnt + 1);
  }
]

-- `virtq_inflight_used_update`: the request is linked to the last one, and becomes the last one.
unfoldable pub inflight_used_update : Virtq → ℕ → Virtq
inflight_used_update vq head = elim vq.inflight_region [
  | none ↦ vq
  | some region ↦ record vq {
    inflight_region = some (record region {
      desc =
          set_desc region.desc head (record (region.desc head) { next = region.last_batch_head });
      last_batch_head = head;
    });
  }
]

-- `virtq_inflight_used_commit`
unfoldable pub inflight_used_commit : Virtq → ℕ → Virtq
inflight_used_commit vq head = elim vq.inflight_region [
  | none ↦ vq
  | some region ↦ record vq {
    inflight_region = some (record region {
      desc = set_desc region.desc head (record (region.desc head) { inflight = 0 });
      used_idx = vq.used.idx;
    });
  }
]

-- The loop of `virtq_inflight_reconnect_update` for the largest counter of the first `n`.
unfoldable pub max_counter : ℕ → (ℕ → InflightDesc) → ℕ
max_counter zero desc = 0
max_counter (suc n) desc =
    let seen = max_counter n desc in if ltb seen (desc n).counter then (desc n).counter else seen

-- Its loop over the last batch.
unfoldable pub clear_batch : ℕ → ℕ → (ℕ → InflightDesc) → ℕ → InflightDesc
clear_batch zero idx desc = desc
clear_batch (suc batch_size) idx desc =
    let cleared = set_desc desc idx (record (desc idx) { inflight = 0 }) in
    clear_batch batch_size (cleared idx).next cleared

-- `virtq_inflight_reconnect_update`; `none` is the failed assertion on the batch size.
unfoldable pub inflight_reconnect_update : Virtq → Option Virtq
inflight_reconnect_update vq = elim vq.inflight_region [
  | none ↦ some (record vq { req_cnt = 0 })
  | some region ↦
      let counter = max_counter region.desc_num region.desc in
      let batch_size = sub_u16 vq.used.idx region.used_idx in
      let out = λ (desc : ℕ → InflightDesc). record vq {
        req_cnt = u64 (counter + 1);
        inflight_region = some (record region { desc = desc; used_idx = vq.used.idx });
      } in
      if counter == 0
      then some (out region.desc)
      else if batch_size == 0
      then some (out region.desc)
      else if batch_size == 1
      then some (out (clear_batch batch_size region.last_batch_head region.desc))
      else none
]

abbrev pub windows_chain_len_max : ℕ
windows_chain_len_max = 512 + 3

abbrev pub no_stat : Stat
no_stat = record {
  request_total = 0;
  dispatch_total = 0;
  dispatch_empty = 0;
  queue_len_last = 0;
  queue_len_max_60s = 0;
  period_start_ts = 0;
}

abbrev pub no_buffer : Buffer
no_buffer = record { base = 0; len = 0; write_only = false }

-- `virtio_virtq_init`; `none` is a failed assertion: the queue has buffers already, or the one of
-- `inflight_reconnect_update`.
unfoldable pub virtq_init : Virtq → Option Virtq
virtq_init vq = elim vq.buffers [
  | b ∷ bs ↦ none
  | [] ↦
      let max_chain_len = max vq.qsz windows_chain_len_max in
      elim (inflight_reconnect_update (record vq {
        max_chain_len = max_chain_len;
        buffers = replicate max_chain_len no_buffer;
        inflight_check = true;
      })) [ none ↦ none | some vq' ↦ some (record vq' { stat = no_stat }) ]
]
