-- ===== src/Virtq/Advance.antt =====
-- How the handling of a request moves the queue on (virtio/virt_queue.c).
use ya_vhost.Prelude.{
  ℕ, zero, suc, ◌+◌, ◌%◌, ◌^◌, ◌<◌, ◌≡◌, refl, ap, ◌∙◌, Bool, true, false, Option, none, some, List,
  if◌then◌else◌, u16, u64, length, arith, sym,
}
use ya_vhost.MemMap.Slots.{memmap_ref}
use ya_vhost.Virtq.State.{InflightRegion, Virtq, Iov}
use ya_vhost.Virtq.Inflight.{inflight_avail_update}
use ya_vhost.Virtq.Walk.{Walked}

-- What a device type may change of the queue while it handles a request: what `virtq_push` writes,
-- and the reference count of the memory map.
pub record KeepsQueue {App : Type 0} (handle : App → Virtq → Iov → App × Virtq) : Type 0 where
  pub keeps :
      (app : App) (vq : Virtq) (iov : Iov)
      → let vq' = (handle app vq iov).1 in
        vq' ≡ record vq {
          used = vq'.used;
          inflight_region = vq'.inflight_region;
          log = vq'.log;
          signals = vq'.signals;
          mm = vq'.mm;
        }

-- From `vq` to `vq'` the queue has gone on by `k` requests, with `counted` of them counted.
pub record Advanced (vq : Virtq) (k counted : ℕ) (vq' : Virtq) : Type 0 where
  pub qsz : vq'.qsz ≡ vq.qsz
  pub avail : vq'.avail ≡ vq.avail
  pub broken : vq'.broken ≡ vq.broken
  pub last_avail : vq'.last_avail ≡ u16 (vq.last_avail + k)
  pub total : vq'.stat.request_total ≡ u64 (vq.stat.request_total + counted)
  pub max_chain_len : vq'.max_chain_len ≡ vq.max_chain_len
  pub allocated : length vq'.buffers ≡ vq'.max_chain_len

-- A queue whose preallocated buffers are as many as a chain may have.
pub record IsReady (vq : Virtq) : Type 0 where
  pub allocated : length vq.buffers ≡ vq.max_chain_len
  pub small : vq.max_chain_len < 2 ^ 16
  pub wraps : vq.last_avail < 2 ^ 16
  pub counts : vq.stat.request_total < 2 ^ 64

pub Advanced-of_walk :
    {vq vq' : Virtq} {bs : List _}
    → IsReady vq
    → Walked (record vq { next_buffer = 0 }) bs vq'
    → Advanced vq 0 0 vq'
Advanced-of_walk {vq} {vq'} ready w = record {
  qsz = ap (λ (q : Virtq). q.qsz) w.frame;
  avail = ap (λ (q : Virtq). q.avail) w.frame;
  broken = ap (λ (q : Virtq). q.broken) w.frame;
  last_avail = ap (λ (q : Virtq). q.last_avail) w.frame ∙ omega (arith, ready.wraps);
  total = ap (λ (q : Virtq). q.stat.request_total) w.frame ∙ omega (arith, ready.counts);
  max_chain_len = ap (λ (q : Virtq). q.max_chain_len) w.frame;
  allocated = w.room.allocated;
}

-- What no part of the handling of a request changes.
pub record SameShape (vq vq' : Virtq) : Type 0 where
  pub qsz : vq'.qsz ≡ vq.qsz
  pub avail : vq'.avail ≡ vq.avail
  pub broken : vq'.broken ≡ vq.broken
  pub last_avail : vq'.last_avail ≡ vq.last_avail
  pub total : vq'.stat.request_total ≡ vq.stat.request_total
  pub max_chain_len : vq'.max_chain_len ≡ vq.max_chain_len
  pub buffers : vq'.buffers ≡ vq.buffers

pub SameShape-trans : {a b c : Virtq} → SameShape a b → SameShape b c → SameShape a c
SameShape-trans p q = record {
  qsz = q.qsz ∙ p.qsz;
  avail = q.avail ∙ p.avail;
  broken = q.broken ∙ p.broken;
  last_avail = q.last_avail ∙ p.last_avail;
  total = q.total ∙ p.total;
  max_chain_len = q.max_chain_len ∙ p.max_chain_len;
  buffers = q.buffers ∙ p.buffers;
}

SameShape-inflight_avail_update :
    (vq : Virtq) (head : ℕ) → SameShape vq (inflight_avail_update vq head)
unfolding inflight_avail_update
SameShape-inflight_avail_update vq head = go vq.inflight_region refl
  where
    go :
        (r : Option InflightRegion)
        → vq.inflight_region ≡ r
        → SameShape vq (inflight_avail_update vq head)
    go none e =
        rw (e, inflight_avail_update)
          (record {
            qsz = refl;
            avail = refl;
            broken = refl;
            last_avail = refl;
            total = refl;
            max_chain_len = refl;
            buffers = refl;
          })
    go (some r) e =
        rw (e, inflight_avail_update)
          (record {
            qsz = refl;
            avail = refl;
            broken = refl;
            last_avail = refl;
            total = refl;
            max_chain_len = refl;
            buffers = refl;
          })

pub SameShape-prepare :
    (resubmit : Bool) (head : ℕ) (vq : Virtq)
    → let vq₂ = record vq { mm = memmap_ref vq.mm } in
      SameShape vq (if resubmit then vq₂ else inflight_avail_update vq₂ head)
SameShape-prepare true head vq = record {
  qsz = refl;
  avail = refl;
  broken = refl;
  last_avail = refl;
  total = refl;
  max_chain_len = refl;
  buffers = refl;
}
SameShape-prepare false head vq =
    let s = SameShape-inflight_avail_update (record vq { mm = memmap_ref vq.mm }) head in
    record {
      qsz = s.qsz;
      avail = s.avail;
      broken = s.broken;
      last_avail = s.last_avail;
      total = s.total;
      max_chain_len = s.max_chain_len;
      buffers = s.buffers;
    }

pub Advanced-SameShape :
    {vq vq₁ vq₄ : Virtq}
    → Advanced vq 0 0 vq₁
    → SameShape vq₁ vq₄
    → Advanced vq 1 0 (record vq₄ { last_avail = u16 (vq₄.last_avail + 1) })
Advanced-SameShape a s = record {
  qsz = s.qsz ∙ a.qsz;
  avail = s.avail ∙ a.avail;
  broken = s.broken ∙ a.broken;
  last_avail = omega (arith, s.last_avail, a.last_avail);
  total = s.total ∙ a.total;
  max_chain_len = s.max_chain_len ∙ a.max_chain_len;
  allocated = ap length s.buffers ∙ a.allocated ∙ sym s.max_chain_len;
}

-- The head that the available ring has for the `k`th request from now on.
abbrev pub head_at : Virtq → ℕ → ℕ
head_at vq k = vq.avail.ring (u16 (vq.last_avail + k) % vq.qsz)

pub head_at-zero : (vq : Virtq) → IsReady vq → vq.avail.ring (vq.last_avail % vq.qsz) ≡ head_at vq 0
head_at-zero vq ready =
    let e : vq.last_avail ≡ u16 (vq.last_avail + 0) = omega (arith, ready.wraps) in
    ap (λ k. vq.avail.ring (k % vq.qsz)) e

pub head_at-suc :
    (vq vq₁ : Virtq) (k : ℕ) → Advanced vq 1 1 vq₁ → head_at vq₁ k ≡ head_at vq (suc k)
head_at-suc vq vq₁ k a =
    let e : u16 (vq₁.last_avail + k) ≡ u16 (vq.last_avail + suc k) = omega (arith, a.last_avail) in
    rw (a.avail, a.qsz, e)

pub heads-suc :
    (vq vq₁ : Virtq) (n : ℕ)
    → Advanced vq 1 1 vq₁
    → head_at vq 0 < vq.qsz
    → ((i : ℕ) → i < n → head_at vq₁ i < vq₁.qsz)
    → (i : ℕ) → i < suc n
    → head_at vq i < vq.qsz
heads-suc vq vq₁ n a h heads zero lt = h
heads-suc vq vq₁ n a h heads (suc i) lt =
    rw (← head_at-suc vq vq₁ i a, ← a.qsz) (heads i (omega arith))
