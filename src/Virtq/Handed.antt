-- ===== src/Virtq/Handed.antt =====
-- Which requests a dispatch hands to the device type, and how it ends (virtio/virt_queue.c).
use ya_vhost.Prelude.{
  ℕ, zero, suc, ◌+◌, ◌%◌, ◌≤◌, ◌<◌, ◌≡◌, Option, none, some, List, [], ◌∷◌, u16, u64, length, arith,
  refl, ap,
}
use ya_vhost.Errno.{Errno, erange, ok, err}
use ya_vhost.MemMap.Slots.{memmap_ref}
use ya_vhost.MemMap.Region.{Region}
use ya_vhost.Virtq.State.{Desc, Buffer, Virtq, Iov, GuestTables}
use ya_vhost.Virtq.Inflight.{inflight_avail_update}
use ya_vhost.Virtq.Chain.{walk_chain}
use ya_vhost.Virtq.Walk.{Linked, last, more, Images}
use ya_vhost.Virtq.Chains.{Chained}
use ya_vhost.Virtq.Dequeue.{mark_broken}

-- The head that the available ring has for the next request.
abbrev pub next_head : Virtq → ℕ
next_head vq = vq.avail.ring (vq.last_avail % vq.qsz)

-- The queue that a device type gets with a request, once its chain is walked.
abbrev pub prepared : Virtq → ℕ → Virtq
prepared vq head = inflight_avail_update (record vq { mm = memmap_ref vq.mm }) head

-- The queue behind a request that was handed over.
abbrev pub passed : Virtq → Virtq
passed vq = record vq {
  last_avail = u16 (vq.last_avail + 1);
  stat = record (vq.stat) { request_total = u64 (vq.stat.request_total + 1) };
}

-- The chain from `head` in the queue is `ds`, and each of its descriptors is mapped whole, to the
-- buffers `bs`.
pub record IsChain (mem : GuestTables) (vq : Virtq) (head : ℕ) (bs : List Buffer) : Type 0 where
  pub ds : List Desc
  pub chained : Chained mem vq.mm.regions vq.desc vq.qsz head ds
  pub images : Images vq.mm.regions ds bs

-- The request with that head and these buffers.
abbrev pub request : Virtq → ℕ → List Buffer → Iov
request vq head bs = record { used_head = head; mm = vq.mm.regions; buffers = bs }

module _ {App : Type 0} (mem : GuestTables) (handle : App → Virtq → Iov → App × Virtq) where
  -- The next request is handed to the device type, once `vq₁` has its chain walked.
  abbrev pub handed : App → (vq vq₁ : Virtq) → List Buffer → App × Virtq
  handed app vq vq₁ bs = handle app (prepared vq₁ (next_head vq)) (request vq (next_head vq) bs)

  -- From a device type and a queue, with `n` available requests, to a device type and a queue.
  pub data Handed : ℕ → App → Virtq → App → Virtq → Option Errno → Type 0 where
    done : {app : App} {vq : Virtq} → Handed zero app vq app vq none
    -- The next head is outside the queue.
    outside :
        {n : ℕ} {app : App} {vq : Virtq}
        → vq.qsz ≤ next_head vq
        → Handed (suc n) app vq app vq (some erange)
    -- The walk of the next chain fails, and its error is that of the dispatch.
    refused :
        {n : ℕ} {app : App} {vq vq' : Virtq} {e : Errno}
        → next_head vq < vq.qsz
        → walk_chain mem vq (next_head vq) ≡ some (vq', err e)
        → Handed (suc n) app vq app (mark_broken vq') (some e)
    -- The device type gets the next request, with its head and the buffers of its chain.
    given :
        {n len : ℕ} {app app' : App} {vq vq₁ vq' : Virtq} {res : Option Errno} (bs : List Buffer)
        → next_head vq < vq.qsz
        → walk_chain mem vq (next_head vq) ≡ some (vq₁, ok len)
        → IsChain mem vq (next_head vq) bs
        → Handed n (handed app vq vq₁ bs).0 (passed (handed app vq vq₁ bs).1) app' vq' res
        → Handed (suc n) app vq app' vq' res

-- A chain has a buffer.
Linked-nonempty :
    {table : ℕ → Desc} {n i : ℕ} {ds : List Desc} → Linked table n i ds → 0 < length ds
Linked-nonempty (last a b) = omega arith
Linked-nonempty (more a b c l) = omega (arith, Linked-nonempty l)

Chained-nonempty :
    {mem : GuestTables} {regs : List _} {descs : ℕ → Desc} {n i : ℕ} {ds : List Desc}
    → Chained mem regs descs n i ds
    → 0 < length ds
Chained-nonempty (Chained.last a b) = omega arith
Chained-nonempty (Chained.more a b c l) = omega (arith, Chained-nonempty l)
Chained-nonempty (Chained.table a b t) = Linked-nonempty t.linked

length-Images :
    (regs : List Region) (ds : List Desc) (bs : List Buffer)
    → Images regs ds bs
    → length bs ≡ length ds
length-Images regs [] [] h = refl
length-Images regs [] (b ∷ bs) h = elim h [ ]
length-Images regs (d ∷ ds) [] h = elim h [ ]
length-Images regs (d ∷ ds) (b ∷ bs) (f, e, h) = ap suc (length-Images regs ds bs h)

pub IsChain-nonempty :
    {mem : GuestTables} {vq : Virtq} {head : ℕ} {bs : List Buffer}
    → IsChain mem vq head bs
    → 0 < length bs
IsChain-nonempty {vq = vq} {bs = bs} c =
    omega (arith, length-Images vq.mm.regions c.ds bs c.images, Chained-nonempty c.chained)
