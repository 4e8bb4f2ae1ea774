-- ===== src/Virtq/Chains.antt =====
-- What `walk_chain` (virtio/virt_queue.c) has walked when it returns.
use ya_vhost.Prelude.{
  ℕ, zero, suc, ◌+◌, ◌/◌, ◌%◌, ◌^◌, ◌<◌, ◌≡◌, refl, true, false, not, ◌||◌, ◌≢◌, inl, inr, Option,
  none, some, List, [], ◌∷◌, leb, ◌==◌, u16, length, arith, Bool-cases, Option-cases,
}
use ya_vhost.Errno.{Errno, einval, enobufs, efault, erange, Result, ok, err}
use ya_vhost.MemMap.Region.{Region, gpa_range_to_ptr}
use ya_vhost.Virtq.State.{
  Desc, Buffer, sizeof_desc, has_next, is_write_only, is_indirect, Virtq, GuestTables,
}
use ya_vhost.Virtq.Chain.{map_buffer, walk_indirect_table, walk_descs, walk_chain, chain_result}
use ya_vhost.Virtq.Walk.{
  HasRoom, Walked, Walked-refl, Walked-trans, buffer_of, extended, extended-Walked, Mapped,
  unmapped, full, added, map_buffer-Mapped, Linked, Images, TableResult, walk_table-total,
}

-- An indirect descriptor: a table that is not empty, has whole descriptors, and is mapped; its
-- length in descriptors is cut to 16 bits.
pub record IsTable (mem : GuestTables) (regs : List Region) (d : Desc) (ds : List Desc)
    : Type 0 where
  pub nonempty : d.len ≢ 0
  pub whole : d.len % sizeof_desc ≡ 0
  pub ptr : ℕ
  pub found : gpa_range_to_ptr regs d.addr d.len ≡ some ptr
  pub linked : Linked (mem ptr) (u16 (d.len / sizeof_desc)) 0 ds

-- The data descriptors of the chain that starts at index `i` of the `n` descriptors of the queue;
-- those of an indirect table may end it.
pub data Chained (mem : GuestTables) (regs : List Region) (descs : ℕ → Desc) (n : ℕ)
    : ℕ → List Desc → Type 0 where
  last :
      {i : ℕ}
      → is_indirect (descs i) ≡ false
      → has_next (descs i) ≡ false
      → Chained mem regs descs n i (descs i ∷ [])
  more :
      {i : ℕ} {ds : List Desc}
      → is_indirect (descs i) ≡ false
      → has_next (descs i) ≡ true
      → (descs i).next < n
      → Chained mem regs descs n (descs i).next ds
      → Chained mem regs descs n i (descs i ∷ ds)
  table :
      {i : ℕ} {ds : List Desc}
      → is_indirect (descs i) ≡ true
      → has_next (descs i) ≡ false
      → IsTable mem regs (descs i) ds
      → Chained mem regs descs n i ds

abbrev pub ChainResult : GuestTables → (ℕ → Desc) → ℕ → Virtq → Virtq → Result ℕ → Type 0
ChainResult mem descs i vq vq' (ok k) =
    (ds : List Desc) × (bs : List Buffer) × Chained mem vq.mm.regions descs vq.qsz i ds
    × Images vq.mm.regions ds bs
    × Walked vq bs vq'
ChainResult mem descs i vq vq' (err e) = (bs : List Buffer) × Walked vq bs vq'

module _ (mem : GuestTables) (descs : ℕ → Desc) where
  -- The walk of an indirect descriptor ends, as the walk of its table does.
  indirect_total :
      (i chain_len : ℕ) (vq : Virtq)
      → HasRoom vq
      → is_indirect (descs i) ≡ true
      → has_next (descs i) ≡ false
      → (vq' : Virtq) × (res : Option Errno) × (walk_indirect_table mem vq (descs i)
          ≡ some (vq', res))
        × ChainResult mem descs i vq vq' (chain_result chain_len res)
  unfolding walk_indirect_table
  indirect_total i chain_len vq room t h =
      elim (Bool-cases ((descs i).len == 0 || not ((descs i).len % sizeof_desc == 0))) [
        | inl bad ↦ (vq, some einval, rw (bad, walk_indirect_table), ([], Walked-refl room))
        | inr good ↦
            elim (Option-cases (gpa_range_to_ptr vq.mm.regions (descs i).addr (descs i).len)) [
              | inl e ↦ (vq, some efault, rw (good, walk_indirect_table, e), ([], Walked-refl room))
              | inr (ptr, e) ↦
                  let (vq', res, q, r) =
                    walk_table-total (mem ptr) (u16 ((descs i).len / sizeof_desc))
                      (vq.max_chain_len + 1) 0 vq room (omega arith) in
                  (
                    vq',
                    res,
                    rw (good, walk_indirect_table, e, q),
                    result res vq' r e (ground arith) (ground arith),
                  )
            ]
      ]
    where
      result :
          (res : Option Errno) (vq' : Virtq) {ptr : ℕ}
          → TableResult (mem ptr) (u16 ((descs i).len / sizeof_desc)) 0 vq vq' res
          → gpa_range_to_ptr vq.mm.regions (descs i).addr (descs i).len ≡ some ptr
          → (descs i).len ≢ 0
          → (descs i).len % sizeof_desc ≡ 0
          → ChainResult mem descs i vq vq' (chain_result chain_len res)
      result none vq' {ptr} (ds, bs, linked, images, w) e a b = (
        ds,
        bs,
        table t h (record { nonempty = a; whole = b; ptr = ptr; found = e; linked = linked }),
        images,
        w,
      )
      result (some x) vq' r e a b = r

  ChainResult-more :
      (i : ℕ) (vq : Virtq) (addr : ℕ) (vq' : Virtq) (res : Result ℕ)
      → is_indirect (descs i) ≡ false
      → has_next (descs i) ≡ true
      → (descs i).next < vq.qsz
      → gpa_range_to_ptr vq.mm.regions (descs i).addr (descs i).len ≡ some addr
      → Walked vq (buffer_of (descs i) addr ∷ []) (extended vq (buffer_of (descs i) addr))
      → ChainResult mem descs (descs i).next (extended vq (buffer_of (descs i) addr)) vq' res
      → ChainResult mem descs i vq vq' res
  ChainResult-more i vq addr vq' (ok k) a b c m w (ds, bs, chained, images, v) = (
    descs i ∷ ds,
    buffer_of (descs i) addr ∷ bs,
    more a b c chained,
    (m, refl, images),
    Walked-trans w v,
  )
  ChainResult-more i vq addr vq' (err e) a b c m w (bs, v) =
      (buffer_of (descs i) addr ∷ bs, Walked-trans w v)

  abbrev pub ChainEnds : ℕ → ℕ → ℕ → Virtq → Type 0
  ChainEnds fuel i k vq =
      (vq' : Virtq) × (res : Result ℕ) × (walk_descs fuel mem descs i k vq ≡ some (vq', res))
      × ChainResult mem descs i vq vq' res

  walk_descs-step :
      (fuel i k : ℕ) (vq : Virtq)
      → HasRoom vq
      → is_indirect (descs i) ≡ false
      → ((b : Buffer)
          → Walked vq (b ∷ []) (extended vq b)
          → ChainEnds fuel (descs i).next (u16 (k + 1)) (extended vq b))
      → {p : Virtq × Option Errno} → Mapped vq (descs i) p
      → p ≡ map_buffer vq (descs i).addr (descs i).len (is_write_only (descs i))
      → ChainEnds (suc fuel) i k vq
  unfolding walk_descs
  walk_descs-step fuel i k vq room t ih (unmapped m) e =
      (vq, err efault, rw (t, walk_descs, ← e, ← e), ([], Walked-refl room))
  walk_descs-step fuel i k vq room t ih (full m) e =
      (vq, err enobufs, rw (t, walk_descs, ← e, ← e), ([], Walked-refl room))
  walk_descs-step fuel i k vq room t ih (added addr m ne) e =
      let b = buffer_of (descs i) addr in
      let w = extended-Walked vq b room ne in
      elim (Bool-cases (has_next (descs i))) [
        | inr f ↦ (
          extended vq b,
          ok k,
          rw (t, walk_descs, ← e, f, ← e),
          (descs i ∷ [], b ∷ [], last t f, (m, refl, tt), w),
        )
        | inl h ↦ elim (Bool-cases (leb vq.qsz (descs i).next)) [
          | inl o ↦ (extended vq b, err erange, rw (t, walk_descs, ← e, h, o, ← e), (b ∷ [], w))
          | inr o ↦
              let (vq', res, q, r) = ih b w in
              (
                vq',
                res,
                rw (t, walk_descs, ← e, h, o, ← e, q),
                ChainResult-more i vq addr vq' res t h (ground arith) m w r,
              )
        ]
      ]

  walk_descs-indirect :
      (fuel i k : ℕ) (vq : Virtq)
      → HasRoom vq
      → is_indirect (descs i) ≡ true
      → ChainEnds (suc fuel) i k vq
  unfolding walk_descs
  walk_descs-indirect fuel i k vq room t = elim (Bool-cases (has_next (descs i))) [
    | inl h ↦ (vq, err einval, rw (t, walk_descs, h), ([], Walked-refl room))
    | inr h ↦
        let (vq', res, q, r) = indirect_total i k vq room t h in
        (vq', chain_result k res, rw (t, walk_descs, h, q), r)
  ]

  walk_descs-total :
      (fuel i k : ℕ) (vq : Virtq)
      → HasRoom vq
      → vq.max_chain_len < vq.next_buffer + fuel
      → ChainEnds fuel i k vq
  walk_descs-total zero i k vq room f = absurd (omega (arith, room.used))
  walk_descs-total (suc fuel) i k vq room f = elim (Bool-cases (is_indirect (descs i))) [
    | inl t ↦ walk_descs-indirect fuel i k vq room t
    | inr t ↦
        walk_descs-step fuel i k vq room t
          (λ b w.
            walk_descs-total fuel (descs i).next (u16 (k + 1)) (extended vq b) w.room
              (omega (arith, w.grown, f)))
          (map_buffer-Mapped vq (descs i)) refl
  ]

-- `walk_chain` ends on every chain, cyclic ones included, where the preallocated buffers are as
-- many as a chain may have, which is a 16-bit number. If it succeeds, the buffers of the queue are
-- those of the descriptors of the chain, its indirect table included, in order and each mapped
-- whole; if it fails, it has filled at most the preallocated buffers. It changes nothing else.
pub walk_chain-total :
    (mem : GuestTables) (vq : Virtq) (head : ℕ)
    → length vq.buffers ≡ vq.max_chain_len
    → vq.max_chain_len < 2 ^ 16
    → (vq' : Virtq) × (res : Result ℕ) × (walk_chain mem vq head ≡ some (vq', res))
      × ChainResult mem vq.desc head (record vq { next_buffer = 0 }) vq' res
unfolding walk_chain
walk_chain-total mem vq head a s =
    walk_descs-total mem vq.desc (vq.max_chain_len + 1) head 1 (record vq { next_buffer = 0 })
      (record { allocated = a; used = omega arith; small = s }) (omega arith)
