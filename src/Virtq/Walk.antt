-- ===== src/Virtq/Walk.antt =====
-- The walk of a chain (virtio/virt_queue.c) against what a chain of descriptors is.
use ya_vhost.Prelude.{
  ℕ, zero, suc, ◌+◌, ◌^◌, ◌≤◌, ◌<◌, ◌≡◌, refl, ap, ◌∙◌, true, false, inl, inr, Option, none, some,
  List, [], ◌∷◌, ◌++◌, leb, ◌==◌, u16, set, take, length, arith, append_assoc, append-nil,
  length-append, sym, length-set, take-set_end, Bool-cases, Option-cases, ==_iff, ◌≢◌,
}
use native.Mathlib.Numerals.{add-one}
use ya_vhost.Errno.{Errno, enobufs, efault, erange, emlink}
use ya_vhost.MemMap.Region.{Region, gpa_range_to_ptr}
use ya_vhost.Virtq.State.{Desc, Buffer, has_next, is_write_only, is_indirect, Virtq}
use ya_vhost.Virtq.Chain.{add_buffer, map_buffer, walk_table}

-- The preallocated buffers are as many as a chain may have, and not more than that are used.
pub record HasRoom (vq : Virtq) : Type 0 where
  pub allocated : length vq.buffers ≡ vq.max_chain_len
  pub used : vq.next_buffer ≤ vq.max_chain_len
  pub small : vq.max_chain_len < 2 ^ 16

-- The buffers that the walk has filled.
abbrev pub filled : Virtq → List Buffer
filled vq = take vq.next_buffer vq.buffers

-- A walk from `vq` to `vq'` has appended `bs` to the buffers and touched nothing else.
pub record Walked (vq : Virtq) (bs : List Buffer) (vq' : Virtq) : Type 0 where
  pub frame : vq' ≡ record vq { buffers = vq'.buffers; next_buffer = vq'.next_buffer }
  pub room : HasRoom vq'
  pub grown : vq'.next_buffer ≡ vq.next_buffer + length bs
  pub appended : filled vq' ≡ filled vq ++ bs

-- The buffer of a descriptor, at the address that the memory map has for it.
abbrev pub buffer_of : Desc → ℕ → Buffer
buffer_of d addr = record { base = addr; len = d.len; write_only = is_write_only d }

-- One buffer written behind the others.
abbrev pub extended : Virtq → Buffer → Virtq
extended vq b = record vq {
  buffers = set vq.buffers vq.next_buffer b;
  next_buffer = u16 (vq.next_buffer + 1);
}

pub extended-Walked :
    (vq : Virtq) (b : Buffer)
    → HasRoom vq
    → vq.next_buffer ≢ vq.max_chain_len
    → Walked vq (b ∷ []) (extended vq b)
extended-Walked vq b room ne = record {
  frame = refl;
  room = record {
    allocated = length-set vq.buffers vq.next_buffer b ∙ room.allocated;
    used = omega (arith, room.used, room.small, ne);
    small = room.small;
  };
  grown = small;
  appended =
      rw (small, add-one)
        (take-set_end vq.next_buffer b vq.buffers (omega (arith, room.used, room.allocated, ne)));
}
  where
    small : u16 (vq.next_buffer + 1) ≡ vq.next_buffer + 1
    small = omega (arith, room.used, room.small, ne)

-- How `map_buffer` can end.
pub data Mapped (vq : Virtq) (d : Desc) : Virtq × Option Errno → Type 0 where
  unmapped : gpa_range_to_ptr vq.mm.regions d.addr d.len ≡ none → Mapped vq d (vq, some efault)
  full : vq.next_buffer ≡ vq.max_chain_len → Mapped vq d (vq, some enobufs)
  added :
      (addr : ℕ)
      → gpa_range_to_ptr vq.mm.regions d.addr d.len ≡ some addr
      → vq.next_buffer ≢ vq.max_chain_len
      → Mapped vq d (extended vq (buffer_of d addr), none)

pub map_buffer-Mapped :
    (vq : Virtq) (d : Desc) → Mapped vq d (map_buffer vq d.addr d.len (is_write_only d))
unfolding map_buffer add_buffer
map_buffer-Mapped vq d = elim (Option-cases (gpa_range_to_ptr vq.mm.regions d.addr d.len)) [
  | inl e ↦ rw (e, map_buffer) (unmapped e)
  | inr (addr, e) ↦ elim (Bool-cases (vq.next_buffer == vq.max_chain_len)) [
    | inl t ↦ rw (e, map_buffer, t) (full ((==_iff _ _).0 t))
    | inr f ↦
        rw (e, map_buffer, f)
          (added addr e (λ q. cc (f, (==_iff vq.next_buffer vq.max_chain_len).1 q)))
  ]
]

pub Walked-refl : {vq : Virtq} → HasRoom vq → Walked vq [] vq
Walked-refl {vq} room = record {
  frame = refl;
  room = room;
  grown = omega arith;
  appended = sym (append-nil (filled vq));
}

pub Walked-trans :
    {a b c : Virtq} {xs ys : List Buffer} → Walked a xs b → Walked b ys c → Walked a (xs ++ ys) c
Walked-trans {a} {b} {c} {xs} {ys} v w = record {
  frame =
      w.frame
      ∙ ap {A = Virtq} (λ q. record q { buffers = c.buffers; next_buffer = c.next_buffer }) v.frame;
  room = w.room;
  grown = omega (arith, v.grown, w.grown, length-append {0} xs ys);
  appended = w.appended ∙ ap (λ l. l ++ ys) v.appended ∙ append_assoc (filled a) xs ys;
}

-- The descriptors from index `i` of a table of `n`, linked by `next`, none of them indirect.
pub data Linked (table : ℕ → Desc) (n : ℕ) : ℕ → List Desc → Type 0 where
  last :
      {i : ℕ}
      → is_indirect (table i) ≡ false
      → has_next (table i) ≡ false
      → Linked table n i (table i ∷ [])
  more :
      {i : ℕ} {ds : List Desc}
      → is_indirect (table i) ≡ false
      → has_next (table i) ≡ true
      → (table i).next < n
      → Linked table n (table i).next ds
      → Linked table n i (table i ∷ ds)

-- Each buffer is the one of its descriptor, and the memory map has the whole of it.
abbrev pub Images : List Region → List Desc → List Buffer → Type 0
Images regs [] [] = Unit
Images regs (d ∷ ds) (b ∷ bs) =
    (gpa_range_to_ptr regs d.addr d.len ≡ some b.base)
    × (b ≡ buffer_of d b.base)
    × Images regs ds bs
Images regs [] (b ∷ bs) = ⊥
Images regs (d ∷ ds) [] = ⊥

-- What a walk of a table gives: a linked list of descriptors whose buffers it has appended, or an
-- error with some buffers appended.
abbrev pub TableResult : (ℕ → Desc) → ℕ → ℕ → Virtq → Virtq → Option Errno → Type 0
TableResult table n i vq vq' none =
    (ds : List Desc) × (bs : List Buffer) × Linked table n i ds
    × Images vq.mm.regions ds bs
    × Walked vq bs vq'
TableResult table n i vq vq' (some e) = (bs : List Buffer) × Walked vq bs vq'

module _ (table : ℕ → Desc) (n : ℕ) where
  TableResult-more :
      (i : ℕ) (vq : Virtq) (addr : ℕ) (vq' : Virtq) (res : Option Errno)
      → is_indirect (table i) ≡ false
      → has_next (table i) ≡ true
      → (table i).next < n
      → gpa_range_to_ptr vq.mm.regions (table i).addr (table i).len ≡ some addr
      → Walked vq (buffer_of (table i) addr ∷ []) (extended vq (buffer_of (table i) addr))
      → TableResult table n (table i).next (extended vq (buffer_of (table i) addr)) vq' res
      → TableResult table n i vq vq' res
  TableResult-more i vq addr vq' none a b c m w (ds, bs, linked, images, v) = (
    table i ∷ ds,
    buffer_of (table i) addr ∷ bs,
    more a b c linked,
    (m, refl, images),
    Walked-trans w v,
  )
  TableResult-more i vq addr vq' (some e) a b c m w (bs, v) =
      (buffer_of (table i) addr ∷ bs, Walked-trans w v)

  abbrev pub TableEnds : ℕ → ℕ → Virtq → Type 0
  TableEnds fuel i vq =
      (vq' : Virtq) × (res : Option Errno) × (walk_table fuel table n i vq ≡ some (vq', res))
      × TableResult table n i vq vq' res

  walk_table-step :
      (fuel i : ℕ) (vq : Virtq)
      → HasRoom vq
      → is_indirect (table i) ≡ false
      → ((b : Buffer)
          → Walked vq (b ∷ []) (extended vq b)
          → TableEnds fuel (table i).next (extended vq b))
      → {p : Virtq × Option Errno} → Mapped vq (table i) p
      → p ≡ map_buffer vq (table i).addr (table i).len (is_write_only (table i))
      → TableEnds (suc fuel) i vq
  unfolding walk_table
  walk_table-step fuel i vq room t ih (unmapped m) e =
      (vq, some efault, rw (t, walk_table, ← e, ← e), ([], Walked-refl room))
  walk_table-step fuel i vq room t ih (full m) e =
      (vq, some enobufs, rw (t, walk_table, ← e, ← e), ([], Walked-refl room))
  walk_table-step fuel i vq room t ih (added addr m ne) e =
      let b = buffer_of (table i) addr in
      let w = extended-Walked vq b room ne in
      elim (Bool-cases (has_next (table i))) [
        | inr f ↦ (
          extended vq b,
          none,
          rw (t, walk_table, ← e, f, ← e),
          (table i ∷ [], b ∷ [], last t f, (m, refl, tt), w),
        )
        | inl h ↦ elim (Bool-cases (leb n (table i).next)) [
          | inl o ↦ (extended vq b, some erange, rw (t, walk_table, ← e, h, o, ← e), (b ∷ [], w))
          | inr o ↦
              let (vq', res, q, r) = ih b w in
              (
                vq',
                res,
                rw (t, walk_table, ← e, h, o, ← e, q),
                TableResult-more i vq addr vq' res t h (ground arith) m w r,
              )
        ]
      ]

  -- The walk of a table ends, with fuel for the buffers that are left.
  pub walk_table-total :
      (fuel i : ℕ) (vq : Virtq)
      → HasRoom vq
      → vq.max_chain_len < vq.next_buffer + fuel
      → TableEnds fuel i vq
  unfolding walk_table
  walk_table-total zero i vq room f = absurd (omega (arith, room.used))
  walk_table-total (suc fuel) i vq room f = elim (Bool-cases (is_indirect (table i))) [
    | inl t ↦ (vq, some emlink, rw (t, walk_table), ([], Walked-refl room))
    | inr t ↦
        walk_table-step fuel i vq room t
          (λ b w.
            walk_table-total fuel (table i).next (extended vq b) w.room (omega (arith, w.grown, f)))
          (map_buffer-Mapped vq (table i)) refl
  ]
