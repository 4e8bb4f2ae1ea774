-- ===== src/Virtq/Safety.antt =====
-- Which guest memory `walk_chain` (virtio/virt_queue.c) can read: two memories that agree there
-- cannot be told apart by it.
use ya_vhost.Prelude.{
  ℕ, zero, suc, ◌+◌, ◌*◌, ◌/◌, ◌%◌, ◌≤◌, ◌<◌, ◌≡◌, refl, Bool, not, inl, inr, ◌||◌, some, List,
  ◌==◌, u16, arith, Bool-cases, Option-cases,
}
use ya_vhost.MemMap.Region.{Region, gpa_range_to_ptr}
use ya_vhost.Virtq.State.{Desc, sizeof_desc, is_write_only, Virtq, GuestTables}
use ya_vhost.Virtq.Chain.{
  add_buffer, map_buffer, walk_table, walk_indirect_table, walk_descs, walk_chain,
}

-- The tables agree on every whole descriptor of every mapped range.
abbrev pub AgreeMapped : List Region → GuestTables → GuestTables → Type 0
AgreeMapped regs m m' =
    (addr len ptr j : ℕ)
    → gpa_range_to_ptr regs addr len ≡ some ptr
    → j * sizeof_desc + sizeof_desc ≤ len
    → m ptr j ≡ m' ptr j

map_buffer-mm :
    (vq : Virtq) (gpa len : ℕ) (w : Bool)
    → ((map_buffer vq gpa len w).0.mm ≡ vq.mm)
      × ((map_buffer vq gpa len w).0.qsz ≡ vq.qsz)
      × ((map_buffer vq gpa len w).0.max_chain_len ≡ vq.max_chain_len)
unfolding map_buffer add_buffer
map_buffer-mm vq gpa len w = elim (Option-cases (gpa_range_to_ptr vq.mm.regions gpa len)) [
  | inl e ↦ rw (e, map_buffer) (refl, refl, refl)
  | inr (p, e) ↦ elim (Bool-cases (vq.next_buffer == vq.max_chain_len)) [
    | inl t ↦ rw (e, map_buffer, t) (refl, refl, refl)
    | inr t ↦ rw (e, map_buffer, t) (refl, refl, refl)
  ]
]

module _ (t t' : ℕ → Desc) (n k : ℕ) (agree : (j : ℕ) → j < k → t j ≡ t' j) (le : n ≤ k) where
  walk_table-agree :
      (fuel i : ℕ) (vq : Virtq) → i < k → walk_table fuel t n i vq ≡ walk_table fuel t' n i vq
  unfolding walk_table
  walk_table-agree zero i vq lt = refl
  walk_table-agree (suc fuel) i vq lt =
      let ih =
        walk_table-agree fuel (t i).next
          (map_buffer vq (t i).addr (t i).len (is_write_only (t i))).0 in
      ground (arith, agree i lt, ih)

module _ {m m' : GuestTables} where
  walk_indirect_table-agree :
      (vq : Virtq) (d : Desc)
      → AgreeMapped vq.mm.regions m m'
      → walk_indirect_table m vq d ≡ walk_indirect_table m' vq d
  unfolding walk_indirect_table
  walk_indirect_table-agree vq d agree =
      elim (Bool-cases (d.len == 0 || not (d.len % sizeof_desc == 0))) [
        | inl t ↦ rw (t, walk_indirect_table)
        | inr t ↦ elim (Option-cases (gpa_range_to_ptr vq.mm.regions d.addr d.len)) [
          | inl e ↦ rw (e, t, walk_indirect_table)
          | inr (ptr, e) ↦
              rw (e, t, walk_indirect_table)
                (walk_table-agree (m ptr) (m' ptr) (u16 (d.len / sizeof_desc)) (d.len / sizeof_desc)
                  (λ j lt. agree d.addr d.len ptr j e (omega arith)) (omega arith)
                  (vq.max_chain_len + 1) 0 vq (ground arith))
        ]
      ]

  walk_descs-agree :
      (descs descs' : ℕ → Desc) (fuel i k : ℕ) (vq : Virtq)
      → AgreeMapped vq.mm.regions m m'
      → ((j : ℕ) → j < vq.qsz → descs j ≡ descs' j)
      → i < vq.qsz
      → walk_descs fuel m descs i k vq ≡ walk_descs fuel m' descs' i k vq
  unfolding walk_descs
  walk_descs-agree descs descs' zero i k vq am ad lt = refl
  walk_descs-agree descs descs' (suc fuel) i k vq am ad lt =
      let vq' = (map_buffer vq (descs i).addr (descs i).len (is_write_only (descs i))).0 in
      let (same_mm, same_qsz, _) =
        map_buffer-mm vq (descs i).addr (descs i).len (is_write_only (descs i)) in
      let ih =
        walk_descs-agree descs descs' fuel (descs i).next (u16 (k + 1)) vq' (rw same_mm am)
          (rw same_qsz ad) in
      ground (arith, ad i lt, ih, same_qsz, walk_indirect_table-agree vq (descs i) am)

-- From a head inside the queue, `walk_chain` reads no descriptor outside the `qsz` of the queue,
-- and none of an indirect table outside the range that the memory map has for it: guest memories
-- that agree on those, whatever they hold elsewhere, give the same walk.
pub walk_chain-agree :
    {m m' : GuestTables} (vq : Virtq) (descs : ℕ → Desc) (head : ℕ)
    → AgreeMapped vq.mm.regions m m'
    → ((j : ℕ) → j < vq.qsz → vq.desc j ≡ descs j)
    → head < vq.qsz
    → walk_chain m vq head
      ≡ walk_descs (vq.max_chain_len + 1) m' descs head 1 (record vq { next_buffer = 0 })
unfolding walk_chain
walk_chain-agree vq descs head am ad lt =
    walk_descs-agree vq.desc descs (vq.max_chain_len + 1) head 1 (record vq { next_buffer = 0 }) am
      ad lt
