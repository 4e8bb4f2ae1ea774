-- ===== src/Msg/Memory.antt =====
-- The messages about the memory of the guest: the memory table and the dirty log (vdev.c).
use ya_vhost.Prelude.{
  ℕ, ◌+◌, ◌*◌, List, [], ◌∷◌, ◌++◌, Option, none, some, not, ◌||◌, ◌==◌, ltb, if◌then◌else◌, take,
}
use ya_vhost.Errno.{Errno, einval, emsgsize, efault}
use ya_vhost.MemMap.Os.{Os, Call}
use ya_vhost.MemMap.Slots.{MemoryMap, memmap_new, memmap_unref, memmap_add_slot}
use ya_vhost.Msg.State.{
  Ring, number, Conn, Sys, Out, mem_table_complete, log_base_complete, sync_bh,
}
use ya_vhost.Msg.Reply.{reply, ack, handle_all}
use ya_vhost.Msg.Features.{update_shadow_vq_memlog}
use ya_vhost.Msg.Rings.{vring_update_shadow_vq_addrs}

-- `VHOST_USER_MEM_REGIONS_MAX`, and the size of the message before its regions and of a region
abbrev pub mem_regions_max : ℕ
mem_regions_max = 8

abbrev pub sizeof_mem_hdr : ℕ
sizeof_mem_hdr = 8

abbrev pub sizeof_mem_region : ℕ
sizeof_mem_region = 32

-- `struct vhost_user_mem_region`
pub record MemRegion : Type 0 where
  pub guest_addr : ℕ
  pub size : ℕ
  pub user_addr : ℕ
  pub mmap_offset : ℕ

-- The loop of `vhost_set_mem_table` that adds the slots, each with the descriptor at its place.
unfoldable pub add_slots :
    Os → List MemRegion → (fds : List ℕ) → MemoryMap → Option Errno × MemoryMap × List Call
add_slots os [] fds mm = (none, mm, [])
add_slots os (r ∷ rs) [] mm = (none, mm, [])
add_slots os (r ∷ rs) (fd ∷ fds) mm =
    let (res, mm', calls) =
      memmap_add_slot os mm r.guest_addr r.user_addr r.size fd r.mmap_offset in
    let (res', mm'', calls') = add_slots os rs fds mm' in
    elim res [ some e ↦ (some e, mm', calls) | none ↦ (res', mm'', calls ++ calls') ]

-- The loop that resolves the addresses of the started vrings: those before one that fails keep their
-- new shadow.
unfoldable pub update_started : MemoryMap → List Ring → Option Errno × List Ring
update_started mm [] = (none, [])
update_started mm (r ∷ rs) =
    let (res, rs') = update_started mm rs in
    if not r.started_in_ctl then (res, r ∷ rs') else elim (vring_update_shadow_vq_addrs r mm) [
      | none ↦ (some einval, r ∷ rs)
      | some r' ↦ (res, r' ∷ rs')
    ]

-- `vhd_memmap_unref` of a map that nobody else holds.
unfoldable pub drop_map : Os → MemoryMap → Conn → Conn
drop_map os mm d = record d { calls = d.calls ++ (memmap_unref os mm).1 }

-- `set_mem_table_complete`
unfoldable pub complete_mem_table : Sys → Conn → Option Errno × Conn
unfolding drop_map
complete_mem_table sys d = elim d.old_memmap [
  | none ↦ ack sys none d
  | some old ↦ ack sys none (record (drop_map sys.os old d) { old_memmap = none })
]

-- `vhost_set_mem_table`. `regions` are those that the message has room for.
unfoldable pub vhost_set_mem_table :
    Sys → (nregions : ℕ) → List MemRegion → (size : ℕ) → (fds : List ℕ) → (num_fds : ℕ) → Conn → Out
unfolding drop_map complete_mem_table
vhost_set_mem_table sys nregions regions size fds num_fds d =
    let exp_size = sizeof_mem_hdr + sizeof_mem_region * num_fds in
    let (res, mm, calls) =
      add_slots sys.os (take nregions regions) fds (memmap_new d.map_cb d.unmap_cb) in
    let (res', rings) = update_started mm d.vrings in
    let mapped = record d { calls = d.calls ++ calls } in
    let fail = λ (rs : List Ring). drop_map sys.os mm (record mapped { vrings = rs }) in
    let done = record mapped { vrings = rings; old_memmap = d.memmap; memmap = some mm } in
    if ltb size exp_size
    then some (some emsgsize, d)
    else if ltb mem_regions_max nregions
    then some (some einval, d)
    else if not (nregions == num_fds)
    then some (some einval, d)
    else elim res [
      | some e ↦ some (some e, fail d.vrings)
      | none ↦ elim res' [
        | some e ↦ some (some e, fail rings)
        | none ↦
            if d.num_vrings_in_flight == 0
            then some (complete_mem_table sys done)
            else some (
              none,
              handle_all sync_bh (record done { handle_complete = some mem_table_complete }),
            )
      ]
    ]

-- `set_log_base_complete`: the old log goes to `vhd_free`.
unfoldable pub complete_log_base : Sys → Conn → Option Errno × Conn
complete_log_base sys d = elim d.old_memlog [
  | none ↦ reply sys (number 0) 8 d
  | some old ↦
      reply sys (number 0) 8 (record d { freed_logs = old ∷ d.freed_logs; old_memlog = none })
]

-- `sizeof(struct vhost_user_log)`
abbrev pub sizeof_log : ℕ
sizeof_log = 16

-- `vhost_set_log_base`
unfoldable pub vhost_set_log_base : Sys → (size num_fds : ℕ) → Conn → Out
unfolding complete_log_base update_shadow_vq_memlog
vhost_set_log_base sys size num_fds d =
    if not (num_fds == 1) || ltb size sizeof_log
    then some (some einval, d)
    else elim sys.memlog_new [
      | none ↦ some (some efault, d)
      | some log ↦
          let logged =
            update_shadow_vq_memlog (record d { old_memlog = d.memlog; memlog = some log }) in
          if d.num_vrings_in_flight == 0
          then some (complete_log_base sys logged)
          else some (
            none,
            handle_all sync_bh (record logged { handle_complete = some log_base_complete }),
          )
    ]
