-- ===== src/Msg/Inflight.antt =====
-- The messages about the record of the requests in flight, whose memory is shared with the client
-- (vdev.c). Its contents are those of the virtqueues.
use ya_vhost.Prelude.{
  ℕ, suc, ◌+◌, ◌*◌, List, [], ◌∷◌, Option, none, some, not, ◌||◌, ◌==◌, ltb, if◌then◌else◌, min,
  length, u16,
}
use ya_vhost.Errno.{Errno, einval, eisconn, ok, err}
use ya_vhost.Msg.State.{Ring, Conn, Sys, Out, inflight_desc}
use ya_vhost.Msg.Reply.{reply_fds, ack}

-- `sizeof(struct inflight_split_region)`, `sizeof(struct inflight_split_desc)` and
-- `sizeof(struct vhost_user_inflight_desc)`
abbrev pub sizeof_split_region : ℕ
sizeof_split_region = 16

abbrev pub sizeof_split_desc : ℕ
sizeof_split_desc = 16

abbrev pub sizeof_inflight_desc : ℕ
sizeof_inflight_desc = 24

-- `vring_inflight_buf_size`
unfoldable pub vring_inflight_buf_size : ℕ → ℕ
vring_inflight_buf_size num = sizeof_split_region + u16 num * sizeof_split_desc

-- `inflight_mem_cleanup`
unfoldable pub inflight_mem_cleanup : Conn → Conn
inflight_mem_cleanup d = elim d.inflight_mem [
  | none ↦ d
  | some addr ↦ record d {
    inflight_mem = none;
    unmapped_inflight = (addr, d.inflight_size) ∷ d.unmapped_inflight;
  }
]

-- The loop of `inflight_mmap_region`, from the vring `i`: the regions of the vrings below `n`.
unfoldable pub set_regions : (buf region_size n i : ℕ) → List Ring → List Ring
set_regions buf region_size n i [] = []
set_regions buf region_size n i (r ∷ rs) =
    let region = if ltb i n then some (buf + i * region_size) else r.vq.inflight_region in
    record r { vq = record (r.vq) { inflight_region = region } }
    ∷ set_regions buf region_size n (suc i) rs

-- `inflight_mmap_region`
unfoldable pub inflight_mmap_region :
    Sys → (region_size num_queues : ℕ) → Conn → Option Errno × Conn
unfolding inflight_mem_cleanup
inflight_mmap_region sys region_size num_queues d =
    let clean = inflight_mem_cleanup d in
    elim sys.mmap [
      | err e ↦ (some e, clean)
      | ok buf ↦ (
        none,
        record clean {
          vrings =
              set_regions buf region_size (min num_queues (length clean.vrings)) 0 clean.vrings;
          inflight_mem = some buf;
          inflight_size = region_size * num_queues;
        },
      )
    ]

-- `close(fd)`, for a descriptor that is open.
abbrev close_one : ℕ → Option Errno × Conn → Option Errno × Conn
close_one fd (res, d) = (res, record d { closed = fd ∷ d.closed })

-- `vhost_get_inflight_fd`
unfoldable pub vhost_get_inflight_fd : Sys → (num_queues queue_size size num_fds : ℕ) → Conn → Out
unfolding inflight_mmap_region
vhost_get_inflight_fd sys num_queues queue_size size num_fds d =
    let region_size = vring_inflight_buf_size queue_size in
    if not (num_fds == 0) || ltb size sizeof_inflight_desc
    then some (some einval, d)
    else if not (d.num_vrings_in_flight == 0)
    then some (some eisconn, d)
    else elim sys.memfd_create [
      | err e ↦ some (some e, d)
      | ok fd ↦
          let created = record d { opened = fd ∷ d.opened } in
          elim sys.ftruncate [
            | some e ↦ some (close_one fd (some e, created))
            | none ↦
                let (res, d') = inflight_mmap_region sys region_size (u16 num_queues) created in
                elim res [
                  | some e ↦ some (close_one fd (some e, d'))
                  | none ↦ some (
                      close_one fd (
                        reply_fds sys (inflight_desc d'.inflight_size) sizeof_inflight_desc
                          (fd ∷ []) d'))
                ]
          ]
    ]

-- `vhost_set_inflight_fd`
unfoldable pub vhost_set_inflight_fd :
    Sys → (mmap_size mmap_offset num_queues queue_size size num_fds : ℕ) → Conn → Out
unfolding inflight_mmap_region
vhost_set_inflight_fd sys mmap_size mmap_offset num_queues queue_size size num_fds d =
    let region_size = vring_inflight_buf_size queue_size in
    if not (num_fds == 1) || ltb size sizeof_inflight_desc
    then some (some einval, d)
    else if not (d.num_vrings_in_flight == 0)
    then some (some eisconn, d)
    else if not (mmap_offset == 0)
    then some (some einval, d)
    else if not (mmap_size == region_size * u16 num_queues)
    then some (some einval, d)
    else (let (res, d') = inflight_mmap_region sys region_size (u16 num_queues) d in
        elim res [ some e ↦ some (some e, d') | none ↦ some (ack sys none d') ])
