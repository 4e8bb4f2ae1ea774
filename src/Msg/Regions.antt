-- ===== src/Msg/Regions.antt =====
-- Where the vrings keep their requests in flight, after a message that maps new memory for them
-- (vdev.c).
use ya_vhost.Prelude.{
  ℕ, zero, suc, ◌+◌, ◌*◌, ◌≡◌, ◌<◌, ◌≤◌, refl, ap, ◌∙◌, List, [], ◌∷◌, Option, none, some, ltb,
  if◌then◌else◌, min, length, get_elem?, arith, u16,
}
use ya_vhost.Errno.{ok}
use ya_vhost.Msg.State.{Ring, Conn, Sys}
use ya_vhost.Msg.Reply.{ack, reply, reply_fds, handle_finish}
use ya_vhost.Msg.Inflight.{
  set_regions, inflight_mmap_region, inflight_mem_cleanup, vhost_set_inflight_fd,
  vring_inflight_buf_size,
}

-- The region of a vring, if it exists.
abbrev pub region_of : Option Ring → Option ℕ
region_of none = none
region_of (some r) = r.vq.inflight_region

set_regions-region_of :
    (buf size n i j : ℕ) (rs : List Ring)
    → j < length rs
    → region_of (get_elem? (set_regions buf size n i rs) j)
      ≡ (if ltb (i + j) n then some (buf + (i + j) * size) else region_of (get_elem? rs j))
unfolding set_regions
set_regions-region_of buf size n i j [] h = absurd (omega arith)
set_regions-region_of buf size n i zero (r ∷ rs) h = let e : i + 0 ≡ i = omega arith in rw e refl
set_regions-region_of buf size n i (suc j) (r ∷ rs) h =
    let e : i + suc j ≡ suc i + j = omega arith in
    rw e (set_regions-region_of buf size n (suc i) j rs (omega arith))

-- Where the region of the vring `j` is after an accepted VHOST_USER_SET_INFLIGHT_FD for `queues`
-- queues: the vrings below `queues` have a region each, apart from one another and inside the new
-- mapping. The others keep the region that they had, though the mapping that it was in is gone.
pub record Placed (d d' : Conn) (buf size queues j : ℕ) : Type 0 where
  pub mem : d'.inflight_mem ≡ some buf
  pub total : d'.inflight_size ≡ size * queues
  pub below :
      j < queues
      → (region_of (get_elem? d'.vrings j) ≡ some (buf + j * size))
        × (buf + j * size + size ≤ buf + d'.inflight_size)
  pub beyond : queues ≤ j → region_of (get_elem? d'.vrings j) ≡ region_of (get_elem? d.vrings j)
  pub unmapped :
      (old : ℕ)
      → d.inflight_mem ≡ some old
      → d'.unmapped_inflight ≡ (old, d.inflight_size) ∷ d.unmapped_inflight

room : (buf size queues j : ℕ) → j < queues → buf + j * size + size ≤ buf + size * queues
room buf size queues j lt = grind arith

mmap_region-Placed :
    (sys : Sys) (size queues j buf : ℕ) (d : Conn)
    → sys.mmap ≡ ok buf
    → j < length d.vrings
    → Placed d (inflight_mmap_region sys size queues d).1 buf size queues j
unfolding inflight_mmap_region inflight_mem_cleanup
mmap_region-Placed sys size queues j buf d e h =
    let n = min queues (length d.vrings) in
    let rings : (inflight_mmap_region sys size queues d).1.vrings
        ≡ set_regions buf size n 0 d.vrings =
      ground (arith, e) in
    let total : (inflight_mmap_region sys size queues d).1.inflight_size ≡ size * queues =
      ground (arith, e) in
    let placed =
      ap (λ rs. region_of (get_elem? rs j)) rings
      ∙ set_regions-region_of buf size n 0 j d.vrings h in
    let here : 0 + j ≡ j = omega arith in
    record {
      mem = ground (arith, e);
      total = total;
      below = λ lt. (
        ground (arith, placed, ap (λ k. buf + k * size) here),
        rw total (room buf size queues j lt),
      );
      beyond = λ le. ground (arith, placed);
      unmapped = λ old o. ground (arith, e, o);
    }

-- What the regions are told by.
record SameRegions (x d' : Conn) : Type 0 where
  mem : d'.inflight_mem ≡ x.inflight_mem
  total : d'.inflight_size ≡ x.inflight_size
  vrings : d'.vrings ≡ x.vrings
  unmapped : d'.unmapped_inflight ≡ x.unmapped_inflight

set_inflight_fd-SameRegions :
    (sys : Sys) (mmap_size offset queues queue_size size n : ℕ) (d d' : Conn)
    → vhost_set_inflight_fd sys mmap_size offset queues queue_size size n d ≡ some (none, d')
    → SameRegions
        (inflight_mmap_region sys (vring_inflight_buf_size queue_size) (u16 queues) d).1
        d'
unfolding vhost_set_inflight_fd ack reply reply_fds handle_finish
set_inflight_fd-SameRegions sys mmap_size offset queues queue_size size n d d' e = record {
  mem = ground (arith, e);
  total = ground (arith, e);
  vrings = ground (arith, e);
  unmapped = ground (arith, e);
}

Placed-SameRegions :
    (d x d' : Conn) (buf size queues j : ℕ)
    → SameRegions x d'
    → Placed d x buf size queues j
    → Placed d d' buf size queues j
Placed-SameRegions d x d' buf size queues j s p = record {
  mem = s.mem ∙ p.mem;
  total = s.total ∙ p.total;
  below = λ lt. (
    ap (λ rs. region_of (get_elem? rs j)) s.vrings ∙ (p.below lt).0,
    rw (s.total) ((p.below lt).1),
  );
  beyond = λ le. ap (λ rs. region_of (get_elem? rs j)) s.vrings ∙ p.beyond le;
  unmapped = λ old o. s.unmapped ∙ p.unmapped old o;
}

-- After an accepted VHOST_USER_SET_INFLIGHT_FD the vrings below its number of queues have a region
-- each in the new mapping, apart from one another and inside of it. A vring beyond keeps the region
-- that it had, though the old mapping, if there was one, is unmapped.
pub set_inflight_fd-Placed :
    (sys : Sys) (mmap_size offset queues queue_size size n j buf : ℕ) (d d' : Conn)
    → sys.mmap ≡ ok buf
    → j < length d.vrings
    → vhost_set_inflight_fd sys mmap_size offset queues queue_size size n d ≡ some (none, d')
    → Placed d d' buf (vring_inflight_buf_size queue_size) (u16 queues) j
set_inflight_fd-Placed sys mmap_size offset queues queue_size size n j buf d d' e h accepted =
    let region_size = vring_inflight_buf_size queue_size in
    Placed-SameRegions d (inflight_mmap_region sys region_size (u16 queues) d).1 d' buf region_size
      (u16 queues) j
      (set_inflight_fd-SameRegions sys mmap_size offset queues queue_size size n d d' accepted)
      (mmap_region-Placed sys region_size (u16 queues) j buf d e h)
