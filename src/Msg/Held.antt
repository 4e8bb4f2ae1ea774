-- ===== src/Msg/Held.antt =====
-- The descriptors that a device holds (vdev.c), and how its vrings are changed without them.
use ya_vhost.Prelude.{
  ℕ, zero, suc, ◌+◌, ◌≡◌, refl, ap, List, [], ◌∷◌, Option, none, some, ◌==◌, if◌then◌else◌,
  get_elem?, set, arith, Option-cases, inl, inr, map, times, u8, u16,
}
use mathlib.Core.Option.{some-injective}
use ya_vhost.MemMap.Slots.{MemoryMap}
use ya_vhost.Msg.State.{Ring, Conn, Out, close_fd}
use ya_vhost.Msg.Reply.{get_vring, msg_u64_get_vring}
use ya_vhost.Msg.Rings.{vring_update_shadow_vq_addrs}
use ya_vhost.Msg.Memory.{update_started}
use ya_vhost.Msg.Inflight.{set_regions}

-- How often a descriptor is in a field.
abbrev pub at : ℕ → Option ℕ → ℕ
at b none = 0
at b (some fd) = if b == fd then 1 else 0

abbrev pub ring_at : ℕ → Ring → ℕ
ring_at b r = at b r.callfd + (at b r.kickfd + at b r.errfd)

unfoldable pub rings_at : ℕ → List Ring → ℕ
rings_at b [] = 0
rings_at b (r ∷ rs) = ring_at b r + rings_at b rs

-- How often a device holds it.
abbrev pub held : ℕ → Conn → ℕ
held b d = at b d.connfd + (at b d.timerfd + (at b d.keep_fd + rings_at b d.vrings))

-- How often it was opened in what a function returns, and how often closed or held.
unfoldable pub opened_in : ℕ → Out → ℕ
opened_in b none = 0
opened_in b (some (res, d)) = times b d.opened

unfoldable pub settled_in : ℕ → ℕ → Out → ℕ
settled_in b k none = 0
settled_in b k (some (res, d)) = times b d.closed + held b d + k

-- Every descriptor was opened as often as it was closed or is held, `k` times aside.
abbrev pub Balanced : ℕ → ℕ → Conn → Type 0
Balanced b k d = times b d.opened ≡ times b d.closed + held b d + k

abbrev pub Balances : ℕ → ℕ → Out → Type 0
Balances b k out = opened_in b out ≡ settled_in b k out

pub times-close_fd :
    (b : ℕ) (fd : Option ℕ) (xs : List ℕ) → times b (close_fd fd xs) ≡ at b fd + times b xs
unfolding times
times-close_fd b none xs = omega arith
times-close_fd b (some fd) xs = refl

pub rings_at-set :
    (b : ℕ) (rs : List Ring) (i : ℕ) (r r' : Ring)
    → get_elem? rs i ≡ some r
    → rings_at b (set rs i r') + ring_at b r ≡ rings_at b rs + ring_at b r'
unfolding rings_at
rings_at-set b [] i r r' e = absurd (ground (arith, e))
rings_at-set b (x ∷ rs) zero r r' e =
    let same : ring_at b x ≡ ring_at b r = ap (ring_at b) (some-injective x r e) in omega arith
rings_at-set b (x ∷ rs) (suc i) r r' e = omega (arith, rings_at-set b rs i r r' e)

pub rings_at-set_same :
    (b : ℕ) (rs : List Ring) (i : ℕ) (r r' : Ring)
    → get_elem? rs i ≡ some r
    → ring_at b r' ≡ ring_at b r
    → rings_at b (set rs i r') ≡ rings_at b rs
rings_at-set_same b rs i r r' e same = omega (arith, rings_at-set b rs i r r' e)

pub set-set : (rs : List Ring) (i : ℕ) (r r' : Ring) → set (set rs i r) i r' ≡ set rs i r'
set-set [] i r r' = refl
set-set (x ∷ rs) zero r r' = refl
set-set (x ∷ rs) (suc i) r r' = ap (λ ys. x ∷ ys) (set-set rs i r r')

pub rings_at-map :
    (b : ℕ) (f : Ring → Ring) (rs : List Ring)
    → ((r : Ring) → ring_at b (f r) ≡ ring_at b r)
    → rings_at b (map f rs) ≡ rings_at b rs
unfolding rings_at
rings_at-map b f [] h = refl
rings_at-map b f (r ∷ rs) h = omega (arith, h r, rings_at-map b f rs h)

pub rings_at-set_regions :
    (b buf size n i : ℕ) (rs : List Ring) → rings_at b (set_regions buf size n i rs) ≡ rings_at b rs
unfolding rings_at set_regions
rings_at-set_regions b buf size n i [] = refl
rings_at-set_regions b buf size n i (r ∷ rs) =
    omega (arith, rings_at-set_regions b buf size n (suc i) rs)

pub rings_at-update_started :
    (b : ℕ) (mm : MemoryMap) (rs : List Ring) → rings_at b (update_started mm rs).1 ≡ rings_at b rs
unfolding rings_at update_started vring_update_shadow_vq_addrs
rings_at-update_started b mm [] = refl
rings_at-update_started b mm (r ∷ rs) = ground (arith, rings_at-update_started b mm rs)

pub get_vring-elem :
    (d : Conn) (u s n i : ℕ) (r : Ring)
    → msg_u64_get_vring d u s n ≡ some (i, r)
    → get_elem? d.vrings i ≡ some r
unfolding msg_u64_get_vring get_vring
get_vring-elem d u s n i r e =
    let small : u16 (u8 u) ≡ u8 u = omega arith in
    elim (Option-cases (get_elem? d.vrings (u8 u))) [
      | inl x ↦ ground (arith, e, small, x, ap (get_elem? d.vrings) small)
      | inr (y, x) ↦ ground (arith, e, small, x, ap (get_elem? d.vrings) small)
    ]
