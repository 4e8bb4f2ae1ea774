-- ===== src/Vdev/Counts.antt =====
-- The counters of a device (vdev.c) as totals over its vrings.
use ya_vhost.Prelude.{
  ℕ, zero, suc, ◌+◌, ◌<◌, ◌≤◌, ◌≡◌, refl, sym, ap, ap₂, ◌∙◌, subst, Bool, true, false, ◌==◌,
  if◌then◌else◌, inl, inr, arith, Bool-cases,
}
use ya_vhost.Vdev.Life.{Life, Device, put, vring_disconnect}

unfoldable pub total : (Life → ℕ) → ℕ → (ℕ → Life) → ℕ
total f zero v = 0
total f (suc n) v = f (v n) + total f n v

total-beyond :
    (f : Life → ℕ) (n : ℕ) (v : ℕ → Life) (i : ℕ) (l : Life)
    → n ≤ i
    → total f n (λ j. if j == i then l else v j) ≡ total f n v
unfolding total
total-beyond f zero v i l le = refl
total-beyond f (suc n) v i l le =
    let e : (n == i) ≡ false = ground arith in
    rw e (ap (λ t. f (v n) + t) (total-beyond f n v i l (omega arith)))

total-put :
    (f : Life → ℕ) (n : ℕ) (v : ℕ → Life) (i : ℕ) (l : Life)
    → i < n
    → total f n (λ j. if j == i then l else v j) + f (v i) ≡ total f n v + f l
unfolding total
total-put f zero v i l lt = absurd (omega arith)
total-put f (suc n) v i l lt = elim (Bool-cases (n == i)) [
  | inl e ↦
      let same : n ≡ i = ground arith in
      let here : f (v n) ≡ f (v i) = ap (λ j. f (v j)) same in
      rw e (omega (arith, here, total-beyond f n v i l (omega arith)))
  | inr e ↦ rw e (omega (arith, total-put f n v i l (ground arith)))
]

pub total-map :
    (f : Life → ℕ) (g : Life → Life) (n : ℕ) (v : ℕ → Life)
    → ((l : Life) → f (g l) ≡ f l)
    → total f n (λ j. g (v j)) ≡ total f n v
unfolding total
total-map f g zero v h = refl
total-map f g (suc n) v h = ap₂ (λ a b. a + b) (h (v n)) (total-map f g n v h)

abbrev pub bit : Bool → ℕ
bit true = 1
bit false = 0

-- Where the stop of a started vring has not come to yet.
abbrev pub started_part : Life → ℕ
started_part l = l.mark_stopped_bh + (l.start_bh + (l.start_failed_bh + bit l.started_in_rq))

abbrev pub flight_part : Life → ℕ
flight_part l = bit l.started_in_ctl

-- The bottom halves that end with `vring_mark_msg_handled`.
abbrev pub handling_part : Life → ℕ
handling_part l = l.start_bh + (l.sync_bh + (l.msg_handled_bh + l.start_failed_bh))

abbrev pub draining : Life → ℕ
draining l = if l.started_in_rq then 0 else if l.num_in_flight == 0 then 0 else 1

-- What is going to end the life of a started vring: its start, its failure to start, the vring
-- itself while it runs, its requests in flight after that, and the signal that it is drained.
abbrev pub token : Life → ℕ
token l =
    bit l.started_in_rq + (l.start_bh + (l.start_failed_bh + (l.mark_drained_bh + draining l)))

-- Every vring that is started in the control loop has one such end, and no other has one; the
-- counters are the totals. In the middle of a handler the vring `x` lacks `k` ends, and the counters
-- are `a`, `b` and `c` ahead.
pub record Counts (q x k a b c : ℕ) (d : Device) : Type 0 where
  pub queues : d.num_queues ≡ q
  pub alive :
      (j : ℕ) → bit (d.vrings j).started_in_ctl ≡ token (d.vrings j) + (if j == x then k else 0)
  pub started : d.num_vrings_started ≡ total started_part d.num_queues d.vrings + a
  pub flight : d.num_vrings_in_flight ≡ total flight_part d.num_queues d.vrings + b
  pub handling : d.num_vrings_handling_msg ≡ total handling_part d.num_queues d.vrings + c

-- The invariant between two handlers, where no vring is an exception.
abbrev pub IsCounted : ℕ → Device → Type 0
IsCounted q d = Counts q 0 0 0 0 0 d

pub Counts-zero : (q x y a b c : ℕ) (d : Device) → Counts q x 0 a b c d → Counts q y 0 a b c d
Counts-zero q x y a b c d h = record {
  queues = h.queues;
  alive = λ j. ground (arith, h.alive j);
  started = h.started;
  flight = h.flight;
  handling = h.handling;
}

abbrev pub put_counters : Device → ℕ → Life → (started flight handling : ℕ) → Device
put_counters d i l s f h = record (put d i l) {
  num_vrings_started = s;
  num_vrings_in_flight = f;
  num_vrings_handling_msg = h;
}

-- A vring and the counters change.
pub Counts-put :
    (d : Device) (q i k k' a b c a' b' c' s f h : ℕ) (l : Life)
    → i < q
    → Counts q i k a b c d
    → bit l.started_in_ctl ≡ token l + k'
    → s + (a + started_part (d.vrings i)) ≡ d.num_vrings_started + (a' + started_part l)
    → f + (b + flight_part (d.vrings i)) ≡ d.num_vrings_in_flight + (b' + flight_part l)
    → h + (c + handling_part (d.vrings i)) ≡ d.num_vrings_handling_msg + (c' + handling_part l)
    → Counts q i k' a' b' c' (put_counters d i l s f h)
Counts-put d q i k k' a b c a' b' c' s f h l lt n ends es ef eh = record {
  queues = n.queues;
  alive = λ j. elim (Bool-cases (j == i)) [
    | inl e ↦ rw e ends
    | inr e ↦ rw e (
        subst (λ t. bit (d.vrings j).started_in_ctl ≡ token (d.vrings j) + (if t then k else 0)) e
          (n.alive j))
  ];
  started = omega (
    arith,
    n.started,
    total-put started_part d.num_queues d.vrings i l (subst (λ m. i < m) (sym n.queues) lt),
  );
  flight = omega (
    arith,
    n.flight,
    total-put flight_part d.num_queues d.vrings i l (subst (λ m. i < m) (sym n.queues) lt),
  );
  handling = omega (
    arith,
    n.handling,
    total-put handling_part d.num_queues d.vrings i l (subst (λ m. i < m) (sym n.queues) lt),
  );
}

vring_disconnect-parts :
    (l : Life)
    → (flight_part (vring_disconnect l) ≡ flight_part l)
      × (token (vring_disconnect l) ≡ token l)
      × (started_part (vring_disconnect l) ≡ started_part l)
      × (handling_part (vring_disconnect l) ≡ handling_part l)
unfolding vring_disconnect
vring_disconnect-parts l = elim (Bool-cases l.started_in_ctl) [
  | inl e ↦ rw e (refl, refl, refl, refl)
  | inr e ↦ rw e (refl, refl, refl, refl)
]

pub Counts-disconnect :
    (q x k a b c : ℕ) (d : Device)
    → Counts q x k a b c d
    → Counts q x k a b c
        (record d { conn_handler = false; vrings = λ j. vring_disconnect (d.vrings j) })
Counts-disconnect q x k a b c d n = record {
  queues = n.queues;
  alive = λ j.
      let parts = vring_disconnect-parts (d.vrings j) in
      parts.0 ∙ (n.alive j ∙ ap (λ t. t + (if j == x then k else 0)) (sym parts.1));
  started =
      n.started
      ∙ ap (λ t. t + a)
          (sym (
            total-map started_part vring_disconnect d.num_queues d.vrings
              (λ l. (vring_disconnect-parts l).2)));
  flight =
      n.flight
      ∙ ap (λ t. t + b)
          (sym (
            total-map flight_part vring_disconnect d.num_queues d.vrings
              (λ l. (vring_disconnect-parts l).0)));
  handling =
      n.handling
      ∙ ap (λ t. t + c)
          (sym (
            total-map handling_part vring_disconnect d.num_queues d.vrings
              (λ l. (vring_disconnect-parts l).3)));
}
