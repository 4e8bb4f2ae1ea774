-- ===== src/Event/Ready.antt =====
-- A handler that is deleted while the ready list is handled (event.c) is not called behind that.
use ya_vhost.Prelude.{
  times, ℕ, ◌≡◌, inl, inr, Bool, true, false, List, [], ◌∷◌, ◌++◌, times-append, Option, none, some,
  ◌==◌, ◌||◌, ◌&&◌, not, ltb, ◌<◌, arith, Bool-cases, Option-cases,
}
use ya_vhost.Errno.{Errno}
use ya_vhost.Event.Handlers.{
  Handlers, Op, attach, add, detach, del, Ready, attach_io_handler, add_io_handler,
  detach_io_handler, del_io_handler, perform, perform_all, handle_ready, handle_events,
}

-- The operation attaches the handler.
unfoldable pub attaches : ℕ → Op → Bool
attaches h (attach ctl j) = h == j
attaches h (add ctl j) = h == j
attaches h (detach ctl j) = false
attaches h (del ctl j) = false

unfoldable pub attaches_any : ℕ → List Op → Bool
unfolding attaches
attaches_any h [] = false
attaches_any h (op ∷ ops) = attaches h op || attaches_any h ops

unfoldable pub attaches_later : ℕ → List Ready → Bool
unfolding attaches_any
attaches_later h [] = false
attaches_later h (ev ∷ evs) = attaches_any h ev.ops || attaches_later h evs

-- The handler is detached and waits to be freed, was called `n` times and freed `m` times.
unfoldable rests : ℕ → ℕ → ℕ → Handlers → Bool
unfolding times
rests h n m s =
    not (s.attached h)
    && (times h s.called == n)
    && (times h s.freed == m)
    && ltb 0 (times h s.deleted_handlers)

perform-rests :
    {res : Option Errno} (h n m : ℕ) (op : Op) (s s' : Handlers)
    → attaches h op ≡ false
    → rests h n m s ≡ true
    → perform op s ≡ some (res, s')
    → rests h n m s' ≡ true
unfolding times perform attach_io_handler add_io_handler detach_io_handler del_io_handler attaches
    rests
perform-rests h n m (attach ctl j) s s' apart at e = ground (arith, e)
perform-rests h n m (add ctl j) s s' apart at e = ground (arith, e)
perform-rests h n m (detach ctl j) s s' apart at e = ground (arith, e)
perform-rests h n m (del ctl j) s s' apart at e = ground (arith, e)

perform_all-rests :
    (h n m : ℕ) (ops : List Op) (s s' : Handlers)
    → attaches_any h ops ≡ false
    → rests h n m s ≡ true
    → perform_all ops s ≡ some s'
    → rests h n m s' ≡ true
unfolding perform_all attaches_any
perform_all-rests h n m [] s s' apart at e = ground (arith, e, at)
perform_all-rests h n m (op ∷ ops) s s' apart at e = elim (Option-cases (perform op s)) [
  | inl t ↦ ground (arith, e, t)
  | inr ((res, k), t) ↦
      perform_all-rests h n m ops k s' (ground (arith, apart))
        (perform-rests h n m op s k (ground (arith, apart)) at t) (ground (arith, e, t))
]

-- A callback for another handler.
called-rests :
    (h g n m : ℕ) (s : Handlers)
    → rests h n m s ≡ true
    → s.attached g ≡ true
    → rests h n m (record s { called = g ∷ s.called }) ≡ true
unfolding rests times
called-rests h g n m s at on = ground (arith, at, on)

handle_ready-rests :
    (h n m : ℕ) (evs : List Ready) (s s' : Handlers) (nerr : ℕ)
    → attaches_later h evs ≡ false
    → rests h n m s ≡ true
    → handle_ready evs s ≡ some (nerr, s')
    → rests h n m s' ≡ true
unfolding handle_ready attaches_later
handle_ready-rests h n m [] s s' nerr apart at e = ground (arith, e, at)
handle_ready-rests h n m (ev ∷ evs) s s' nerr apart at e = elim (Option-cases ev.handler) [
  | inl t ↦ handle_ready-rests h n m evs s s' nerr (ground (arith, apart)) at (ground (arith, e, t))
  | inr (g, t) ↦ elim (Bool-cases (s.attached g && ev.readable)) [
    | inr u ↦
        handle_ready-rests h n m evs s s' nerr (ground (arith, apart)) at (ground (arith, e, t, u))
    | inl u ↦
        let next : Handlers = record s { called = g ∷ s.called } in
        elim (Option-cases (perform_all ev.ops next)) [
          | inl v ↦ ground (arith, e, t, u, v)
          | inr (k, v) ↦ elim (Option-cases (handle_ready evs k)) [
            | inl w ↦ ground (arith, e, t, u, v, w)
            | inr ((nerr', q), w) ↦
                let last : rests h n m q ≡ true =
                  handle_ready-rests h n m evs k q nerr' (ground (arith, apart))
                    (perform_all-rests h n m ev.ops next k (ground (arith, apart))
                      (called-rests h g n m s at (ground (arith, u))) v)
                    w in
                ground (arith, e, t, u, v, w, last)
          ]
        ]
  ]
]

del-rests :
    {res : Option Errno} (h : ℕ) (s s' : Handlers)
    → perform (del none h) s ≡ some (res, s')
    → rests h (times h s.called) (times h s.freed) s' ≡ true
unfolding times perform detach_io_handler del_io_handler rests
del-rests h s s' e = ground (arith, e)

-- The handlers that wait are freed.
freed-rests :
    (h n m : ℕ) (s : Handlers)
    → rests h n m s ≡ true
    → (times h s.called ≡ n) × (m < times h (s.deleted_handlers ++ s.freed))
unfolding rests
freed-rests h n m s at = ground (arith, at, times-append h s.deleted_handlers s.freed)

-- A callback that runs for an entry of the ready list begins with the deletion of the handler `h`,
-- for which `epoll_ctl` answers no error, and neither it nor a callback behind it attaches `h` again:
-- if no assertion fails, `handle_events` does not call `h` behind that entry, although `h` may be on
-- the rest of the ready list, and frees `h`.
pub handle_events-deleted :
    (h g : ℕ) (fails : Bool) (ops : List Op) (evs : List Ready) (s s' : Handlers) (nerr : ℕ)
    → attaches_any h ops ≡ false
    → attaches_later h evs ≡ false
    → s.attached g ≡ true
    → handle_events
        (record { handler = some g; readable = true; ops = del none h ∷ ops; fails = fails } ∷ evs)
        s
      ≡ some (nerr, s')
    → (times h s'.called ≡ times h (g ∷ s.called)) × (times h s.freed < times h s'.freed)
unfolding handle_events handle_ready perform_all
handle_events-deleted h g fails ops evs s s' nerr apart later on e =
    let next : Handlers = record s { called = g ∷ s.called } in
    elim (Option-cases (perform (del none h) next)) [
      | inl t ↦ ground (arith, e, on, t)
      | inr ((res, j), t) ↦ elim (Option-cases (perform_all ops j)) [
        | inl u ↦ ground (arith, e, on, t, u)
        | inr (k, u) ↦ elim (Option-cases (handle_ready evs k)) [
          | inl v ↦ ground (arith, e, on, t, u, v)
          | inr ((nerr', q), v) ↦
              let n = times h next.called in
              let m = times h s.freed in
              let deleted = del-rests h next j t in
              let last = freed-rests h n m q (
                handle_ready-rests h n m evs k q nerr' later
                  (perform_all-rests h n m ops j k apart deleted u) v) in
              ground (arith, e, on, t, u, v, last)
        ]
      ]
    ]
