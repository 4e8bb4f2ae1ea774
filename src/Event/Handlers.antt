-- ===== src/Event/Handlers.antt =====
-- The io handlers of an event loop (event.c). A handler is its number. What `epoll_ctl` answers is an
-- argument, and `none` is an assertion that fails. Every call comes from the home event loop, as the
-- code asserts.
use ya_vhost.Prelude.{
  ℕ, suc, ◌-◌, List, [], ◌∷◌, ◌++◌, Option, none, some, Bool, true, false, not, ◌&&◌, ◌==◌,
  if◌then◌else◌,
}
use ya_vhost.Errno.{Errno}

-- `struct vhd_io_handler` by numbers, and `struct vhd_event_loop`: its part that the handlers use, with
-- the handlers that were called and freed, latest first.
pub record Handlers : Type 0 where
  pub attached : ℕ → Bool
  pub deleted_handlers : List ℕ
  pub num_events_attached : ℕ
  pub called : List ℕ
  pub freed : List ℕ

abbrev pub set_attached : ℕ → Bool → Handlers → Handlers
set_attached h b s = record s { attached = λ j. if j == h then b else s.attached j }

-- `vhd_attach_io_handler`
unfoldable pub attach_io_handler :
    (ctl : Option Errno) → ℕ → Handlers → Option (Option Errno × Handlers)
attach_io_handler ctl h s =
    if s.attached h
    then none
    else elim ctl [ some e ↦ some (some e, s) | none ↦ some (none, set_attached h true s) ]

-- `vhd_add_io_handler`, for the handler `h` that it allocates.
unfoldable pub add_io_handler :
    (ctl : Option Errno) → ℕ → Handlers → Option (Option Errno × Handlers)
add_io_handler ctl h s = elim ctl [
  | some e ↦ some (some e, record (set_attached h false s) { freed = h ∷ s.freed })
  | none ↦
      some
        (none, record (set_attached h true s) { num_events_attached = suc s.num_events_attached })
]

-- `vhd_detach_io_handler`
unfoldable pub detach_io_handler : (ctl : Option Errno) → ℕ → Handlers → Option Errno × Handlers
detach_io_handler ctl h s =
    if not (s.attached h)
    then (none, s)
    else elim ctl [ some e ↦ (some e, s) | none ↦ (none, set_attached h false s) ]

-- `vhd_del_io_handler`
unfoldable pub del_io_handler :
    (ctl : Option Errno) → ℕ → Handlers → Option (Option Errno × Handlers)
unfolding detach_io_handler
del_io_handler ctl h s =
    let (res, s') = detach_io_handler ctl h s in
    elim res [
      | some e ↦ some (some e, s')
      | none ↦
          if s'.num_events_attached == 0
          then none
          else some (
            none,
            record s' {
              deleted_handlers = h ∷ s'.deleted_handlers;
              num_events_attached = s'.num_events_attached - 1;
            },
          )
    ]

-- What a callback does with the handlers of its loop.
pub data Op : Type 0 where
  attach add detach del : (ctl : Option Errno) (handler : ℕ) → Op

unfoldable pub perform : Op → Handlers → Option (Option Errno × Handlers)
unfolding attach_io_handler add_io_handler detach_io_handler del_io_handler
perform (attach ctl h) s = attach_io_handler ctl h s
perform (add ctl h) s = add_io_handler ctl h s
perform (detach ctl h) s = some (detach_io_handler ctl h s)
perform (del ctl h) s = del_io_handler ctl h s

unfoldable pub perform_all : List Op → Handlers → Option Handlers
unfolding perform
perform_all [] s = some s
perform_all (op ∷ ops) s = elim (perform op s) [ none ↦ none | some (res, s') ↦ perform_all ops s' ]

-- An entry of the ready list: its handler, which the notifier does not have, whether it asks for the
-- callback, and what the callback does and whether it fails.
pub record Ready : Type 0 where
  pub handler : Option ℕ
  pub readable : Bool
  pub ops : List Op
  pub fails : Bool

-- The loop of `handle_events`, with `handle_one_event`: the errors that it counts.
unfoldable pub handle_ready : List Ready → Handlers → Option (ℕ × Handlers)
unfolding perform_all
handle_ready [] s = some (0, s)
handle_ready (ev ∷ evs) s =
    let skip = handle_ready evs s in
    elim ev.handler [
      | none ↦ skip
      | some h ↦
          if not (s.attached h && ev.readable)
          then skip
          else elim (perform_all ev.ops (record s { called = h ∷ s.called })) [
            | none ↦ none
            | some s' ↦ elim (handle_ready evs s') [
              | none ↦ none
              | some (nerr, s'') ↦ some ((if ev.fails then suc nerr else nerr), s'')
            ]
          ]
    ]

-- `handle_events`: the deleted handlers are freed behind the loop.
unfoldable pub handle_events : List Ready → Handlers → Option (ℕ × Handlers)
unfolding handle_ready
handle_events evs s = elim (handle_ready evs s) [
  | none ↦ none
  | some (nerr, s') ↦
      some (nerr, record s' { deleted_handlers = []; freed = s'.deleted_handlers ++ s'.freed })
]
