-- ===== src/Fiber/State.antt =====
-- `Fiber` of civan/fiber.h and civan/fiber.cc. All fibers are in one list, and a fiber is its place
-- there. The saved registers (`ucontext_t`) are not state here: a switch is where the code calls
-- `swapcontext`, and what a fiber does until it switches back is the `Ending` of its turn. A call-back
-- is a number.
use civan.Common.{
  ℕ, List, [], ◌∷◌, ◌++◌, Option, none, some, Bool, true, false, ◌&&◌, ◌==◌, if◌then◌else◌, length,
  get_elem?, set,
}
use civan.Common.Outcome.{Outcome, ok, undefined, assert_failed, ◌>>=◌}

pub data State : Type 0 where
  starting hold exec term ready except : State

-- `stack` says whether the fiber has a stack of its own.
pub record Fiber : Type 0 where
  pub state : State
  pub cb : Option ℕ
  pub stack : Bool

abbrev pub Fibers : Type 0
Fibers = List Fiber

-- The thread-local `t_fiber` and `t_threadFiber` of civan/fiber.cc, and `t_scheduler_fiber` of
-- civan/scheduler.cc.
pub record Locals : Type 0 where
  pub current : Option ℕ
  pub thread_fiber : Option ℕ
  pub scheduler_fiber : Option ℕ

abbrev pub is_exec : State → Bool
is_exec exec = true
is_exec starting = false
is_exec hold = false
is_exec term = false
is_exec ready = false
is_exec except = false

-- `TERM` or `EXCEPT`.
abbrev pub is_over : State → Bool
is_over term = true
is_over except = true
is_over starting = false
is_over hold = false
is_over exec = false
is_over ready = false

abbrev pub is_ready : State → Bool
is_ready ready = true
is_ready starting = false
is_ready hold = false
is_ready exec = false
is_ready term = false
is_ready except = false

-- `TERM`, `INIT` or `EXCEPT`: what `reset` and the destructor ask for.
abbrev pub is_idle : State → Bool
is_idle starting = true
is_idle term = true
is_idle except = true
is_idle hold = false
is_idle exec = false
is_idle ready = false

-- `Fiber::Fiber(cb)`: the new fiber and its number.
unfoldable pub new_fiber : Option ℕ → Fibers → ℕ × Fibers
new_fiber cb fs = (length fs, fs ++ record { state = starting; cb = cb; stack = true } ∷ [])

-- The private `Fiber::Fiber()` for what the thread runs already. `GetThis` makes it the thread's.
unfoldable pub get_this : Locals → Fibers → ℕ × Locals × Fibers
get_this ls fs = elim ls.current [
  | some f ↦ (f, ls, fs)
  | none ↦ (
    length fs,
    record ls { current = some (length fs); thread_fiber = some (length fs) },
    fs ++ record { state = exec; cb = none; stack = false } ∷ [],
  )
]

unfoldable pub set_state : ℕ → State → Fibers → Outcome Fibers
set_state f state fs = elim (get_elem? fs f) [
  | some fiber ↦ ok (set fs f (record fiber { state = state }))
  | none ↦ undefined
]

unfoldable pub reset : ℕ → Option ℕ → Fibers → Outcome Fibers
reset f cb fs = elim (get_elem? fs f) [
  | some fiber ↦
      if fiber.stack && is_idle fiber.state
      then ok (set fs f (record fiber { state = starting; cb = cb }))
      else assert_failed
  | none ↦ undefined
]

-- The destructor's assertions. With a stack the fiber must have ended or not have begun; without one
-- it must be the fiber of a thread that is running.
unfoldable pub destroy : ℕ → Locals → Fibers → Outcome Locals
destroy f ls fs = elim (get_elem? fs f) [
  | some fiber ↦
      if fiber.stack
      then (if is_idle fiber.state then ok ls else assert_failed)
      else elim fiber.cb [
        | some cb ↦ assert_failed
        | none ↦
            if is_exec fiber.state
            then ok (elim ls.current [
              | some cur ↦ if cur == f then record ls { current = none } else ls
              | none ↦ ls
            ])
            else assert_failed
      ]
  | none ↦ undefined
]

-- The state that `swapIn` sets, with its assertion.
unfoldable pub enter : ℕ → Fibers → Outcome Fibers
unfolding set_state
enter f fs = elim (get_elem? fs f) [
  | some fiber ↦ if is_exec fiber.state then assert_failed else set_state f exec fs
  | none ↦ undefined
]

-- `swapIn` and `swapOut` switch with the fiber of the scheduler, so that it must be there.
unfoldable pub swap_in : ℕ → Locals → Fibers → Outcome (Locals × Fibers)
unfolding enter
swap_in f ls fs = enter f fs >>= λ fs'. elim ls.scheduler_fiber [
  | some main ↦ ok (record ls { current = some f }, fs')
  | none ↦ undefined
]

unfoldable pub swap_out : Locals → Outcome Locals
swap_out ls = elim ls.scheduler_fiber [
  | some main ↦ ok (record ls { current = some main })
  | none ↦ undefined
]

-- `call` and `back` switch with the fiber of the thread.
unfoldable pub call : ℕ → Locals → Fibers → Outcome (Locals × Fibers)
unfolding get_this set_state
call f ls fs =
    let (cur, ls', fs') = get_this ls fs in
    elim ls'.thread_fiber [
      | some main ↦
          if cur == main
          then (set_state f exec fs' >>= λ fs''. ok (record ls' { current = some f }, fs''))
          else assert_failed
      | none ↦ assert_failed
    ]

unfoldable pub back : Locals → Outcome Locals
back ls = elim ls.thread_fiber [
  | some main ↦ ok (record ls { current = some main })
  | none ↦ undefined
]

-- How a turn of a fiber ends: it yields, its callback returns, or the callback throws.
pub data Ending : Type 0 where
  yields_ready yields_hold returns throws : Ending

-- `YieldToReady`, `YieldToHold` and the ends of `MainFunc`, up to their `swapOut`: the state that each
-- gives the fiber that runs. Only a callback that returns is dropped.
unfoldable pub finish_turn : Ending → ℕ → Fibers → Outcome Fibers
unfolding set_state
finish_turn yields_ready f fs = set_state f ready fs
finish_turn yields_hold f fs = set_state f hold fs
finish_turn throws f fs = set_state f except fs
finish_turn returns f fs = elim (get_elem? fs f) [
  | some fiber ↦ ok (set fs f (record fiber { state = term; cb = none }))
  | none ↦ undefined
]

-- The same with the switch back: the end of a turn of the fiber that the thread runs.
unfoldable pub end_turn : Ending → Locals → Fibers → Outcome (Locals × Fibers)
unfolding get_this finish_turn swap_out
end_turn ending ls fs =
    let (cur, ls', fs') = get_this ls fs in
    finish_turn ending cur fs' >>= λ fs''. swap_out ls' >>= λ ls''. ok (ls'', fs'')
