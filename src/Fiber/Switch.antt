-- ===== src/Fiber/Switch.antt =====
-- A turn of a fiber of civan/fiber.cc, from `swapIn` until it is switched out.
use civan.Common.{
  ℕ, [], ◌∷◌, ◌++◌, Option, none, some, false, ◌≡◌, refl, ap, length, get_elem?, set,
  get_elem?-set_self, get_elem?-lt, set-set,
}
use civan.Common.Outcome.{Outcome, ok, undefined, ◌>>=◌}
use civan.Fiber.State.{
  State, hold, exec, term, ready, except, Fiber, Fibers, Locals, is_exec, set_state, enter, swap_in,
  swap_out, Ending, yields_ready, yields_hold, returns, throws, finish_turn, end_turn, get_this,
}

-- What an ending leaves of a fiber.
abbrev pub ended : Ending → Fiber → Fiber
ended yields_ready fiber = record fiber { state = ready }
ended yields_hold fiber = record fiber { state = hold }
ended throws fiber = record fiber { state = except }
ended returns fiber = record fiber { state = term; cb = none }

set_state_lem :
    (f : ℕ) (state : State) (fiber : Fiber) (fs : Fibers)
    → get_elem? fs f ≡ some fiber
    → set_state f state fs ≡ ok (set fs f (record fiber { state = state }))
unfolding set_state
set_state_lem f state fiber fs h = rw (set_state, h) refl

pub enter_lem :
    (f : ℕ) (fiber : Fiber) (fs : Fibers)
    → get_elem? fs f ≡ some fiber
    → is_exec fiber.state ≡ false
    → enter f fs ≡ ok (set fs f (record fiber { state = exec }))
unfolding enter
enter_lem f fiber fs h k = rw (enter, h, k) (set_state_lem f exec fiber fs h)

pub finish_turn_lem :
    (ending : Ending) (f : ℕ) (fiber : Fiber) (fs : Fibers)
    → get_elem? fs f ≡ some fiber
    → finish_turn ending f fs ≡ ok (set fs f (ended ending fiber))
unfolding finish_turn
finish_turn_lem yields_ready f fiber fs h = set_state_lem f ready fiber fs h
finish_turn_lem yields_hold f fiber fs h = set_state_lem f hold fiber fs h
finish_turn_lem throws f fiber fs h = set_state_lem f except fiber fs h
finish_turn_lem returns f fiber fs h = rw (finish_turn, h) refl

ended_exec :
    (ending : Ending) (fiber : Fiber)
    → ended ending (record fiber { state = exec }) ≡ ended ending fiber
ended_exec yields_ready fiber = refl
ended_exec yields_hold fiber = refl
ended_exec throws fiber = refl
ended_exec returns fiber = refl

get_this_lem :
    (f : ℕ) (ls : Locals) (fs : Fibers) → ls.current ≡ some f → get_this ls fs ≡ (f, ls, fs)
unfolding get_this
get_this_lem f ls fs c =
    ap
      (λ cur. elim cur as (λ x. ℕ × Locals × Fibers) [
        | some g ↦ (g, ls, fs)
        | none ↦ (
          length fs,
          record ls { current = some (length fs); thread_fiber = some (length fs) },
          fs ++ record { state = exec; cb = none; stack = false } ∷ [],
        )
      ])
      c

-- A switch with the fiber of the scheduler, if there is one.
with_main {ℓ} : {A : Type ℓ} (main : Option ℕ) (next : ℕ → A) → Outcome A
with_main main next = elim main [ some g ↦ ok (next g) | none ↦ undefined ]

swap_out_lem :
    (main : ℕ) (ls : Locals)
    → ls.scheduler_fiber ≡ some main
    → swap_out ls ≡ ok (record ls { current = some main })
unfolding swap_out with_main
swap_out_lem main ls m = ap (λ o. with_main o (λ g. record ls { current = some g })) m

swap_in_lem :
    (f main : ℕ) (ls : Locals) (fs fs' : Fibers)
    → enter f fs ≡ ok fs'
    → ls.scheduler_fiber ≡ some main
    → swap_in f ls fs ≡ ok (record ls { current = some f }, fs')
unfolding swap_in with_main
swap_in_lem f main ls fs fs' e m =
    rw (swap_in, e) (ap (λ o. with_main o (λ g. (record ls { current = some f }, fs'))) m)

end_turn_lem :
    (ending : Ending) (f main : ℕ) (fiber : Fiber) (ls : Locals) (fs : Fibers)
    → get_elem? fs f ≡ some fiber
    → ls.current ≡ some f
    → ls.scheduler_fiber ≡ some main
    → end_turn ending ls fs ≡ ok (record ls { current = some main }, set fs f (ended ending fiber))
unfolding end_turn get_this swap_out
end_turn_lem ending f main fiber ls fs h c m =
    rw
      (
        end_turn,
        get_this_lem f ls fs c,
        finish_turn_lem ending f fiber fs h,
        swap_out_lem main ls m,
      )
      refl

-- A fiber that does not run can be switched in. When its turn ends the thread is at the fiber of its
-- scheduler again, the fiber has the state that its ending gives it and has lost its callback if that
-- returned, and no other fiber has changed.
pub end_turn-swap_in :
    (ending : Ending) (f main : ℕ) (fiber : Fiber) (ls : Locals) (fs : Fibers)
    → get_elem? fs f ≡ some fiber
    → is_exec fiber.state ≡ false
    → ls.scheduler_fiber ≡ some main
    → (swap_in f ls fs >>= λ turn. end_turn ending turn.0 turn.1)
      ≡ ok (record ls { current = some main }, set fs f (ended ending fiber))
end_turn-swap_in ending f main fiber ls fs h k m =
    rw
      (
        swap_in_lem f main ls fs (set fs f (record fiber { state = exec }))
            (enter_lem f fiber fs h k) m,
        end_turn_lem ending f main (record fiber { state = exec }) (record ls { current = some f })
            (set fs f (record fiber { state = exec }))
            (get_elem?-set_self fs f (record fiber { state = exec }) (get_elem?-lt fs f h)) refl m,
        ended_exec ending fiber,
        set-set fs f (record fiber { state = exec }) (ended ending fiber),
      )
      refl
