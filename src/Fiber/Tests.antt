-- ===== src/Fiber/Tests.antt =====
-- A turn of a fiber of civan/fiber.cc.
use civan.Common.{[], ◌∷◌, none, some, true, false, ◌≡◌, refl}
use civan.Common.Outcome.{ok, assert_failed, ◌>>=◌}
use civan.Fiber.State.{
  Fibers, Locals, starting, exec, term, swap_in, end_turn, returns, enter, destroy,
}
use civan.Fiber.Switch.{end_turn-swap_in}

abbrev two_fibers : Fibers
two_fibers =
    record { state = exec; cb = none; stack = false }
    ∷ record { state = starting; cb = some 7; stack = true }
    ∷ []

abbrev in_main : Locals
in_main = record { current = some 0; thread_fiber = some 0; scheduler_fiber = some 0 }

enter_running : enter 0 two_fibers ≡ assert_failed
unfolding enter
enter_running = refl

destroy_run : destroy 1 in_main two_fibers ≡ ok in_main
unfolding destroy
destroy_run = refl

end_turn-swap_in_example :
    (swap_in 1 in_main two_fibers >>= λ turn. end_turn returns turn.0 turn.1)
    ≡ ok (
      in_main,
      record { state = exec; cb = none; stack = false }
          ∷ record { state = term; cb = none; stack = true }
          ∷ [],
    )
end_turn-swap_in_example =
    end_turn-swap_in returns 1 0 (record { state = starting; cb = some 7; stack = true }) in_main
      two_fibers refl refl refl
