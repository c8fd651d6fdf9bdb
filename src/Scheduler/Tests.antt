-- ===== src/Scheduler/Tests.antt =====
-- Runs of `Scheduler` (civan/scheduler.cc).
use civan.Common.{[], ◌∷◌, none, some, true, false, ◌≡◌, refl, arith}
use civan.Common.Outcome.{ok, ◌>>=◌}
use civan.Fiber.State.{
  State, Fibers, Ending, starting, exec, ready, hold, yields_ready, yields_hold, returns,
}
use civan.Scheduler.State.{
  FiberAndThread, Scheduler, Search, Place, looping, searching, holding, in_fiber, out_of_fiber,
  parting, new_worker, schedule, stop, act, is_stopping, find_task,
}
use civan.Scheduler.Queue.{Finds, find_task-Finds}
use civan.Scheduler.System.{
  System, new_system, Reached, made, after, scheduled, stopped, acted, entered,
}
use civan.Scheduler.Invariant.{IsCounted}
use civan.Scheduler.Stopping.{AllAtRest, Reached-IsCounted, is_stopping-AllAtRest}

abbrev one_fiber : Fibers
one_fiber = record { state = starting; cb = some 7; stack = true } ∷ []

abbrev pinned : FiberAndThread
pinned = record { fiber = some 0; cb = none; thread = some 5 }

abbrev free : FiberAndThread
free = record { fiber = none; cb = some 9; thread = none }

find_task_run :
    find_task 4 one_fiber (pinned ∷ free ∷ [])
    ≡ ok record { tickle_me = true; found = some free; left = pinned ∷ [] }
unfolding find_task
find_task_run = refl

find_task-Finds_example :
    (r : Search) × (find_task 4 one_fiber (pinned ∷ free ∷ []) ≡ ok r)
    × Finds 4 one_fiber (pinned ∷ free ∷ []) r
find_task-Finds_example = find_task-Finds 4 one_fiber (pinned ∷ free ∷ []) (refl, (refl, tt))

-- One fiber, twice in the queue. A thread that takes it between its `YieldToHold` and the end of the
-- `swapIn` of the first thread runs it, and then the first thread marks it as `HOLD`.
abbrev twice : Scheduler
twice = record {
  queue =
      record { fiber = some 0; cb = none; thread = none }
      ∷ record { fiber = some 0; cb = none; thread = none }
      ∷ [];
  fibers = one_fiber;
  active_thread_count = 0;
  idle_thread_count = 0;
  stopping = false;
  auto_stops = false;
  tickles = 0;
}

hold_while_running :
    (act returns (new_worker 1) twice >>= λ a. act returns a.0 a.1 >>= λ b.
    act returns b.0 b.1 >>= λ c. act yields_hold c.0 c.1 >>= λ first.
    act returns (new_worker 2) first.1 >>= λ d. act returns d.0 d.1 >>= λ e.
    act returns e.0 e.1 >>= λ second. act returns first.0 second.1 >>= λ f.
    act returns f.0 f.1 >>= λ end.
    let seen : Place × Fibers = (second.0.place, end.1.fibers) in ok seen)
    ≡ ok (in_fiber 0, record { state = hold; cb = some 7; stack = true } ∷ [])
unfolding act new_worker
hold_while_running = refl

-- One thread, with fiber 0 in the queue.
abbrev one_thread : Scheduler → Place → System
one_thread scheduler place = record {
  scheduler = scheduler;
  workers = record (new_worker 4) { place = place } ∷ [];
  threads = [];
}

abbrev fiber_entry : FiberAndThread
fiber_entry = record { fiber = some 0; cb = none; thread = none }

abbrev with_entry : Scheduler
with_entry = schedule fiber_entry (new_system one_fiber).scheduler

abbrev taken : Scheduler
taken = record with_entry { queue = []; active_thread_count = 1 }

abbrev state_of_fiber : State → Scheduler → Scheduler
state_of_fiber state s = record s {
  fibers = record { state = state; cb = some 7; stack = true } ∷ [];
}

abbrev counted_down : Scheduler
counted_down = stop 1 none (state_of_fiber ready (record taken { active_thread_count = 0 }))

step_of :
    (ending : Ending) (place place' : Place) (s s' : Scheduler)
    → act ending (record (new_worker 4) { place = place }) s
      ≡ ok (record (new_worker 4) { place = place' }, s')
    → Reached (one_thread s place)
    → Reached (one_thread s' place')
step_of ending place place' s s' e r = after (one_thread s place) (one_thread s' place') r (
    acted ending 0 (record (new_worker 4) { place = place })
      (record (new_worker 4) { place = place' }) s' (one_thread s place) refl e)

entered-Reached : Reached (one_thread with_entry looping)
unfolding new_system new_worker
entered-Reached =
    let s0 = new_system one_fiber in
    let s1 = record s0 { scheduler = with_entry } in
    after s1 (one_thread with_entry looping)
      (after s0 s1 (made one_fiber) (scheduled fiber_entry s0)) (entered 4 s1)

taken-Reached : Reached (one_thread taken (holding fiber_entry))
unfolding act new_worker schedule new_system
taken-Reached =
    step_of returns searching (holding fiber_entry) with_entry taken refl
      (step_of returns looping searching with_entry with_entry refl entered-Reached)

Reached-IsCounted_example : IsCounted (one_thread taken (holding fiber_entry))
Reached-IsCounted_example = Reached-IsCounted (one_thread taken (holding fiber_entry)) taken-Reached

-- The fiber has yielded as READY, the thread has counted it down and has not yet put it back, and
-- another thread has stopped the scheduler: `stopping()` is true.
counted_down-Reached : Reached (one_thread counted_down (parting 0))
unfolding act new_worker schedule new_system stop
counted_down-Reached =
    let running = state_of_fiber exec taken in
    let yielded = state_of_fiber ready taken in
    let counted = record yielded { active_thread_count = 0 } in
    after (one_thread counted (parting 0)) (one_thread counted_down (parting 0))
      (step_of returns (out_of_fiber 0) (parting 0) yielded counted refl (
        step_of yields_ready (in_fiber 0) (out_of_fiber 0) running yielded refl
          (step_of returns (holding fiber_entry) (in_fiber 0) taken running refl taken-Reached)))
      (stopped 1 none (one_thread counted (parting 0)))

is_stopping-AllAtRest_example :
    (counted_down.queue ≡ [])
    × AllAtRest (one_thread counted_down (parting 0)).workers
    × (counted_down.stopping ≡ true)
unfolding new_system stop is_stopping schedule
is_stopping-AllAtRest_example =
    is_stopping-AllAtRest (one_thread counted_down (parting 0)) counted_down-Reached (omega arith)
      refl
