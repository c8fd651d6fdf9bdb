-- ===== src/Scheduler/Steps.antt =====
-- Every step of a thread in `Scheduler::run` (civan/scheduler.cc) keeps the counts, the queue and what
-- the thread holds in order.
use civan.Common.{
  ℕ, List, Option, none, some, Bool, true, false, ◌||◌, ◌≡◌, refl, sym, arith, subst, if_both,
  get_elem?,
}
use civan.Common.Outcome.{Outcome, ok, undefined, ◌>>=◌}
use civan.Fiber.State.{
  State, hold, Ending, is_ready, is_over, set_state, finish_turn, enter, new_fiber,
}
use civan.Scheduler.State.{
  FiberAndThread, Scheduler, Search, Place, looping, searching, unfound, out_of_idle, holding,
  in_fiber, in_callback, out_of_fiber, out_of_callback, parting, in_idle, done, Worker,
  is_elsewhere, act, search, run_task, count_down, settle, start_callback, schedule, take_found,
  settle_state, run_branch, fiber_runs, can_resume, fiber_for,
}
use civan.Scheduler.Queue.{AllWork, Finds, finds, finds_none, find_task-Finds}
use civan.Scheduler.Workers.{
  Kept, Returns, Returns->>=, worker_at, check-Kept, idle_round-Kept, leave_idle-Kept, go_idle-Kept,
  AllWork-snoc, AllWork-without, IsTidy, busy, idles,
}

not_elsewhere : (a b : Bool) → (a || b) ≡ false → a ≡ false
not_elsewhere false b h = refl
not_elsewhere true b h = cc

module _ (me : ℕ) (idle : State) (s : Scheduler) where
  take_found-Kept :
      (q : List FiberAndThread) (r : Search)
      → Finds me s.fibers q r
      → AllWork q
      → Returns
          (Kept (worker_at me idle none searching) s)
          (take_found (worker_at me idle none searching) s r)
  unfolding take_found
  take_found-Kept _ _ (finds_none q b) w = record {
    same_id = refl;
    active_change = refl;
    idle_change = refl;
    all_work = w;
    tidy = refl;
  }
  take_found-Kept _ _ (finds front t back b k h) w = record {
    same_id = refl;
    active_change = omega arith;
    idle_change = refl;
    all_work = AllWork-without front t back w;
    tidy = (not_elsewhere (is_elsewhere me t.thread) (fiber_runs s.fibers t.fiber) k, h, refl);
  }

  search-Kept :
      AllWork s.queue
      → Returns
          (Kept (worker_at me idle none searching) s)
          (search (worker_at me idle none searching) s)
  unfolding search
  search-Kept w =
      let (r, e, found) = find_task-Finds me s.fibers s.queue w in
      subst
        (λ o.
          Returns (Kept (worker_at me idle none searching) s)
            (o >>= take_found (worker_at me idle none searching) s))
        (sym e) (take_found-Kept s.queue r found w)

  -- `place` is where the thread comes from: behind a fiber or a callback.
  count_down-Kept :
      (f : ℕ) (place : Place) (cb : Option ℕ)
      → AllWork s.queue
      → busy place ≡ 1
      → idles place ≡ 0
      → Kept (worker_at me idle cb place) s (count_down f (worker_at me idle cb place) s)
  unfolding count_down
  count_down-Kept f place cb w b i = record {
    same_id = refl;
    active_change = omega (arith, b);
    idle_change = omega (arith, i);
    all_work = w;
    tidy = refl;
  }

  settle_state-Kept :
      (f : ℕ) (state : State)
      → AllWork s.queue
      → Returns
          (Kept (worker_at me idle none (parting f)) s)
          (settle_state f state (worker_at me idle none (parting f)) s)
  unfolding settle_state schedule
  settle_state-Kept f state w =
      if_both (Returns (Kept (worker_at me idle none (parting f)) s)) (is_ready state) _ _
        record {
          same_id = refl;
          active_change = refl;
          idle_change = refl;
          all_work =
              AllWork-snoc s.queue (record { fiber = some f; cb = none; thread = none }) w refl;
          tidy = refl;
        }
        (if_both (Returns (Kept (worker_at me idle none (parting f)) s)) (is_over state) _ _
          record {
            same_id = refl;
            active_change = refl;
            idle_change = refl;
            all_work = w;
            tidy = refl;
          }
          (Returns->>= (Kept (worker_at me idle none (parting f)) s) (set_state f hold s.fibers) _
            (λ fs e. record {
              same_id = refl;
              active_change = refl;
              idle_change = refl;
              all_work = w;
              tidy = refl;
            })))

  settle-Kept :
      (f : ℕ)
      → AllWork s.queue
      → Returns
          (Kept (worker_at me idle none (parting f)) s)
          (settle f (worker_at me idle none (parting f)) s)
  unfolding settle
  settle-Kept f w =
      elim (get_elem? s.fibers f)
        as (λ o.
          Returns (Kept (worker_at me idle none (parting f)) s)
            (elim o as (λ x. Outcome (Worker × Scheduler)) [
              | none ↦ undefined
              | some fiber ↦ settle_state f fiber.state (worker_at me idle none (parting f)) s
            ])) [ none ↦ tt | some fiber ↦ settle_state-Kept f fiber.state w ]

  run_branch-Kept :
      (t : FiberAndThread) (fiber cb : Option ℕ)
      → AllWork s.queue
      → Returns
          (Kept (worker_at me idle none (holding t)) s)
          (run_branch fiber cb (worker_at me idle none (holding t)) s)
  unfolding run_branch start_callback fiber_for
  run_branch-Kept t (some f) cb w =
      Returns->>= (Kept (worker_at me idle none (holding t)) s) (enter f s.fibers) _ (λ fs e.
        record {
          same_id = refl;
          active_change = refl;
          idle_change = refl;
          all_work = w;
          tidy = refl;
        })
  run_branch-Kept t none (some c) w =
      Returns->>= (Kept (worker_at me idle none (holding t)) s)
        (enter (new_fiber (some c) s.fibers).0 (new_fiber (some c) s.fibers).1) _
        (λ fs e. record {
          same_id = refl;
          active_change = refl;
          idle_change = refl;
          all_work = w;
          tidy = refl;
        })
  run_branch-Kept t none none w = record {
    same_id = refl;
    active_change = omega arith;
    idle_change = refl;
    all_work = w;
    tidy = refl;
  }

  run_task-Kept :
      (t : FiberAndThread)
      → AllWork s.queue
      → Returns
          (Kept (worker_at me idle none (holding t)) s)
          (run_task t (worker_at me idle none (holding t)) s)
  unfolding run_task
  run_task-Kept t w = run_branch-Kept t (can_resume s.fibers t.fiber) t.cb w

  turn-Kept :
      (ending : Ending) (f : ℕ) (cb : Option ℕ) (place place' : Place)
      → AllWork s.queue
      → busy place ≡ busy place'
      → idles place ≡ idles place'
      → IsTidy (worker_at me idle cb place')
      → Returns (Kept (worker_at me idle cb place) s) (
          finish_turn ending f s.fibers >>= λ fs.
          ok (worker_at me idle cb place', record s { fibers = fs }))
  turn-Kept ending f cb place place' w b i tidy =
      Returns->>= (Kept (worker_at me idle cb place) s) (finish_turn ending f s.fibers) _ (λ fs e.
        record {
          same_id = refl;
          active_change = omega (arith, b);
          idle_change = omega (arith, i);
          all_work = w;
          tidy = tidy;
        })

act_at :
    (ending : Ending) (me : ℕ) (idle : State) (cb : Option ℕ) (place : Place) (s : Scheduler)
    → AllWork s.queue
    → IsTidy (worker_at me idle cb place)
    → Returns (Kept (worker_at me idle cb place) s) (act ending (worker_at me idle cb place) s)
unfolding act
act_at ending me idle none looping s work tidy = check-Kept me idle s work
act_at ending me idle (some g) looping s work tidy = absurd cc
act_at ending me idle none searching s work tidy = search-Kept me idle s work
act_at ending me idle (some g) searching s work tidy = absurd cc
act_at ending me idle none (holding t) s work tidy = run_task-Kept me idle s t work
act_at ending me idle (some g) (holding t) s work (a, b, c) = absurd cc
act_at ending me idle none (in_fiber f) s work tidy =
    turn-Kept me idle s ending f none (in_fiber f) (out_of_fiber f) work refl refl refl
act_at ending me idle (some g) (in_fiber f) s work tidy = absurd cc
act_at ending me idle none (out_of_fiber f) s work tidy =
    count_down-Kept me idle s f (out_of_fiber f) none work refl refl
act_at ending me idle (some g) (out_of_fiber f) s work tidy = absurd cc
act_at ending me idle none in_idle s work tidy = idle_round-Kept me idle s work
act_at ending me idle none out_of_idle s work tidy = leave_idle-Kept me idle s work
act_at ending me idle (some g) out_of_idle s work tidy = absurd cc
act_at ending me idle none unfound s work tidy = go_idle-Kept me s work idle
act_at ending me idle (some g) unfound s work tidy = absurd cc
act_at ending me idle (some g) in_idle s work tidy = absurd cc
act_at ending me idle none done s work tidy = record {
  same_id = refl;
  active_change = refl;
  idle_change = refl;
  all_work = work;
  tidy = refl;
}
act_at ending me idle (some g) done s work tidy = absurd cc
act_at ending me idle cb (in_callback f) s work tidy =
    turn-Kept me idle s ending f cb (in_callback f) (out_of_callback f) work refl refl tidy
act_at ending me idle cb (out_of_callback f) s work tidy =
    count_down-Kept me idle s f (out_of_callback f) cb work refl refl
act_at ending me idle none (parting f) s work tidy = settle-Kept me idle s f work
act_at ending me idle (some g) (parting f) s work tidy = absurd cc

-- A step of a thread that is in order keeps the counts in step with the place of the thread, the queue
-- without empty entries, and the thread in order.
pub act-Kept :
    (ending : Ending) (w : Worker) (s : Scheduler)
    → AllWork s.queue
    → IsTidy w
    → Returns (Kept w s) (act ending w s)
unfolding act
act-Kept ending w s work tidy = act_at ending w.id w.idle_state w.cb_fiber w.place s work tidy
