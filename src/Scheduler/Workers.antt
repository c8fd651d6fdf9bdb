-- ===== src/Scheduler/Workers.antt =====
-- What a step of a thread in `Scheduler::run` (civan/scheduler.cc) keeps.
use civan.Common.{
  ℕ, ◌+◌, ◌%◌, ◌^◌, List, [], ◌∷◌, ◌++◌, Option, none, some, true, false, ◌≡◌, refl, arith,
  if_cases,
}
use civan.Common.Outcome.{Outcome, ok, out_of_range, undefined, assert_failed, ◌>>=◌}
use civan.Fiber.State.{State, starting, hold, exec, term, ready, except}
use civan.Scheduler.State.{
  FiberAndThread, Scheduler, Place, looping, searching, unfound, out_of_idle, idle_round, holding,
  in_fiber, in_callback, out_of_fiber, out_of_callback, parting, in_idle, done, Worker, has_work,
  is_elsewhere, check, leave_idle, go_idle, is_stopping,
}
use civan.Scheduler.Queue.{AllWork}

-- Whether a thread is counted in `m_activeThreadCount`, and in `m_idleThreadCount`.
abbrev pub busy : Place → ℕ
busy looping = 0
busy searching = 0
busy unfound = 0
busy (holding t) = 1
busy (in_fiber f) = 1
busy (in_callback f) = 1
busy (out_of_fiber f) = 1
busy (out_of_callback f) = 1
busy (parting f) = 0
busy in_idle = 0
busy out_of_idle = 0
busy done = 0

abbrev pub idles : Place → ℕ
idles looping = 0
idles searching = 0
idles unfound = 0
idles (holding t) = 0
idles (in_fiber f) = 0
idles (in_callback f) = 0
idles (out_of_fiber f) = 0
idles (out_of_callback f) = 0
idles (parting f) = 0
idles in_idle = 1
idles out_of_idle = 1
idles done = 0

-- A thread holds only entries that it may run, and has a fiber for callbacks only while it runs one.
abbrev pub Fits : ℕ → Option ℕ → Place → Type 0
Fits me cb_fiber looping = cb_fiber ≡ none
Fits me cb_fiber searching = cb_fiber ≡ none
Fits me cb_fiber unfound = cb_fiber ≡ none
Fits me cb_fiber (holding t) =
    (is_elsewhere me t.thread ≡ false) × (has_work t ≡ true) × (cb_fiber ≡ none)
Fits me cb_fiber (in_fiber f) = cb_fiber ≡ none
Fits me cb_fiber (in_callback f) = cb_fiber ≡ some f
Fits me cb_fiber (out_of_fiber f) = cb_fiber ≡ none
Fits me cb_fiber (out_of_callback f) = cb_fiber ≡ some f
Fits me cb_fiber (parting f) = cb_fiber ≡ none
Fits me cb_fiber in_idle = cb_fiber ≡ none
Fits me cb_fiber out_of_idle = cb_fiber ≡ none
Fits me cb_fiber done = cb_fiber ≡ none

abbrev pub IsTidy : Worker → Type 0
IsTidy w = Fits w.id w.cb_fiber w.place

-- The counts follow the place of the thread, and the queue has no empty entry.
pub record Kept (w : Worker) (s : Scheduler) (after : Worker × Scheduler) : Type 0 where
  pub same_id : after.0.id ≡ w.id
  pub active_change :
      (after.1.active_thread_count + busy w.place) % 2 ^ 64
      ≡ (s.active_thread_count + busy after.0.place) % 2 ^ 64
  pub idle_change :
      (after.1.idle_thread_count + idles w.place) % 2 ^ 64
      ≡ (s.idle_thread_count + idles after.0.place) % 2 ^ 64
  pub all_work : AllWork after.1.queue
  pub tidy : IsTidy after.0

-- What a call returns, if it does, is in `P`.
abbrev pub Returns {ℓ} : {A : Type ℓ} → (A → Type 0) → Outcome A → Type 0
Returns P (ok a) = P a
Returns P out_of_range = Unit {0}
Returns P undefined = Unit {0}
Returns P assert_failed = Unit {0}

pub Returns->>= {ℓ κ} :
    {A : Type ℓ} {B : Type κ} (P : B → Type 0) (o : Outcome A) (next : A → Outcome B)
    → ((a : A) → o ≡ ok a → Returns P (next a))
    → Returns P (o >>= next)
Returns->>= P (ok a) next h = h a refl
Returns->>= P out_of_range next h = tt
Returns->>= P undefined next h = tt
Returns->>= P assert_failed next h = tt

pub AllWork-snoc :
    (q : List FiberAndThread) (t : FiberAndThread)
    → AllWork q
    → has_work t ≡ true
    → AllWork (q ++ t ∷ [])
AllWork-snoc [] t w h = (h, tt)
AllWork-snoc (u ∷ q) t (k, w) h = (k, AllWork-snoc q t w h)

pub AllWork-without :
    (front : List FiberAndThread) (t : FiberAndThread) (back : List FiberAndThread)
    → AllWork (front ++ t ∷ back)
    → AllWork (front ++ back)
AllWork-without [] t back (h, w) = w
AllWork-without (u ∷ front) t back (h, w) = (h, AllWork-without front t back w)

abbrev pub worker_at : ℕ → State → Option ℕ → Place → Worker
worker_at me idle cb_fiber place = record {
  id = me;
  place = place;
  idle_state = idle;
  cb_fiber = cb_fiber;
}

module _ (me : ℕ) (idle : State) (s : Scheduler) (work : AllWork s.queue) where
  pub check-Kept :
      Returns
        (Kept (worker_at me idle none looping) s)
        (ok (check (worker_at me idle none looping) s))
  unfolding check
  check-Kept =
      if_cases (λ place. Kept (worker_at me idle none looping) s (worker_at me idle none place, s))
        (is_stopping s) done searching
        (λ e. record {
          same_id = refl;
          active_change = refl;
          idle_change = refl;
          all_work = work;
          tidy = refl;
        })
        (λ e. record {
          same_id = refl;
          active_change = refl;
          idle_change = refl;
          all_work = work;
          tidy = refl;
        })

  pub idle_round-Kept :
      Returns
        (Kept (worker_at me idle none in_idle) s)
        (ok (idle_round (worker_at me idle none in_idle) s))
  unfolding idle_round
  idle_round-Kept = record {
    same_id = refl;
    active_change = refl;
    idle_change = refl;
    all_work = work;
    tidy = refl;
  }

  pub leave_idle-Kept :
      Returns
        (Kept (worker_at me idle none out_of_idle) s)
        (ok (leave_idle (worker_at me idle none out_of_idle) s))
  unfolding leave_idle
  leave_idle-Kept = record {
    same_id = refl;
    active_change = refl;
    idle_change = omega arith;
    all_work = work;
    tidy = refl;
  }

-- A thread that goes into its idle fiber, or leaves the loop where that has ended.
module _ (me : ℕ) (s : Scheduler) (work : AllWork s.queue) where
  pub go_idle-Kept :
      (idle' : State)
      → Returns
          (Kept (worker_at me idle' none unfound) s)
          (go_idle (worker_at me idle' none unfound) s)
  unfolding go_idle
  go_idle-Kept exec = tt
  go_idle-Kept term = record {
    same_id = refl;
    active_change = refl;
    idle_change = refl;
    all_work = work;
    tidy = refl;
  }
  go_idle-Kept starting = record {
    same_id = refl;
    active_change = refl;
    idle_change = omega arith;
    all_work = work;
    tidy = refl;
  }
  go_idle-Kept hold = record {
    same_id = refl;
    active_change = refl;
    idle_change = omega arith;
    all_work = work;
    tidy = refl;
  }
  go_idle-Kept ready = record {
    same_id = refl;
    active_change = refl;
    idle_change = omega arith;
    all_work = work;
    tidy = refl;
  }
  go_idle-Kept except = record {
    same_id = refl;
    active_change = refl;
    idle_change = omega arith;
    all_work = work;
    tidy = refl;
  }
