-- ===== src/Scheduler/Queue.antt =====
-- What the loop over `m_fibers` of `Scheduler::run` (civan/scheduler.cc) takes from the queue.
use civan.Common.{
  ℕ, List, [], ◌∷◌, ◌++◌, none, some, Bool, true, false, ◌||◌, ◌≡◌, refl, Bool-cases, inl, inr,
  subst,
}
use civan.Common.Outcome.{ok}
use civan.Fiber.State.{Fibers}
use civan.Scheduler.State.{
  FiberAndThread, Search, has_work, is_elsewhere, fiber_runs, passed, find_task,
}

-- An entry that a thread has to leave in the queue.
abbrev pub is_blocked : ℕ → Fibers → FiberAndThread → Bool
is_blocked me fs t = is_elsewhere me t.thread || fiber_runs fs t.fiber

abbrev pub AllBlocked : ℕ → Fibers → List FiberAndThread → Type 0
AllBlocked me fs [] = Unit {0}
AllBlocked me fs (t ∷ q) = (is_blocked me fs t ≡ true) × AllBlocked me fs q

abbrev pub AllWork : List FiberAndThread → Type 0
AllWork [] = Unit {0}
AllWork (t ∷ q) = (has_work t ≡ true) × AllWork q

abbrev pub any_elsewhere : ℕ → List FiberAndThread → Bool
any_elsewhere me [] = false
any_elsewhere me (t ∷ q) = is_elsewhere me t.thread || any_elsewhere me q

-- What is found in a queue, and what is left of it.
pub data Finds (me : ℕ) (fs : Fibers) : List FiberAndThread → Search → Type 0 where
  finds_none :
      (q : List FiberAndThread)
      → AllBlocked me fs q
      → Finds me fs q (record { tickle_me = any_elsewhere me q; found = none; left = q })
  finds :
      (front : List FiberAndThread) (t : FiberAndThread) (back : List FiberAndThread)
      → AllBlocked me fs front
      → is_blocked me fs t ≡ false
      → has_work t ≡ true
      → Finds me fs
          (front ++ t ∷ back)
          (record { tickle_me = any_elsewhere me front; found = some t; left = front ++ back })

passed-Finds :
    (me : ℕ) (fs : Fibers) (t : FiberAndThread) (q : List FiberAndThread) (r : Search)
    → is_blocked me fs t ≡ true
    → Finds me fs q r
    → Finds me fs (t ∷ q) (passed (is_elsewhere me t.thread) t r)
passed-Finds me fs t _ _ h (finds_none q b) = finds_none (t ∷ q) (h, b)
passed-Finds me fs t _ _ h (finds front u back b k w) = finds (t ∷ front) u back (h, b) k w

-- In a queue without empty entries the loop takes the first entry that the thread may run: not one
-- for another thread, and not one whose fiber runs. The others stay in order, and `tickle_me` is set
-- if an entry for another thread was passed. Its assertion holds.
pub find_task-Finds :
    (me : ℕ) (fs : Fibers) (q : List FiberAndThread)
    → AllWork q
    → (r : Search) × (find_task me fs q ≡ ok r) × Finds me fs q r
unfolding find_task
find_task-Finds me fs [] w = (_, refl, finds_none [] tt)
find_task-Finds me fs (t ∷ q) (h, w) =
    let (r, e, found) = find_task-Finds me fs q w in
    elim (Bool-cases (is_elsewhere me t.thread)) [
      | inl k ↦ (
        passed true t r,
        rw (find_task, k, e) refl,
        subst (λ b. Finds me fs (t ∷ q) (passed b t r)) k
            (passed-Finds me fs t q r (rw k refl) found),
      )
      | inr k ↦ elim (Bool-cases (fiber_runs fs t.fiber)) [
        | inl l ↦ (
          passed false t r,
          rw (find_task, k, h, l, e) refl,
          subst (λ b. Finds me fs (t ∷ q) (passed b t r)) k
              (passed-Finds me fs t q r (rw (k, l) refl) found),
        )
        | inr l ↦ (
          record { tickle_me = false; found = some t; left = q },
          rw (find_task, k, h, l) refl,
          finds [] t q tt (rw (k, l) refl) h,
        )
      ]
    ]
