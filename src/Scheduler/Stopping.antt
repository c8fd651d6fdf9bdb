-- ===== src/Scheduler/Stopping.antt =====
-- The invariant of every `Scheduler` of civan/scheduler.cc, and what it means for `stopping()`.
use civan.Common.{
  ℕ, ◌^◌, ◌<◌, ◌≤◌, List, [], ◌∷◌, ◌++◌, Option, Bool, true, false, ◌&&◌, ◌==◌, ◌≡◌, refl, sym, map,
  length, arith, subst, if_both,
}
use civan.Common.Outcome.{Outcome, ok, assert_failed}
use civan.Fiber.State.{State}
use civan.Scheduler.State.{
  is_root_ready, FiberAndThread, Scheduler, Worker, Place, new_worker, schedule, schedule_all, stop,
  is_stopping, is_empty, tickle_if, schedule_no_lock, schedule_loop, looping, searching, unfound,
  out_of_idle, holding, in_fiber, in_callback, out_of_fiber, out_of_callback, parting, in_idle,
  done,
}
use civan.Scheduler.Queue.{AllWork}
use civan.Scheduler.Workers.{busy, Kept, Returns}
use civan.Scheduler.Steps.{act-Kept}
use civan.Scheduler.System.{
  System, new_system, start, Step, scheduled, scheduled_all, stopped, started, entered, acted,
  Reached, made, after,
}
use civan.Scheduler.Invariant.{
  count, IsCounted, Queues, schedule_no_lock-Queues, schedule_loop-Queues, Queues-IsCounted,
  join-IsCounted, act-IsCounted, AllTidy-get,
}

same-Queues :
    (s s' : Scheduler)
    → s'.active_thread_count ≡ s.active_thread_count
    → s'.idle_thread_count ≡ s.idle_thread_count
    → s'.queue ≡ s.queue
    → Queues s s'
same-Queues s s' a i q = record {
  same_active = a;
  same_idle = i;
  keeps_work = λ w. subst AllWork (sym q) w;
}

start-IsCounted : (ids : List ℕ) (sys : System) → IsCounted sys → Returns IsCounted (start ids sys)
unfolding start
start-IsCounted ids sys v =
    if_both (Returns IsCounted) sys.scheduler.stopping _ (ok sys)
      (elim sys.threads
        as (λ threads. Returns IsCounted (elim threads as (λ x. Outcome System) [
          | [] ↦ ok record {
            scheduler = record sys.scheduler { stopping = false };
            workers = sys.workers ++ map new_worker ids;
            threads = ids;
          }
          | t ∷ ts ↦ assert_failed
        ])) [
          | [] ↦
              join-IsCounted ids ids sys (record sys.scheduler { stopping = false })
                (same-Queues sys.scheduler (record sys.scheduler { stopping = false }) refl refl
                  refl)
                v
          | t ∷ ts ↦ tt
        ])
      v

tickle_if-Queues : (need : Bool) (s s' : Scheduler) → Queues s s' → Queues s (tickle_if need s')
tickle_if-Queues need s s' q = record {
  same_active = q.same_active;
  same_idle = q.same_idle;
  keeps_work = q.keeps_work;
}

stop-Queues : (threads : ℕ) (root : Option State) (s : Scheduler) → Queues s (stop threads root s)
unfolding stop
stop-Queues threads root s =
    let s' = record s { auto_stops = true; stopping = true } in
    if_both (Queues s) (is_root_ready root && threads == 0 && is_stopping s') s' _
      (same-Queues s s' refl refl refl)
      record { same_active = refl; same_idle = refl; keeps_work = λ w. w }

Step-IsCounted : (sys sys' : System) → Step sys sys' → IsCounted sys → IsCounted sys'
unfolding schedule schedule_no_lock schedule_all
Step-IsCounted _ _ (scheduled t sys) v =
    Queues-IsCounted sys (schedule t sys.scheduler)
      (tickle_if-Queues (is_empty sys.scheduler.queue) sys.scheduler
        (schedule_no_lock t sys.scheduler).1 (schedule_no_lock-Queues t sys.scheduler))
      v
Step-IsCounted _ _ (scheduled_all ts sys) v =
    Queues-IsCounted sys (schedule_all ts sys.scheduler)
      (tickle_if-Queues (schedule_loop ts false sys.scheduler).0 sys.scheduler
        (schedule_loop ts false sys.scheduler).1 (schedule_loop-Queues ts false sys.scheduler))
      v
Step-IsCounted _ _ (stopped threads root sys) v =
    Queues-IsCounted sys (stop threads root sys.scheduler) (stop-Queues threads root sys.scheduler)
      v
Step-IsCounted _ _ (started ids sys sys' e) v =
    subst (Returns IsCounted) e (start-IsCounted ids sys v)
Step-IsCounted _ _ (entered id sys) v =
    join-IsCounted (id ∷ []) sys.threads sys sys.scheduler
      (same-Queues sys.scheduler sys.scheduler refl refl refl) v
Step-IsCounted _ _ (acted ending i w w' s' sys h e) v =
    act-IsCounted i w w' s' sys h
      (subst (Returns (Kept w sys.scheduler)) e
        (act-Kept ending w sys.scheduler v.work (AllTidy-get sys.workers i w h v.tidy)))
      v

-- Whatever is called and whatever the threads do, in any order: the two counts are the numbers of
-- threads that have taken an entry and whose turn with it has not been counted down, and of threads
-- that have gone to their idle fiber and have not been counted down (modulo 2 ^ 64), the queue has no empty entry, and a thread holds no
-- entry that is for another thread.
pub Reached-IsCounted : (sys : System) → Reached sys → IsCounted sys
unfolding new_system
Reached-IsCounted _ (made fs) = record { active = refl; idle = refl; work = tt; tidy = tt }
Reached-IsCounted _ (after sys sys' reached step) =
    Step-IsCounted sys sys' step (Reached-IsCounted sys reached)

-- No thread has an entry that it has taken and not counted down.
abbrev pub AllAtRest : List Worker → Type 0
AllAtRest [] = Unit {0}
AllAtRest (w ∷ ws) = (busy w.place ≡ 0) × AllAtRest ws

busy_le : (place : Place) → busy place ≤ 1
busy_le looping = omega arith
busy_le searching = omega arith
busy_le unfound = omega arith
busy_le (holding t) = omega arith
busy_le (in_fiber f) = omega arith
busy_le (in_callback f) = omega arith
busy_le (out_of_fiber f) = omega arith
busy_le (out_of_callback f) = omega arith
busy_le (parting f) = omega arith
busy_le in_idle = omega arith
busy_le out_of_idle = omega arith
busy_le done = omega arith

count_le : (ws : List Worker) → count busy ws ≤ length ws
count_le [] = omega arith
count_le (w ∷ ws) = omega (arith, busy_le w.place, count_le ws)

count-AllAtRest : (ws : List Worker) → count busy ws ≡ 0 → AllAtRest ws
count-AllAtRest [] h = tt
count-AllAtRest (w ∷ ws) h = (omega (arith, h), count-AllAtRest ws (omega (arith, h)))

stopping_parts :
    (a b c d : Bool) → (a && b && c && d) ≡ true → (a ≡ true) × (b ≡ true) × (c ≡ true) × (d ≡ true)
stopping_parts true true true d h = (refl, refl, refl, h)
stopping_parts true true false d h = cc
stopping_parts true false c d h = cc
stopping_parts false b c d h = cc

empty_queue : (q : List FiberAndThread) → is_empty q ≡ true → q ≡ []
empty_queue [] h = refl
empty_queue (t ∷ q) h = cc

-- Where `stopping()` answers true in a reachable scheduler with fewer than 2 ^ 64 threads in `run`, it
-- was stopped, the queue is empty, and no thread has an entry that it has not run and counted down. (A
-- thread that has counted it down may still have the fiber in its hands, to put it back or to hold it.)
pub is_stopping-AllAtRest :
    (sys : System)
    → Reached sys
    → length sys.workers < 2 ^ 64
    → is_stopping sys.scheduler ≡ true
    → (sys.scheduler.queue ≡ []) × AllAtRest sys.workers × (sys.scheduler.stopping ≡ true)
unfolding is_stopping
is_stopping-AllAtRest sys reached few h =
    let (auto, flag, empty, zero_active) =
      stopping_parts sys.scheduler.auto_stops sys.scheduler.stopping (is_empty sys.scheduler.queue)
        (sys.scheduler.active_thread_count == 0) h in
    let v = Reached-IsCounted sys reached in
    let none_active : sys.scheduler.active_thread_count ≡ 0 = ground arith in
    (
      empty_queue sys.scheduler.queue empty,
      count-AllAtRest sys.workers (omega (arith, v.active, few, count_le sys.workers, none_active)),
      flag,
    )
