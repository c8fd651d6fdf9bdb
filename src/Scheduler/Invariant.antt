-- ===== src/Scheduler/Invariant.antt =====
-- What holds of every `Scheduler` of civan/scheduler.cc, whatever its threads do and in whatever order.
use civan.Common.{
  ℕ, zero, suc, ◌+◌, ◌%◌, ◌^◌, List, [], ◌∷◌, ◌++◌, none, some, Bool, ◌||◌, ◌≡◌, refl, ap, ◌∙◌, map,
  get_elem?, set, arith, subst, if_both, if_cases,
}
use civan.Scheduler.State.{
  FiberAndThread, Scheduler, Worker, Place, new_worker, schedule_no_lock, schedule_loop, is_empty,
  has_work,
}
use civan.Scheduler.Queue.{AllWork}
use civan.Scheduler.Workers.{busy, idles, IsTidy, Kept, AllWork-snoc}
use civan.Scheduler.System.{System}

-- The sum of `weight` over the threads.
abbrev pub count : (Place → ℕ) → List Worker → ℕ
count weight [] = 0
count weight (w ∷ ws) = weight w.place + count weight ws

abbrev pub AllTidy : List Worker → Type 0
AllTidy [] = Unit {0}
AllTidy (w ∷ ws) = IsTidy w × AllTidy ws

-- The counts are the numbers of threads that have taken an entry, and that are in their idle fiber.
pub record IsCounted (sys : System) : Type 0 where
  pub active : sys.scheduler.active_thread_count % 2 ^ 64 ≡ count busy sys.workers % 2 ^ 64
  pub idle : sys.scheduler.idle_thread_count % 2 ^ 64 ≡ count idles sys.workers % 2 ^ 64
  pub work : AllWork sys.scheduler.queue
  pub tidy : AllTidy sys.workers

same_worker : (v w : Worker) → some v ≡ some w → v ≡ w
same_worker v w h = ap (λ o. elim o as (λ x. Worker) [ some x ↦ x | none ↦ v ]) h

count-set :
    (weight : Place → ℕ) (ws : List Worker) (i : ℕ) (w w' : Worker)
    → get_elem? ws i ≡ some w
    → count weight (set ws i w') + weight w.place ≡ count weight ws + weight w'.place
count-set weight [] i w w' h = cc
count-set weight (v ∷ ws) zero w w' h = omega (arith, ap (λ x. weight x.place) (same_worker v w h))
count-set weight (v ∷ ws) (suc i) w w' h = omega (arith, count-set weight ws i w w' h)

count-append :
    (weight : Place → ℕ) (ws vs : List Worker)
    → count weight (ws ++ vs) ≡ count weight ws + count weight vs
count-append weight [] vs = omega arith
count-append weight (w ∷ ws) vs = omega (arith, count-append weight ws vs)

pub AllTidy-get :
    (ws : List Worker) (i : ℕ) (w : Worker) → get_elem? ws i ≡ some w → AllTidy ws → IsTidy w
AllTidy-get [] i w h t = cc
AllTidy-get (v ∷ ws) zero w h (t, ts) = subst IsTidy (same_worker v w h) t
AllTidy-get (v ∷ ws) (suc i) w h (t, ts) = AllTidy-get ws i w h ts

set-AllTidy : (ws : List Worker) (i : ℕ) (w : Worker) → IsTidy w → AllTidy ws → AllTidy (set ws i w)
set-AllTidy [] i w t ts = tt
set-AllTidy (v ∷ ws) zero w t (u, ts) = (t, ts)
set-AllTidy (v ∷ ws) (suc i) w t (u, ts) = (u, set-AllTidy ws i w t ts)

AllTidy-append : (ws vs : List Worker) → AllTidy ws → AllTidy vs → AllTidy (ws ++ vs)
AllTidy-append [] vs t u = u
AllTidy-append (w ∷ ws) vs (t, ts) u = (t, AllTidy-append ws vs ts u)

schedule_no_lock-AllWork :
    (t : FiberAndThread) (s : Scheduler) → AllWork s.queue → AllWork (schedule_no_lock t s).1.queue
unfolding schedule_no_lock
schedule_no_lock-AllWork t s work =
    if_cases (λ s'. AllWork s'.queue) (has_work t) (record s { queue = s.queue ++ t ∷ [] }) s
      (λ h. AllWork-snoc s.queue t work h) (λ h. work)

-- The calls of `schedule` change the queue and nothing that is counted.
pub record Queues (s s' : Scheduler) : Type 0 where
  pub same_active : s'.active_thread_count ≡ s.active_thread_count
  pub same_idle : s'.idle_thread_count ≡ s.idle_thread_count
  pub keeps_work : AllWork s.queue → AllWork s'.queue

pub schedule_no_lock-Queues :
    (t : FiberAndThread) (s : Scheduler) → Queues s (schedule_no_lock t s).1
unfolding schedule_no_lock
schedule_no_lock-Queues t s = record {
  same_active =
      if_both (λ s'. s'.active_thread_count ≡ s.active_thread_count) (has_work t) _ s refl refl;
  same_idle = if_both (λ s'. s'.idle_thread_count ≡ s.idle_thread_count) (has_work t) _ s refl refl;
  keeps_work = schedule_no_lock-AllWork t s;
}

pub schedule_loop-Queues :
    (ts : List FiberAndThread) (need : Bool) (s : Scheduler) → Queues s (schedule_loop ts need s).1
unfolding schedule_loop
schedule_loop-Queues [] need s = record {
  same_active = refl;
  same_idle = refl;
  keeps_work = λ w. w;
}
schedule_loop-Queues (t ∷ ts) need s =
    let first = schedule_no_lock-Queues (record t { thread = none }) s in
    let rest =
      schedule_loop-Queues ts (need || is_empty s.queue)
        (schedule_no_lock (record t { thread = none }) s).1 in
    record {
      same_active = rest.same_active ∙ first.same_active;
      same_idle = rest.same_idle ∙ first.same_idle;
      keeps_work = λ w. rest.keeps_work (first.keeps_work w);
    }

pub Queues-IsCounted :
    (sys : System) (s' : Scheduler)
    → Queues sys.scheduler s'
    → IsCounted sys
    → IsCounted (record sys { scheduler = s' })
Queues-IsCounted sys s' q v = record {
  active = ap (λ n. n % 2 ^ 64) q.same_active ∙ v.active;
  idle = ap (λ n. n % 2 ^ 64) q.same_idle ∙ v.idle;
  work = q.keeps_work v.work;
  tidy = v.tidy;
}

-- Threads that begin with `run` are not counted.
new_workers-AllTidy : (ids : List ℕ) → AllTidy (map new_worker ids)
unfolding new_worker
new_workers-AllTidy [] = tt
new_workers-AllTidy (id ∷ ids) = (refl, new_workers-AllTidy ids)

count-new_workers :
    (ids : List ℕ) → (count busy (map new_worker ids) ≡ 0) × (count idles (map new_worker ids) ≡ 0)
unfolding new_worker
count-new_workers [] = (refl, refl)
count-new_workers (id ∷ ids) =
    (omega (arith, (count-new_workers ids).0), omega (arith, (count-new_workers ids).1))

pub join-IsCounted :
    (ids threads : List ℕ) (sys : System) (s' : Scheduler)
    → Queues sys.scheduler s'
    → IsCounted sys
    → IsCounted
        (record { scheduler = s'; workers = sys.workers ++ map new_worker ids; threads = threads })
join-IsCounted ids threads sys s' q v = record {
  active = omega (
    arith,
    q.same_active,
    v.active,
    count-append busy sys.workers (map new_worker ids),
    (count-new_workers ids).0,
  );
  idle = omega (
    arith,
    q.same_idle,
    v.idle,
    count-append idles sys.workers (map new_worker ids),
    (count-new_workers ids).1,
  );
  work = q.keeps_work v.work;
  tidy = AllTidy-append sys.workers (map new_worker ids) v.tidy (new_workers-AllTidy ids);
}

pub act-IsCounted :
    (i : ℕ) (w w' : Worker) (s' : Scheduler) (sys : System)
    → get_elem? sys.workers i ≡ some w
    → Kept w sys.scheduler (w', s')
    → IsCounted sys
    → IsCounted (record sys { scheduler = s'; workers = set sys.workers i w' })
act-IsCounted i w w' s' sys h k v = record {
  active = omega (arith, v.active, k.active_change, count-set busy sys.workers i w w' h);
  idle = omega (arith, v.idle, k.idle_change, count-set idles sys.workers i w w' h);
  work = k.all_work;
  tidy = set-AllTidy sys.workers i w' k.tidy v.tidy;
}
