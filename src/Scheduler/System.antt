-- ===== src/Scheduler/System.antt =====
-- A `Scheduler` of civan/scheduler.cc with the threads that are in `run`.
use civan.Common.{
  ℕ, List, [], ◌∷◌, ◌++◌, Option, some, true, false, if◌then◌else◌, ◌≡◌, map, get_elem?, set,
}
use civan.Common.Outcome.{Outcome, ok, assert_failed}
use civan.Fiber.State.{State, Ending, Fibers}
use civan.Scheduler.State.{
  FiberAndThread, Scheduler, Worker, new_worker, schedule, schedule_all, stop, act,
}

-- `threads` is `m_threads`: the threads that `start` has made.
pub record System : Type 0 where
  pub scheduler : Scheduler
  pub workers : List Worker
  pub threads : List ℕ

-- A `Scheduler` is made with `m_stopping` set.
unfoldable pub new_system : Fibers → System
new_system fs = record {
  scheduler = record {
    queue = [];
    fibers = fs;
    active_thread_count = 0;
    idle_thread_count = 0;
    stopping = true;
    auto_stops = false;
    tickles = 0;
  };
  workers = [];
  threads = [];
}

-- `start`, for threads with these numbers, which begin in `run`.
unfoldable pub start : List ℕ → System → Outcome System
unfolding new_worker
start ids sys =
    if sys.scheduler.stopping
    then elim sys.threads [
      | [] ↦ ok record {
        scheduler = record sys.scheduler { stopping = false };
        workers = sys.workers ++ map new_worker ids;
        threads = ids;
      }
      | t ∷ ts ↦ assert_failed
    ]
    else ok sys

-- What can happen: calls from outside or from a fiber, the thread that runs `stop` going into `run`
-- with the root fiber, and a step of a thread in `run`.
pub data Step : System → System → Type 0 where
  scheduled :
      (t : FiberAndThread) (sys : System)
      → Step sys (record sys { scheduler = schedule t sys.scheduler })
  scheduled_all :
      (ts : List FiberAndThread) (sys : System)
      → Step sys (record sys { scheduler = schedule_all ts sys.scheduler })
  stopped :
      (threads : ℕ) (root : Option State) (sys : System)
      → Step sys (record sys { scheduler = stop threads root sys.scheduler })
  started : (ids : List ℕ) (sys sys' : System) → start ids sys ≡ ok sys' → Step sys sys'
  entered :
      (id : ℕ) (sys : System)
      → Step sys (record sys { workers = sys.workers ++ new_worker id ∷ [] })
  acted :
      (ending : Ending) (i : ℕ) (w w' : Worker) (s' : Scheduler) (sys : System)
      → get_elem? sys.workers i ≡ some w
      → act ending w sys.scheduler ≡ ok (w', s')
      → Step sys (record sys { scheduler = s'; workers = set sys.workers i w' })

pub data Reached : System → Type 0 where
  made : (fs : Fibers) → Reached (new_system fs)
  after : (sys sys' : System) → Reached sys → Step sys sys' → Reached sys'
