-- ===== src/Scheduler/State.antt =====
-- `Scheduler` of civan/scheduler.h and civan/scheduler.cc. What the threads share is `Scheduler`, and
-- each thread that is in `run` is a `Worker`. A round of `run` is cut where other threads can come in
-- between: at the test of the loop, at the lock, where a fiber has the thread, and around what is counted.
-- (A call of `tickle` and the new state of a fiber come with the step before or after them.)
use civan.Common.{
  ℕ, suc, ◌+◌, ◌-◌, ◌%◌, ◌^◌, List, [], ◌∷◌, ◌++◌, Option, none, some, Bool, true, false, not, ◌&&◌,
  ◌||◌, ◌==◌, if◌then◌else◌, get_elem?,
}
use civan.Common.Outcome.{Outcome, ok, undefined, assert_failed, ◌>>=◌}
use civan.Fiber.State.{
  State, starting, hold, exec, term, ready, except, Fibers, is_exec, is_over, is_ready, new_fiber,
  set_state, reset, enter, Ending, finish_turn,
}

-- `thread` is `none` for -1.
pub record FiberAndThread : Type 0 where
  pub fiber : Option ℕ
  pub cb : Option ℕ
  pub thread : Option ℕ

-- `tickles` counts the calls of `tickle`; `fibers` are the fibers of the program.
pub record Scheduler : Type 0 where
  pub queue : List FiberAndThread
  pub fibers : Fibers
  pub active_thread_count : ℕ
  pub idle_thread_count : ℕ
  pub stopping : Bool
  pub auto_stops : Bool
  pub tickles : ℕ

abbrev pub is_some : Option ℕ → Bool
is_some none = false
is_some (some x) = true

abbrev pub is_empty : List FiberAndThread → Bool
is_empty [] = true
is_empty (t ∷ q) = false

abbrev pub one_more : ℕ → ℕ
one_more n = (n + 1) % 2 ^ 64

abbrev pub one_less : ℕ → ℕ
one_less n = (n + 2 ^ 64 - 1) % 2 ^ 64

abbrev pub tickle_if : Bool → Scheduler → Scheduler
tickle_if need s = record s { tickles = if need then suc s.tickles else s.tickles }

-- `ft.fiber || ft.cb`.
abbrev pub has_work : FiberAndThread → Bool
has_work t = is_some t.fiber || is_some t.cb

unfoldable pub schedule_no_lock : FiberAndThread → Scheduler → Bool × Scheduler
schedule_no_lock t s =
    (is_empty s.queue, if has_work t then record s { queue = s.queue ++ t ∷ [] } else s)

unfoldable pub schedule : FiberAndThread → Scheduler → Scheduler
unfolding schedule_no_lock
schedule t s = let (need_tickle, s') = schedule_no_lock t s in tickle_if need_tickle s'

-- The loop of the `schedule` of a range, which gives every entry the thread -1.
unfoldable pub schedule_loop : List FiberAndThread → Bool → Scheduler → Bool × Scheduler
unfolding schedule_no_lock
schedule_loop [] need_tickle s = (need_tickle, s)
schedule_loop (t ∷ ts) need_tickle s =
    let (need, s') = schedule_no_lock (record t { thread = none }) s in
    schedule_loop ts (need_tickle || need) s'

unfoldable pub schedule_all : List FiberAndThread → Scheduler → Scheduler
unfolding schedule_loop
schedule_all ts s = let (need_tickle, s') = schedule_loop ts false s in tickle_if need_tickle s'

-- `stopping()`.
unfoldable pub is_stopping : Scheduler → Bool
is_stopping s = s.auto_stops && s.stopping && is_empty s.queue && s.active_thread_count == 0

-- Whether the thread may not take the entry: `it->thread != -1 && it->thread != GetThreadId()`.
abbrev pub is_elsewhere : ℕ → Option ℕ → Bool
is_elsewhere me none = false
is_elsewhere me (some t) = not (t == me)

-- `it->fiber && it->fiber->getState() == Fiber::EXEC`.
abbrev pub fiber_runs : Fibers → Option ℕ → Bool
fiber_runs fs none = false
fiber_runs fs (some f) = elim (get_elem? fs f) [ some fiber ↦ is_exec fiber.state | none ↦ false ]

-- What the loop over `m_fibers` finds: `tickle_me`, the entry, and the queue without it.
pub record Search : Type 0 where
  pub tickle_me : Bool
  pub found : Option FiberAndThread
  pub left : List FiberAndThread

abbrev pub passed : Bool → FiberAndThread → Search → Search
passed tickle_me t r = record {
  tickle_me = tickle_me || r.tickle_me;
  found = r.found;
  left = t ∷ r.left;
}

unfoldable pub find_task : ℕ → Fibers → List FiberAndThread → Outcome Search
find_task me fs [] = ok (record { tickle_me = false; found = none; left = [] })
find_task me fs (t ∷ q) =
    let rest = find_task me fs q in
    if is_elsewhere me t.thread
    then (rest >>= λ r. ok (passed true t r))
    else if not (has_work t)
    then assert_failed
    else if fiber_runs fs t.fiber
    then (rest >>= λ r. ok (passed false t r))
    else ok (record { tickle_me = false; found = some t; left = q })

-- Where a thread is in `run`: at the test of the loop, before the lock, behind it with nothing found or
-- with an entry that it has taken, inside a fiber of the queue or of a callback, behind the `swapIn` of
-- one, counted down but still with that fiber, inside the idle fiber, behind its `swapIn`, or out of the
-- loop.
pub data Place : Type 0 where
  looping searching unfound : Place
  holding : FiberAndThread → Place
  in_fiber in_callback out_of_fiber out_of_callback parting : ℕ → Place
  in_idle out_of_idle done : Place

-- `idle_state` is the state of `idle_fiber`.
pub record Worker : Type 0 where
  pub id : ℕ
  pub place : Place
  pub idle_state : State
  pub cb_fiber : Option ℕ

unfoldable pub new_worker : ℕ → Worker
new_worker id = record { id = id; place = looping; idle_state = starting; cb_fiber = none }

-- `while (!stopping())`.
unfoldable pub check : Worker → Scheduler → Worker × Scheduler
unfolding is_stopping
check w s = (record w { place = if is_stopping s then done else searching }, s)

-- The branch without an entry: `is_active` is false there.
unfoldable pub go_idle : Worker → Scheduler → Outcome (Worker × Scheduler)
go_idle w s = elim w.idle_state [
  | term ↦ ok (record w { place = done }, s)
  | exec ↦ assert_failed
  | _ ↦ ok (
    record w { place = in_idle; idle_state = exec },
    record s { idle_thread_count = one_more s.idle_thread_count },
  )
]

-- What follows the loop under the lock, up to the branches on the entry.
unfoldable pub take_found : Worker → Scheduler → Search → Outcome (Worker × Scheduler)
take_found w s r =
    let s' = tickle_if r.tickle_me (record s { queue = r.left }) in
    elim r.found [
      | some t ↦ ok (
        record w { place = holding t },
        record s' { active_thread_count = one_more s'.active_thread_count },
      )
      | none ↦ ok (record w { place = unfound }, s')
    ]

unfoldable pub search : Worker → Scheduler → Outcome (Worker × Scheduler)
unfolding find_task take_found
search w s = find_task w.id s.fibers s.queue >>= take_found w s

-- `ft.fiber` is there and has not ended.
abbrev pub can_resume : Fibers → Option ℕ → Option ℕ
can_resume fs none = none
can_resume fs (some f) = elim (get_elem? fs f) [
  | some fiber ↦ if is_over fiber.state then none else some f
  | none ↦ none
]

-- The fiber for a callback: `cb_fiber` reset, or a new one.
unfoldable pub fiber_for : Worker → Option ℕ → Fibers → Outcome (ℕ × Fibers)
unfolding reset new_fiber
fiber_for w cb fs = elim w.cb_fiber [
  | some g ↦ (reset g cb fs >>= λ fs'. ok (g, fs'))
  | none ↦ ok (new_fiber cb fs)
]

unfoldable pub start_callback : Worker → Option ℕ → Scheduler → Outcome (Worker × Scheduler)
unfolding fiber_for enter
start_callback w cb s = fiber_for w cb s.fibers >>= λ made. enter made.0 made.1 >>= λ fs.
    ok (record w { place = in_callback made.0; cb_fiber = some made.0 }, record s { fibers = fs })

-- The branches on what was taken, with the fiber that can go on and the callback.
unfoldable pub run_branch : Option ℕ → Option ℕ → Worker → Scheduler → Outcome (Worker × Scheduler)
unfolding enter start_callback
run_branch (some f) cb w s =
    enter f s.fibers >>= λ fs. ok (record w { place = in_fiber f }, record s { fibers = fs })
run_branch none (some cb) w s = start_callback w (some cb) s
run_branch none none w s = ok (
  record w { place = looping },
  record s { active_thread_count = one_less s.active_thread_count },
)

unfoldable pub run_task : FiberAndThread → Worker → Scheduler → Outcome (Worker × Scheduler)
unfolding run_branch
run_task t w s = run_branch (can_resume s.fibers t.fiber) t.cb w s

-- After a `swapIn`: `--m_activeThreadCount`. No lock joins it with what follows. (`cb_fiber` of a
-- callback is let go in each branch that follows.)
unfoldable pub count_down : ℕ → Worker → Scheduler → Worker × Scheduler
count_down f w s = (
  record w { place = parting f; cb_fiber = none },
  record s { active_thread_count = one_less s.active_thread_count },
)

-- And then, by the state of the fiber, another entry or `HOLD`.
unfoldable pub settle_state : ℕ → State → Worker → Scheduler → Outcome (Worker × Scheduler)
unfolding schedule set_state
settle_state f state w s =
    let w' = record w { place = looping } in
    if is_ready state
    then ok (w', schedule (record { fiber = some f; cb = none; thread = none }) s)
    else if is_over state
    then ok (w', s)
    else (set_state f hold s.fibers >>= λ fs. ok (w', record s { fibers = fs }))

unfoldable pub settle : ℕ → Worker → Scheduler → Outcome (Worker × Scheduler)
unfolding settle_state
settle f w s = elim (get_elem? s.fibers f) [
  | none ↦ undefined
  | some fiber ↦ settle_state f fiber.state w s
]

-- A round of `idle`: the idle fiber ends when the scheduler stops, and otherwise yields.
unfoldable pub idle_round : Worker → Scheduler → Worker × Scheduler
unfolding is_stopping
idle_round w s =
    (record w { place = out_of_idle; idle_state = if is_stopping s then term else hold }, s)

-- What follows the `swapIn` of the idle fiber, whose state is `HOLD` or `TERM`.
unfoldable pub leave_idle : Worker → Scheduler → Worker × Scheduler
leave_idle w s =
    (record w { place = looping }, record s { idle_thread_count = one_less s.idle_thread_count })

-- One step of a thread. `ending` is how the turn of a fiber ends, where it is inside one.
unfoldable pub act : Ending → Worker → Scheduler → Outcome (Worker × Scheduler)
unfolding check search run_task count_down settle go_idle idle_round leave_idle finish_turn
act ending w s = elim w.place [
  | looping ↦ ok (check w s)
  | searching ↦ search w s
  | unfound ↦ go_idle w s
  | holding t ↦ run_task t w s
  | in_fiber f ↦
      (finish_turn ending f s.fibers >>= λ fs.
      ok (record w { place = out_of_fiber f }, record s { fibers = fs }))
  | in_callback f ↦
      (finish_turn ending f s.fibers >>= λ fs.
      ok (record w { place = out_of_callback f }, record s { fibers = fs }))
  | out_of_fiber f ↦ ok (count_down f w s)
  | out_of_callback f ↦ ok (count_down f w s)
  | parting f ↦ settle f w s
  | in_idle ↦ ok (idle_round w s)
  | out_of_idle ↦ ok (leave_idle w s)
  | done ↦ ok (w, s)
]

-- `m_rootFiber` is there and its state is `TERM` or `INIT`.
abbrev pub is_root_ready : Option State → Bool
is_root_ready none = false
is_root_ready (some term) = true
is_root_ready (some starting) = true
is_root_ready (some hold) = false
is_root_ready (some exec) = false
is_root_ready (some ready) = false
is_root_ready (some except) = false

-- `stop` up to its joins, for `m_threadCount` threads and the state of the root fiber. The assertions
-- on the calling thread hold.
unfoldable pub stop : ℕ → Option State → Scheduler → Scheduler
unfolding is_stopping
stop threads root s =
    let s' = record s { auto_stops = true; stopping = true } in
    if is_root_ready root && threads == 0 && is_stopping s'
    then s'
    else record s' { tickles = threads + (elim root [ some state ↦ 1 | none ↦ 0 ]) + s.tickles }
