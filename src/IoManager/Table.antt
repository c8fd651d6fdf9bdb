-- ===== src/IoManager/Table.antt =====
-- The operations of `IOManager` of civan/iomanager.cc on the whole table of descriptors: the lookups
-- with their early returns, and the loop of `idle` over what `epoll_wait` reports.
use civan.Common.{
  ℕ, ◌-◌, ◌*◌, ◌/◌, ◌^◌, List, [], ◌∷◌, ◌++◌, Option, none, some, Bool, true, false, not, ◌&&◌,
  ◌||◌, ltb, leb, ◌==◌, if◌then◌else◌, length, get_elem?, set, take, replicate,
}
use civan.Common.Outcome.{Outcome, ok, undefined, ◌>>=◌}
use civan.IoManager.State.{
  Event, read, write, FdContext, new_context, IoManager, View, settle, add_event_on, del_event_on,
  cancel_event_on, cancel_all_on,
}

-- `contextResize`.
unfoldable pub context_resize : ℕ → List FdContext → List FdContext
context_resize size cs = take size cs ++ replicate (size - length cs) new_context

abbrev pub view : FdContext → IoManager → View
view c m = record { context = c; pending = m.pending; scheduled = m.scheduled }

abbrev pub put_view : ℕ → View → IoManager → IoManager
put_view fd v m = record {
  contexts = set m.contexts fd v.context;
  pending = v.pending;
  scheduled = v.scheduled;
}

abbrev pub store : ℕ → IoManager → Bool × View → Outcome (Bool × IoManager)
store fd m (done, v) = ok (done, put_view fd v m)

-- `fd_ctx = m_fdContexts[fd]`, and what is done with it.
unfoldable pub with_context :
    ℕ → (View → Outcome (Bool × View)) → IoManager → Outcome (Bool × IoManager)
with_context fd op m = elim (get_elem? m.contexts fd) [
  | none ↦ undefined
  | some c ↦ op (view c m) >>= store fd m
]

-- `addEvent`; `fd * 1.5` is cut to a whole number.
unfoldable pub add_event :
    ℕ → Event → Option ℕ → Bool → Option ℕ → ℕ → IoManager → Outcome (Bool × IoManager)
add_event fd event cb ctl_ok self fiber m =
    with_context fd (add_event_on event cb ctl_ok self fiber) (
      if ltb fd (length m.contexts)
      then m
      else record m { contexts = context_resize (fd * 3 / 2) m.contexts })

-- The test with which the other operations start.
abbrev pub if_known : ℕ → (View → Outcome (Bool × View)) → IoManager → Outcome (Bool × IoManager)
if_known fd op m = if leb (length m.contexts) fd then ok (false, m) else with_context fd op m

-- `delEvent`, `cancelEvent` and `cancelAll`.
unfoldable pub del_event : ℕ → Event → Bool → IoManager → Outcome (Bool × IoManager)
del_event fd event ctl_ok m = if_known fd (del_event_on event ctl_ok) m

unfoldable pub cancel_event : ℕ → Event → Bool → IoManager → Outcome (Bool × IoManager)
cancel_event fd event ctl_ok m = if_known fd (cancel_event_on event ctl_ok) m

unfoldable pub cancel_all : ℕ → Bool → IoManager → Outcome (Bool × IoManager)
cancel_all fd ctl_ok m = if_known fd (cancel_all_on ctl_ok) m

-- An `epoll_event` that `epoll_wait` fills in: the pipe of `tickle`, or flags for a descriptor.
pub data Report : Type 0 where
  tickled : Report
  ready : (fd : ℕ) (input output failed ctl_ok : Bool) → Report

-- The body of the loop for a descriptor. `failed` is EPOLLERR or EPOLLHUP.
unfoldable pub dispatch_on : Bool → Bool → Bool → Bool → View → Outcome (Bool × View)
dispatch_on input output failed ctl_ok v =
    let reads = input || failed && v.context.events.reads in
    let writes = output || failed && v.context.events.writes in
    if not (v.context.events.reads && reads || v.context.events.writes && writes)
    then ok (false, v)
    else if not ctl_ok
    then ok (false, v)
    else (if reads then settle read v else ok v) >>= λ v'.
        (if writes then settle write v' else ok v') >>= λ v''. ok (true, v'')

unfoldable pub dispatch_one : Report → IoManager → Outcome (Bool × IoManager)
dispatch_one tickled m = ok (false, m)
dispatch_one (ready fd input output failed ctl_ok) m =
    with_context fd (dispatch_on input output failed ctl_ok) m

-- The loop of `idle` over the events of one `epoll_wait`.
unfoldable pub dispatch : List Report → IoManager → Outcome IoManager
dispatch [] m = ok m
dispatch (r ∷ rs) m = dispatch_one r m >>= λ (done, m'). dispatch rs m'

-- The first terms of `stopping(time_out)`, for the answer of `getNextTimer`.
unfoldable pub nothing_awaited : ℕ → IoManager → Bool
nothing_awaited time_out m = time_out == 2 ^ 64 - 1 && m.pending == 0
