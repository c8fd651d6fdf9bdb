-- ===== src/IoManager/Tests.antt =====
-- Runs of civan/iomanager.cc on a small table.
use civan.Common.{◌≡◌, refl, [], ◌∷◌, none, some, true, false, if◌then◌else◌}
use civan.Common.Outcome.{ok, assert_failed, ◌>>=◌}
use civan.IoManager.State.{
  read, write, new_context, run_cb, resume_fiber, FdContext, IoManager, del_event_locked, View,
  add_event_on, cancel_event_on, del_event_on, get_context, put_context,
}
use civan.IoManager.Table.{
  context_resize, view, put_view, with_context, add_event, cancel_event, cancel_all, dispatch_on,
}
use civan.IoManager.Pending.{
  waiting, idle, armed, IsConsistent, cleared, resumed, cancel_event_on_lem, del_event_on_lem,
}
use civan.IoManager.Dispatch.{awaited, add_event_on_lem, dispatch_on_lem}
use civan.IoManager.Invariant.{new_manager, Reached, started, adds}
use civan.IoManager.Calls.{cancel_event-add_event, cancel_all-Reached}

-- A descriptor that waits for READ with a callback.
abbrev reading : View
reading = record {
  context = record {
    reader = waiting 1 (run_cb 5);
    writer = new_context.writer;
    events = record { reads = true; writes = false };
  };
  pending = 1;
  scheduled = [];
}

reading-IsConsistent : IsConsistent reading.context
reading-IsConsistent = record { reads_ok = armed 1 (run_cb 5); writes_ok = idle }

-- The manager in which descriptor 3 waits for WRITE.
abbrev writing : IoManager
writing = put_view 3 (awaited write 1 (run_cb 5) (view new_context new_manager)) new_manager

abbrev writing_context : FdContext
writing_context = (awaited write 1 (run_cb 5) (view new_context new_manager)).context

writing-Reached : Reached writing
unfolding add_event with_context add_event_on get_context put_context context_resize
writing-Reached = adds {b = true} 3 write (some 5) true 1 2 started refl

-- Two calls of `delEvent` for it, of which the second is late.
abbrev both_ways : IoManager
both_ways = put_view 3 (awaited read 1 (resume_fiber 2) (view writing_context writing)) writing

-- A `delEvent` for READ that is late after another one: the count goes down twice, to 0, while WRITE is
-- registered.
deleted_twice :
    (with_context 3 (del_event_locked read true) writing >>= λ (d, m). ok m.pending) ≡ ok 0
unfolding context_resize with_context del_event_locked get_context put_context
deleted_twice = refl

cancel_all-Reached_example : cancel_all 3 true writing ≡ (
    if true
    then assert_failed
    else ok (
      true,
      put_view 3
          (resumed read (
            view
              (record new_context {
                writer = waiting 1 (run_cb 5);
                events = record { reads = false; writes = true };
              })
              writing))
          writing,
    ))
unfolding context_resize
cancel_all-Reached_example = cancel_all-Reached 3 writing _ writing-Reached refl refl

cancel_event-add_event_example :
    (add_event 3 read none true (some 1) 2 writing >>= λ (d, m'). cancel_event 3 read true m')
    ≡ ok (true, record writing { scheduled = (1, resume_fiber 2) ∷ [] })
unfolding context_resize
cancel_event-add_event_example =
    cancel_event-add_event 3 read none 1 2 writing _ writing-Reached (λ e. cc) refl refl

cancel_event_on_lem_run : cancel_event_on read true reading ≡ ok (true, resumed read reading)
cancel_event_on_lem_run = cancel_event_on_lem read true reading reading-IsConsistent

del_event_on_lem_run : del_event_on read true reading ≡ ok (true, cleared read reading)
del_event_on_lem_run = del_event_on_lem read true reading

add_event_on_lem_run :
    add_event_on write none true (some 1) 2 reading
    ≡ ok (true, awaited write 1 (resume_fiber 2) reading)
add_event_on_lem_run = add_event_on_lem write none true 1 2 reading (λ e. cc) reading-IsConsistent

dispatch_on_lem_example :
    dispatch_on false false true true reading ≡ ok (true, resumed read reading)
dispatch_on_lem_example =
    dispatch_on_lem false false true true reading reading-IsConsistent (λ e. cc) (λ e. cc)
