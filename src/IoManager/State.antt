-- ===== src/IoManager/State.antt =====
-- `IOManager` of civan/iomanager.cc, without its thread pool: the table of descriptors, the count of
-- pending events, and what it hands to schedulers. `addEvent` and the loop of `idle` hold the lock of
-- a descriptor from their test of its flags on. `delEvent`, `cancelEvent` and `cancelAll` test the flags
-- first and take the lock afterwards, so they are in two parts: the test, and a `_locked` part for what
-- the context is by then. Whether `epoll_ctl` succeeds is an argument, and so are the scheduler of the
-- caller, which may be null, and its fiber, as numbers. Descriptors are not negative.
use civan.Common.{
  ℕ, ◌+◌, ◌-◌, ◌%◌, ◌^◌, List, [], ◌∷◌, ◌++◌, Option, none, some, Bool, true, false, not, ◌&&◌,
  ◌||◌, if◌then◌else◌,
}
use civan.Common.Outcome.{Outcome, ok, undefined, assert_failed, ◌>>=◌}

-- `enum Event`.
pub data Event : Type 0 where
  no_event read write : Event

-- A value of `Event` as a set of bits.
pub record Events : Type 0 where
  pub reads : Bool
  pub writes : Bool

abbrev pub no_events : Events
no_events = record { reads = false; writes = false }

-- `events & event`, `events | event` and `events & ~event`.
abbrev pub has_event : Events → Event → Bool
has_event es no_event = false
has_event es read = es.reads
has_event es write = es.writes

abbrev pub with_event : Events → Event → Events
with_event es no_event = es
with_event es read = record es { reads = true }
with_event es write = record es { writes = true }

abbrev pub without_event : Events → Event → Events
without_event es no_event = es
without_event es read = record es { reads = false }
without_event es write = record es { writes = false }

abbrev pub any_event : Events → Bool
any_event es = es.reads || es.writes

-- `struct EventContext`: pointers that may be null, as numbers.
pub record EventContext : Type 0 where
  pub scheduler : Option ℕ
  pub fiber : Option ℕ
  pub cb : Option ℕ

abbrev pub null_context : EventContext
null_context = record { scheduler = none; fiber = none; cb = none }

-- `struct FdContext`.
pub record FdContext : Type 0 where
  pub reader : EventContext
  pub writer : EventContext
  pub events : Events

abbrev pub new_context : FdContext
new_context = record { reader = null_context; writer = null_context; events = no_events }

-- What goes to a scheduler.
pub data Task : Type 0 where
  run_cb resume_fiber : ℕ → Task

pub record IoManager : Type 0 where
  pub contexts : List FdContext
  pub pending : ℕ
  pub scheduled : List (ℕ × Task)

-- What an operation sees and changes once it holds `fd_ctx`.
pub record View : Type 0 where
  pub context : FdContext
  pub pending : ℕ
  pub scheduled : List (ℕ × Task)

abbrev pub is_null : Option ℕ → Bool
is_null none = true
is_null (some x) = false

-- `getContext`, and the write through the reference that it gives.
unfoldable pub get_context : Event → FdContext → Outcome EventContext
get_context no_event c = assert_failed
get_context read c = ok c.reader
get_context write c = ok c.writer

unfoldable pub put_context : Event → EventContext → FdContext → FdContext
put_context no_event e c = c
put_context read e c = record c { reader = e }
put_context write e c = record c { writer = e }

-- `scheduler->schedule(&cb)` or `schedule(&fiber)`: what is queued, and what the swap leaves.
abbrev pub schedule : ℕ → EventContext → List (ℕ × Task) × EventContext
schedule s e = elim e.cb [
  | some c ↦ ((s, run_cb c) ∷ [], record e { scheduler = none; cb = none })
  | none ↦ (elim e.fiber [
    | some f ↦ ((s, resume_fiber f) ∷ [], record e { scheduler = none; fiber = none })
    | none ↦ ([], record e { scheduler = none })
  ])
]

-- `triggerEvent`.
unfoldable pub trigger_event : Event → View → Outcome View
unfolding get_context put_context
trigger_event event v =
    if not (has_event v.context.events event)
    then assert_failed
    else (get_context event v.context >>= λ e. elim e.scheduler [
      | none ↦ undefined
      | some s ↦
          let (tasks, left) = schedule s e in
          ok (record v {
            context = record (put_context event left v.context) {
              events = without_event v.context.events event;
            };
            scheduled = v.scheduled ++ tasks;
          })
    ])

-- `m_pendingEventCount` is a `size_t`.
abbrev pub one_more : ℕ → ℕ
one_more p = (p + 1) % 2 ^ 64

abbrev pub one_less : ℕ → ℕ
one_less p = (p + 2 ^ 64 - 1) % 2 ^ 64

-- `triggerEvent(event); --m_pendingEventCount;`
abbrev pub settle : Event → View → Outcome View
settle event v = trigger_event event v >>= λ v'. ok (record v' { pending = one_less v'.pending })

-- `addEvent(fd, event, cb)` on its context: 0 or -1, as true or false. With no callback the fiber of
-- the caller, which is running, is to be resumed. `self` is `Scheduler::GetThis()`.
unfoldable pub add_event_on : Event → Option ℕ → Bool → Option ℕ → ℕ → View → Outcome (Bool × View)
unfolding get_context put_context
add_event_on event cb ctl_ok self fiber v =
    if has_event v.context.events event
    then assert_failed
    else if not ctl_ok
    then ok (false, v)
    else (get_context event v.context >>= λ e.
        if not (is_null e.scheduler && is_null e.fiber && is_null e.cb)
        then assert_failed
        else (let e' : EventContext = record {
          scheduler = self;
          fiber = if is_null cb then some fiber else none;
          cb = cb;
        } in
            ok (
              true,
              record v {
                context = record (put_context event e' v.context) {
                  events = with_event v.context.events event;
                };
                pending = one_more v.pending;
              },
            )))

-- `delEvent` under the lock of its context.
unfoldable pub del_event_locked : Event → Bool → View → Outcome (Bool × View)
unfolding get_context put_context
del_event_locked event ctl_ok v =
    if not ctl_ok
    then ok (false, v)
    else (get_context event v.context >>= λ e. ok (
      true,
      record v {
        context = record (put_context event null_context v.context) {
          events = without_event v.context.events event;
        };
        pending = one_less v.pending;
      },
    ))

-- `delEvent` on its context, where nothing comes between the test and the lock.
unfoldable pub del_event_on : Event → Bool → View → Outcome (Bool × View)
unfolding del_event_locked
del_event_on event ctl_ok v =
    if not (has_event v.context.events event)
    then ok (false, v)
    else del_event_locked event ctl_ok v

-- `cancelEvent`, likewise.
unfoldable pub cancel_event_locked : Event → Bool → View → Outcome (Bool × View)
cancel_event_locked event ctl_ok v =
    if not ctl_ok then ok (false, v) else settle event v >>= λ v'. ok (true, v')

unfoldable pub cancel_event_on : Event → Bool → View → Outcome (Bool × View)
unfolding cancel_event_locked
cancel_event_on event ctl_ok v =
    if not (has_event v.context.events event)
    then ok (false, v)
    else cancel_event_locked event ctl_ok v

-- `cancelAll`, likewise. The second test triggers READ, as the code does.
unfoldable pub cancel_all_locked : Bool → View → Outcome (Bool × View)
cancel_all_locked ctl_ok v =
    if not ctl_ok
    then ok (false, v)
    else (if has_event v.context.events read then settle read v else ok v) >>= λ v'.
        (if has_event v'.context.events write then settle read v' else ok v') >>= λ v''.
        ok (true, v'')

unfoldable pub cancel_all_on : Bool → View → Outcome (Bool × View)
unfolding cancel_all_locked
cancel_all_on ctl_ok v =
    if not (any_event v.context.events) then ok (false, v) else cancel_all_locked ctl_ok v
