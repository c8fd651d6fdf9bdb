-- ===== src/IoManager/Calls.antt =====
-- Calls of civan/iomanager.cc one after the other.
use civan.Common.{
  ℕ, zero, suc, ◌*◌, ◌/◌, ◌^◌, ◌<◌, ◌≡◌, ◌≢◌, refl, ap, sym, ◌∙◌, List, [], ◌∷◌, ◌++◌, Option, some,
  Bool, true, false, ◌&&◌, arith, ltb, leb, if◌then◌else◌, length, get_elem?, set,
  get_elem?-set_self,
}
use civan.Common.Outcome.{Outcome, ok, assert_failed, ◌>>=◌}
use civan.IoManager.State.{
  Event, no_event, read, write, has_event, FdContext, EventContext, null_context, Task, run_cb,
  resume_fiber, IoManager, View, one_more, one_less, any_event, add_event_on, cancel_event_on,
  cancel_all_on,
}
use civan.IoManager.Table.{
  context_resize, view, put_view, store, with_context, if_known, add_event, cancel_event,
  cancel_all,
}
use civan.IoManager.Pending.{
  waiting, Slot, idle, armed, IsConsistent, task_of, resumed, cancel_event_on_lem,
  cancel_all_on_lem,
}
use civan.IoManager.Dispatch.{wanted, awaited, add_event_on_lem}
use civan.IoManager.Contexts.{get-IsConsistent}
use civan.IoManager.Invariant.{Reached, Reached-IsValid}

get-length :
    (cs : List FdContext) (fd : ℕ) (c : FdContext) → get_elem? cs fd ≡ some c → fd < length cs
get-length [] fd c e = cc
get-length (x ∷ cs) zero c e = omega arith
get-length (x ∷ cs) (suc fd) c e = omega (arith, get-length cs fd c e)

-- A call on a descriptor of the table is the operation on its context.
if_known_lem :
    (fd : ℕ) (op : View → Outcome (Bool × View)) (m : IoManager) (c : FdContext)
    → get_elem? m.contexts fd ≡ some c
    → if_known fd op m ≡ (op (view c m) >>= store fd m)
unfolding with_context
if_known_lem fd op m c e = go (leb (length m.contexts) fd) refl
  where
    go :
        (t : Bool)
        → leb (length m.contexts) fd ≡ t
        → (if t then ok (false, m) else with_context fd op m) ≡ (op (view c m) >>= store fd m)
    go true h = absurd (ground (arith, h, get-length m.contexts fd c e))
    go false h = rw (e, with_context) refl

-- In every manager that calls lead to, `cancelAll` of a descriptor with WRITE registered fails an
-- assertion when `epoll_ctl` succeeds. With READ alone it queues the task of READ and takes the
-- event off.
pub cancel_all-Reached :
    (fd : ℕ) (m : IoManager) (c : FdContext)
    → Reached m
    → get_elem? m.contexts fd ≡ some c
    → any_event c.events ≡ true
    → cancel_all fd true m ≡ (
        if c.events.writes
        then assert_failed
        else ok (true, put_view fd (resumed read (view c m)) m))
unfolding cancel_all
cancel_all-Reached fd m c r e any =
    if_known_lem fd (cancel_all_on true) m c e
    ∙ ap (λ o. o >>= store fd m)
        (cancel_all_on_lem true (view c m)
          (get-IsConsistent m.contexts fd c (Reached-IsValid m r).consistent e))
    ∙ go (any_event c.events) any c.events.writes
  where
    go :
        (a : Bool)
        → a ≡ true
        → (w : Bool)
        → ((if a && true
              then (if w then assert_failed else ok (true, resumed read (view c m)))
              else ok (false, view c m))
            >>= store fd m)
          ≡ (if w then assert_failed else ok (true, put_view fd (resumed read (view c m)) m))
    go true h true = refl
    go true h false = refl
    go false h w = cc

set_back :
    (cs : List FdContext) (fd : ℕ) (c x : FdContext)
    → get_elem? cs fd ≡ some x
    → set (set cs fd c) fd x ≡ cs
set_back [] fd c x e = cc
set_back (y ∷ cs) zero c x e = cc
set_back (y ∷ cs) (suc fd) c x e = ap (λ ds. y ∷ ds) (set_back cs fd c x e)

awaited-IsConsistent :
    (event : Event) (s : ℕ) (t : Task) (v : View)
    → IsConsistent v.context
    → IsConsistent (awaited event s t v).context
awaited-IsConsistent no_event s t v k = k
awaited-IsConsistent read s t v k = record { reads_ok = armed s t; writes_ok = k.writes_ok }
awaited-IsConsistent write s t v k = record { reads_ok = k.reads_ok; writes_ok = armed s t }

has-awaited :
    (event : Event) (s : ℕ) (t : Task) (v : View)
    → event ≢ no_event
    → has_event (awaited event s t v).context.events event ≡ true
has-awaited no_event s t v ne = absurd (ne refl)
has-awaited read s t v ne = refl
has-awaited write s t v ne = refl

idle_lem : (b : Bool) (e : EventContext) → Slot b e → b ≡ false → (b ≡ false) × (e ≡ null_context)
idle_lem b e idle h = (refl, refl)
idle_lem b e (armed s t) h = cc

-- Putting an event on and triggering it leaves what there was, and its task.
resumed-awaited :
    (event : Event) (s : ℕ) (t : Task) (v : View)
    → event ≢ no_event
    → IsConsistent v.context
    → v.pending < 2 ^ 64
    → has_event v.context.events event ≡ false
    → resumed event (awaited event s t v) ≡ record v { scheduled = v.scheduled ++ (s, t) ∷ [] }
resumed-awaited no_event s t v ne k lt h = absurd (ne refl)
resumed-awaited read s t v ne k lt h =
    let (b, e) = idle_lem v.context.events.reads v.context.reader k.reads_ok h in
    λ i. record {
      context = record {
        reader = sym e i;
        writer = v.context.writer;
        events = record { reads = sym b i; writes = v.context.events.writes };
      };
      pending = there_and_back v.pending lt i;
      scheduled = v.scheduled ++ task_waiting s t i;
    }
  where
    there_and_back : (p : ℕ) → p < 2 ^ 64 → one_less (one_more p) ≡ p
    there_and_back p l = omega arith

    task_waiting : (s : ℕ) (t : Task) → task_of (waiting s t) ≡ (s, t) ∷ []
    task_waiting s (run_cb c) = refl
    task_waiting s (resume_fiber f) = refl
resumed-awaited write s t v ne k lt h =
    let (b, e) = idle_lem v.context.events.writes v.context.writer k.writes_ok h in
    λ i. record {
      context = record {
        reader = v.context.reader;
        writer = sym e i;
        events = record { reads = v.context.events.reads; writes = sym b i };
      };
      pending = there_and_back v.pending lt i;
      scheduled = v.scheduled ++ task_waiting s t i;
    }
  where
    there_and_back : (p : ℕ) → p < 2 ^ 64 → one_less (one_more p) ≡ p
    there_and_back p l = omega arith

    task_waiting : (s : ℕ) (t : Task) → task_of (waiting s t) ≡ (s, t) ∷ []
    task_waiting s (run_cb c) = refl
    task_waiting s (resume_fiber f) = refl

add_event_known :
    (fd : ℕ) (event : Event) (cb : Option ℕ) (self fiber : ℕ) (m : IoManager) (c : FdContext)
    → event ≢ no_event
    → IsConsistent c
    → get_elem? m.contexts fd ≡ some c
    → has_event c.events event ≡ false
    → add_event fd event cb true (some self) fiber m
      ≡ ok (true, put_view fd (awaited event self (wanted cb fiber) (view c m)) m)
unfolding add_event with_context
add_event_known fd event cb self fiber m c ne k e off = go (ltb fd (length m.contexts)) refl
  where
    on :
        (b : Bool)
        → b ≡ false
        → ◌≡◌ {A = Outcome (Bool × View)}
            (if b
              then assert_failed
              else ok (true, awaited event self (wanted cb fiber) (view c m)))
            (ok (true, awaited event self (wanted cb fiber) (view c m)))
    on true h = cc
    on false h = refl

    go :
        (t : Bool)
        → ltb fd (length m.contexts) ≡ t
        → with_context fd
            (add_event_on event cb true (some self) fiber)
            (if t then m else record m { contexts = context_resize (fd * 3 / 2) m.contexts })
          ≡ ok (true, put_view fd (awaited event self (wanted cb fiber) (view c m)) m)
    go false h = absurd (ground (arith, h, get-length m.contexts fd c e))
    go true h =
        rw (e, with_context) refl
        ∙ ap (λ o. o >>= store fd m)
            (add_event_on_lem event cb true self fiber (view c m) ne k
              ∙ on (has_event c.events event) off)

cancel_event_known :
    (fd : ℕ) (event : Event) (m : IoManager) (c : FdContext)
    → IsConsistent c
    → get_elem? m.contexts fd ≡ some c
    → has_event c.events event ≡ true
    → cancel_event fd event true m ≡ ok (true, put_view fd (resumed event (view c m)) m)
unfolding cancel_event
cancel_event_known fd event m c k e on =
    if_known_lem fd (cancel_event_on event true) m c e
    ∙ ap (λ o. o >>= store fd m) (cancel_event_on_lem event true (view c m) k)
    ∙ go (has_event c.events event) on
  where
    go :
        (b : Bool)
        → b ≡ true
        → (◌>>=◌ {A = Bool × View}
            (ok (if b && true then (true, resumed event (view c m)) else (false, view c m)))
            (store fd m))
          ≡ ok (true, put_view fd (resumed event (view c m)) m)
    go true h = refl
    go false h = cc

-- `addEvent` of READ or WRITE on a known descriptor, followed by `cancelEvent`, where `epoll_ctl`
-- succeeds and the event was not registered: both succeed, and the manager is as before, but that
-- the task of the event is queued, once, on the scheduler of the caller.
pub cancel_event-add_event :
    (fd : ℕ) (event : Event) (cb : Option ℕ) (self fiber : ℕ) (m : IoManager) (c : FdContext)
    → Reached m
    → event ≢ no_event
    → get_elem? m.contexts fd ≡ some c
    → has_event c.events event ≡ false
    → (add_event fd event cb true (some self) fiber m >>= λ (d, m'). cancel_event fd event true m')
      ≡ ok (true, record m { scheduled = m.scheduled ++ (self, wanted cb fiber) ∷ [] })
cancel_event-add_event fd event cb self fiber m c r ne e off =
    let k = get-IsConsistent m.contexts fd c (Reached-IsValid m r).consistent e in
    let v = awaited event self (wanted cb fiber) (view c m) in
    let bound : m.pending < 2 ^ 64 = omega (arith, (Reached-IsValid m r).counted) in
    let whole = resumed-awaited event self (wanted cb fiber) (view c m) ne k bound off in
    ap (λ o. o >>= λ (d, m'). cancel_event fd event true m')
      (add_event_known fd event cb self fiber m c ne k e off)
    ∙ cancel_event_known fd event (put_view fd v m) v.context
        (awaited-IsConsistent event self (wanted cb fiber) (view c m) k)
        (get_elem?-set_self m.contexts fd v.context (get-length m.contexts fd c e))
        (has-awaited event self (wanted cb fiber) (view c m) ne)
    ∙ (λ i. ok (true, put_view fd (whole i) (put_view fd v m)))
    ∙ (λ i. ok (
      true,
      record m {
        contexts = set_back m.contexts fd v.context c e i;
        scheduled = m.scheduled ++ (self, wanted cb fiber) ∷ [];
      },
    ))
