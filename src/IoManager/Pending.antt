-- ===== src/IoManager/Pending.antt =====
-- The operations of civan/iomanager.cc on one context: what each does where the context agrees with
-- its flags.
use civan.Common.{
  ℕ, ◌+◌, ◌≡◌, refl, ap, sym, subst, ◌∙◌, ◌⊎◌, inl, inr, List, [], ◌++◌, none, some, Bool, true,
  false, not, ◌&&◌, ◌||◌, if◌then◌else◌, Bool-cases,
}
use civan.Common.Outcome.{Outcome, ok, assert_failed, ◌>>=◌}
use civan.IoManager.State.{
  Event, no_event, read, write, has_event, without_event, any_event, EventContext, null_context,
  FdContext, Task, run_cb, resume_fiber, View, get_context, put_context, schedule, trigger_event,
  one_less, settle, del_event_on, cancel_event_on, cancel_all_on, del_event_locked,
  cancel_event_locked, cancel_all_locked,
}

-- The context of an event with something to run on a scheduler.
abbrev pub waiting : ℕ → Task → EventContext
waiting s (run_cb c) = record { scheduler = some s; fiber = none; cb = some c }
waiting s (resume_fiber f) = record { scheduler = some s; fiber = some f; cb = none }

-- The context of an event agrees with the flag for it.
pub data Slot : Bool → EventContext → Type 0 where
  idle : Slot false null_context
  armed : (s : ℕ) (t : Task) → Slot true (waiting s t)

-- Both contexts of a descriptor agree with its flags.
pub record IsConsistent (c : FdContext) : Type 0 where
  pub reads_ok : Slot c.events.reads c.reader
  pub writes_ok : Slot c.events.writes c.writer

abbrev pub bit : Bool → ℕ
bit true = 1
bit false = 0

-- How many events a descriptor has registered.
abbrev pub registered : FdContext → ℕ
registered c = bit c.events.reads + bit c.events.writes

-- The context of one event.
abbrev pub slot : Event → FdContext → EventContext
slot no_event c = null_context
slot read c = c.reader
slot write c = c.writer

-- What the context of an event hands to its scheduler.
abbrev pub task_of : EventContext → List (ℕ × Task)
task_of e = elim e.scheduler [ none ↦ [] | some s ↦ (schedule s e).0 ]

-- An event taken off, its context reset; and its task queued.
abbrev pub cleared : Event → View → View
cleared no_event v = v
cleared read v = record v {
  context = record v.context {
    reader = null_context;
    events = without_event v.context.events read;
  };
  pending = one_less v.pending;
}
cleared write v = record v {
  context = record v.context {
    writer = null_context;
    events = without_event v.context.events write;
  };
  pending = one_less v.pending;
}

abbrev pub resumed : Event → View → View
resumed event v = record (cleared event v) {
  scheduled = v.scheduled ++ task_of (slot event v.context);
}

-- A view by its fields.
abbrev fields : EventContext → EventContext → Bool → Bool → ℕ → List (ℕ × Task) → View
fields r w br bw p q = record {
  context = record { reader = r; writer = w; events = record { reads = br; writes = bw } };
  pending = p;
  scheduled = q;
}

settle-fields :
    (event : Event) (r w : EventContext) (br bw : Bool) (p : ℕ) (q : List (ℕ × Task))
    → Slot br r
    → Slot bw w
    → has_event (record { reads = br; writes = bw }) event ≡ true
    → settle event (fields r w br bw p q) ≡ ok (resumed event (fields r w br bw p q))
unfolding trigger_event get_context put_context
settle-fields no_event r w br bw p q sr sw h = cc
settle-fields read r w br bw p q idle sw h = cc
settle-fields read r w br bw p q (armed s (run_cb c)) sw h = refl
settle-fields read r w br bw p q (armed s (resume_fiber f)) sw h = refl
settle-fields write r w br bw p q sr idle h = cc
settle-fields write r w br bw p q sr (armed s (run_cb c)) h = refl
settle-fields write r w br bw p q sr (armed s (resume_fiber f)) h = refl

-- Where the contexts agree with the flags, triggering a registered event queues its task once, and
-- takes the event off with its context.
pub settle_lem :
    (event : Event) (v : View)
    → IsConsistent v.context
    → has_event v.context.events event ≡ true
    → settle event v ≡ ok (resumed event v)
settle_lem event v k h =
    settle-fields event v.context.reader v.context.writer v.context.events.reads
      v.context.events.writes v.pending v.scheduled k.reads_ok k.writes_ok h

-- Triggering an event that is not registered fails its assertion.
pub settle_unregistered :
    (event : Event) (v : View)
    → has_event v.context.events event ≡ false
    → settle event v ≡ assert_failed
unfolding trigger_event
settle_unregistered event v h = simp h

pub resumed-IsConsistent :
    (event : Event) (v : View) → IsConsistent v.context → IsConsistent (resumed event v).context
resumed-IsConsistent no_event v k = k
resumed-IsConsistent read v k = record { reads_ok = idle; writes_ok = k.writes_ok }
resumed-IsConsistent write v k = record { reads_ok = k.reads_ok; writes_ok = idle }

-- A chain that starts with an event that is triggered.
pub settle_then :
    {A : Type 0} (event : Event) (v : View) (f : View → Outcome A)
    → IsConsistent v.context
    → has_event v.context.events event ≡ true
    → (settle event v >>= f) ≡ f (resumed event v)
settle_then event v f k h = ap (λ o. o >>= f) (settle_lem event v k h)

pub by_test :
    {A : Type 0} (b : Bool) (x y z : A)
    → (b ≡ true → x ≡ z)
    → (if not b then y else x) ≡ (if b then z else y)
by_test true x y z h = h refl
by_test false x y z h = refl

pub by_tests :
    {A : Type 0} (b c : Bool) (x y z : A)
    → (b ≡ true → x ≡ z)
    → (if not b then y else if not c then y else x) ≡ (if b && c then z else y)
by_tests true c x y z h = by_test c x y z (λ e. h refl)
by_tests false c x y z h = refl

pub if_ok : {A : Type 0} (b : Bool) (x y : A) → (if b then ok x else ok y) ≡ ok (if b then x else y)
if_ok true x y = refl
if_ok false x y = refl

abbrev pub done : View → Outcome (Bool × View)
done v = ok (true, v)

-- Every branch of `cancelEvent` on a context that agrees with its flags: without the event, or where
-- `epoll_ctl` fails, it answers false and changes nothing, and otherwise the task is queued.
pub cancel_event_on_lem :
    (event : Event) (ctl_ok : Bool) (v : View)
    → IsConsistent v.context
    → cancel_event_on event ctl_ok v
      ≡ ok (
          if has_event v.context.events event && ctl_ok
          then (true, resumed event v)
          else (false, v))
unfolding cancel_event_on cancel_event_locked
cancel_event_on_lem event ctl_ok v k =
    by_tests (has_event v.context.events event) ctl_ok _ _ _ (λ h. settle_then event v done k h)
    ∙ if_ok (has_event v.context.events event && ctl_ok) _ _

-- Every branch of `delEvent` on a context: like `cancelEvent`, but the task is dropped.
pub del_event_on_lem :
    (event : Event) (ctl_ok : Bool) (v : View)
    → del_event_on event ctl_ok v
      ≡ ok (
          if has_event v.context.events event && ctl_ok
          then (true, cleared event v)
          else (false, v))
unfolding del_event_on del_event_locked get_context put_context
del_event_on_lem no_event ctl_ok v = refl
del_event_on_lem read ctl_ok v =
    by_tests v.context.events.reads ctl_ok _ _ _ (λ h. refl)
    ∙ if_ok (v.context.events.reads && ctl_ok) _ _
del_event_on_lem write ctl_ok v =
    by_tests v.context.events.writes ctl_ok _ _ _ (λ h. refl)
    ∙ if_ok (v.context.events.writes && ctl_ok) _ _

-- `cancelAll` on a context that agrees with its flags: where WRITE is registered it fails an
-- assertion, since it triggers READ in place of WRITE.
pub cancel_all_on_lem :
    (ctl_ok : Bool) (v : View)
    → IsConsistent v.context
    → cancel_all_on ctl_ok v ≡ (
        if any_event v.context.events && ctl_ok
        then (if v.context.events.writes then assert_failed else ok (true, resumed read v))
        else ok (false, v))
unfolding cancel_all_on cancel_all_locked
cancel_all_on_lem ctl_ok v k =
    by_tests (any_event v.context.events) ctl_ok _ _ _
      (λ any. go any (Bool-cases v.context.events.reads) (Bool-cases v.context.events.writes))
  where
    rest : View → Outcome (Bool × View)
    rest v' = (if v'.context.events.writes then settle read v' else ok v') >>= done

    first :
        v.context.events.reads ≡ true
        → ((if v.context.events.reads then settle read v else ok v) >>= rest)
          ≡ rest (resumed read v)
    first r =
        subst (λ b. ((if b then settle read v else ok v) >>= rest) ≡ rest (resumed read v)) (sym r)
          (settle_then read v rest k r)

    second :
        (u : View) (b : Bool)
        → u.context.events.reads ≡ false
        → ((if b then settle read u else ok u) >>= done)
          ≡ (if b then assert_failed else ok (true, u))
    second u true r = ap (λ o. o >>= done) (settle_unregistered read u r)
    second u false r = refl

    go :
        any_event v.context.events ≡ true
        → (v.context.events.reads ≡ true) ⊎ (v.context.events.reads ≡ false)
        → (v.context.events.writes ≡ true) ⊎ (v.context.events.writes ≡ false)
        → ((if v.context.events.reads then settle read v else ok v) >>= rest)
          ≡ (if v.context.events.writes then assert_failed else ok (true, resumed read v))
    go any (inl r) w = first r ∙ second (resumed read v) v.context.events.writes refl
    go any (inr r) (inl w) =
        subst
          (λ b.
            ((if b then settle read v else ok v) >>= rest)
            ≡ (if v.context.events.writes then assert_failed else ok (true, resumed read v)))
          (sym r)
          (second v v.context.events.writes r
            ∙ subst
                (λ b.
                  ◌≡◌ {A = Outcome (Bool × View)} (if b then assert_failed else ok (true, v))
                    (if b then assert_failed else ok (true, resumed read v)))
                (sym w) refl)
    go any (inr r) (inr w) = absurd (true_or_false (sym any ∙ (λ i. r i || w i)))
      where
        true_or_false : true ≡ false → ⊥
        true_or_false h = cc
