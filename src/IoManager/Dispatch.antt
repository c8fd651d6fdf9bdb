-- ===== src/IoManager/Dispatch.antt =====
-- `addEvent` of civan/iomanager.cc on a context, and the body of the loop of `idle`.
use civan.Common.{
  ℕ, ◌≡◌, ◌≢◌, refl, ◌∙◌, List, Option, none, some, Bool, true, false, not, ◌&&◌, ◌||◌,
  if◌then◌else◌,
}
use civan.Common.Outcome.{Outcome, ok, assert_failed, ◌>>=◌}
use civan.IoManager.State.{
  Event, no_event, read, write, has_event, with_event, EventContext, Task, run_cb, resume_fiber,
  View, get_context, put_context, one_more, settle, add_event_on,
}
use civan.IoManager.Table.{dispatch_on}
use civan.IoManager.Pending.{
  waiting, Slot, idle, armed, IsConsistent, resumed, resumed-IsConsistent, settle_then, by_test,
  if_ok, done,
}

-- The task that `addEvent` asks for: its callback, or the fiber that runs.
abbrev pub wanted : Option ℕ → ℕ → Task
wanted none fiber = resume_fiber fiber
wanted (some c) fiber = run_cb c

-- An event put on, with its task.
abbrev pub awaited : Event → ℕ → Task → View → View
awaited no_event s t v = v
awaited read s t v = record v {
  context = record v.context { reader = waiting s t; events = with_event v.context.events read };
  pending = one_more v.pending;
}
awaited write s t v = record v {
  context = record v.context { writer = waiting s t; events = with_event v.context.events write };
  pending = one_more v.pending;
}

fields : EventContext → EventContext → Bool → Bool → ℕ → List (ℕ × Task) → View
fields r w br bw p q = record {
  context = record { reader = r; writer = w; events = record { reads = br; writes = bw } };
  pending = p;
  scheduled = q;
}

abbrev added : Event → Option ℕ → Bool → ℕ → ℕ → View → Outcome (Bool × View)
added event cb ctl_ok self fiber v =
    if has_event v.context.events event
    then assert_failed
    else if ctl_ok
    then ok (true, awaited event self (wanted cb fiber) v)
    else ok (false, v)

add_fields :
    (event : Event) (cb : Option ℕ) (ctl_ok : Bool) (self fiber : ℕ) (r w : EventContext)
    (br bw : Bool) (p : ℕ) (q : List (ℕ × Task))
    → event ≢ no_event
    → Slot br r
    → Slot bw w
    → add_event_on event cb ctl_ok (some self) fiber (fields r w br bw p q)
      ≡ added event cb ctl_ok self fiber (fields r w br bw p q)
unfolding add_event_on get_context put_context fields
add_fields no_event cb ctl_ok self fiber r w br bw p q ne sr sw = absurd (ne refl)
add_fields read none true self fiber r w br bw p q ne idle sw = refl
add_fields read (some c) true self fiber r w br bw p q ne idle sw = refl
add_fields read cb false self fiber r w br bw p q ne idle sw = refl
add_fields read cb ctl_ok self fiber r w br bw p q ne (armed s t) sw = refl
add_fields write none true self fiber r w br bw p q ne sr idle = refl
add_fields write (some c) true self fiber r w br bw p q ne sr idle = refl
add_fields write cb false self fiber r w br bw p q ne sr idle = refl
add_fields write cb ctl_ok self fiber r w br bw p q ne sr (armed s t) = refl

-- Every branch of `addEvent` for READ or WRITE on a context that agrees with its flags: an event that
-- is registered fails the assertion, -1 changes nothing, and otherwise the event is registered with
-- its task. The other assertions hold.
pub add_event_on_lem :
    (event : Event) (cb : Option ℕ) (ctl_ok : Bool) (self fiber : ℕ) (v : View)
    → event ≢ no_event
    → IsConsistent v.context
    → add_event_on event cb ctl_ok (some self) fiber v ≡ (
        if has_event v.context.events event
        then assert_failed
        else if ctl_ok
        then ok (true, awaited event self (wanted cb fiber) v)
        else ok (false, v))
unfolding fields
add_event_on_lem event cb ctl_ok self fiber v ne k =
    add_fields event cb ctl_ok self fiber v.context.reader v.context.writer v.context.events.reads
      v.context.events.writes v.pending v.scheduled ne k.reads_ok k.writes_ok

-- The events that a report wakes up, of those that are registered.
abbrev pub woken : Bool → View → View
woken true v = resumed read v
woken false v = v

abbrev pub woken_write : Bool → View → View
woken_write true v = resumed write v
woken_write false v = v

dispatch_registered :
    (r w ctl_ok : Bool) (v : View)
    → IsConsistent v.context
    → (r ≡ true → v.context.events.reads ≡ true)
    → (w ≡ true → v.context.events.writes ≡ true)
    → ◌≡◌ {A = Outcome (Bool × View)}
        (if not (r || w)
          then ok (false, v)
          else if not ctl_ok
          then ok (false, v)
          else (if r then settle read v else ok v) >>= λ v'.
              (if w then settle write v' else ok v') >>= done)
        (ok (if (r || w) && ctl_ok then (true, woken_write w (woken r v)) else (false, v)))
dispatch_registered true w ctl_ok v k hr hw =
    by_test ctl_ok _ _ _ (λ h. settle_then read v rest k (hr refl) ∙ second w hw) ∙ if_ok ctl_ok _ _
  where
    rest : View → Outcome (Bool × View)
    rest v' = (if w then settle write v' else ok v') >>= done

    second :
        (b : Bool)
        → (b ≡ true → v.context.events.writes ≡ true)
        → ((if b then settle write (resumed read v) else ok (resumed read v)) >>= done)
          ≡ done (woken_write b (resumed read v))
    second true h = settle_then write (resumed read v) done (resumed-IsConsistent read v k) (h refl)
    second false h = refl
dispatch_registered false true ctl_ok v k hr hw =
    by_test ctl_ok _ _ _ (λ h. settle_then write v done k (hw refl)) ∙ if_ok ctl_ok _ _
dispatch_registered false false ctl_ok v k hr hw = refl

-- The test of the loop, where what is reported is registered.
test_registered :
    (br bw r w : Bool)
    → (r ≡ true → br ≡ true)
    → (w ≡ true → bw ≡ true)
    → (br && r || bw && w) ≡ (r || w)
test_registered br bw true true hr hw = simp (hr refl)
test_registered br bw true false hr hw = simp (hr refl)
test_registered br bw false true hr hw = rw (hw refl) (right_on br)
  where
    right_on : (b : Bool) → (b && false || true) ≡ true
    right_on true = refl
    right_on false = refl
test_registered br bw false false hr hw = both_off br bw
  where
    both_off : (a b : Bool) → (a && false || b && false) ≡ false
    both_off true true = refl
    both_off true false = refl
    both_off false true = refl
    both_off false false = refl

reported : (a failed b : Bool) → (a ≡ true → b ≡ true) → (a || failed && b) ≡ true → b ≡ true
reported true failed b h e = h refl
reported false true b h e = e
reported false false b h e = cc

-- The body of the loop on a context that agrees with its flags, for a report with no more than what
-- is registered: no assertion fails, and what is reported (both events on an error) is triggered.
pub dispatch_on_lem :
    (input output failed ctl_ok : Bool) (v : View)
    → IsConsistent v.context
    → (input ≡ true → v.context.events.reads ≡ true)
    → (output ≡ true → v.context.events.writes ≡ true)
    → let reads = input || failed && v.context.events.reads in
      let writes = output || failed && v.context.events.writes in
      dispatch_on input output failed ctl_ok v
      ≡ ok (
          if (reads || writes) && ctl_ok
          then (true, woken_write writes (woken reads v))
          else (false, v))
unfolding dispatch_on
dispatch_on_lem input output failed ctl_ok v k i o =
    let reads = input || failed && v.context.events.reads in
    let writes = output || failed && v.context.events.writes in
    let r = reported input failed v.context.events.reads i in
    let w = reported output failed v.context.events.writes o in
    rw (test_registered v.context.events.reads v.context.events.writes reads writes r w)
      (dispatch_registered reads writes ctl_ok v k r w)
