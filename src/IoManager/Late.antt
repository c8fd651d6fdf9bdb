-- ===== src/IoManager/Late.antt =====
-- What the calls of civan/iomanager.cc do under the lock of a context, after a test that may be out of date.
use civan.Common.{
  ◌≡◌, refl, sym, ap, ◌∙◌, subst, inl, inr, Bool, true, false, Bool-cases, if◌then◌else◌, ◌||◌,
}
use civan.Common.Outcome.{Outcome, ok, assert_failed, ◌>>=◌}
use civan.IoManager.State.{
  Event, View, has_event, any_event, read, write, settle, trigger_event, cancel_event_on,
  cancel_all_on, cancel_event_locked, cancel_all_locked,
}
use civan.IoManager.Counted.{IsCounted, Keeps, given, cancel_event_on-Keeps, cancel_all_on-Keeps}

not_triggered :
    (event : Event) (v : View)
    → has_event v.context.events event ≡ false
    → trigger_event event v ≡ assert_failed
unfolding trigger_event
not_triggered event v gone = rw gone refl

-- `cancelEvent` under the lock, whatever came between its test and the lock: an event that is gone fails
-- the assertion of `triggerEvent`.
pub cancel_event_locked-Keeps :
    (event : Event) (ctl_ok : Bool) → Keeps (cancel_event_locked event ctl_ok)
unfolding cancel_event_locked cancel_event_on
cancel_event_locked-Keeps event false n v k b v' e = subst (IsCounted n) (given e) k
cancel_event_locked-Keeps event true n v k b v' e =
    elim (Bool-cases (has_event v.context.events event)) [
      | inl held ↦ cancel_event_on-Keeps event true n v k b v' (rw held e)
      | inr gone ↦ absurd (refused (rw (not_triggered event v gone) at e))
    ]
  where
    refused : ◌≡◌ {A = Outcome (Bool × View)} assert_failed (ok (b, v')) → ⊥
    refused h = cc

-- With no event left `cancelAll` changes nothing under the lock.
nothing_left :
    (v : View)
    → v.context.events.reads ≡ false
    → v.context.events.writes ≡ false
    → cancel_all_locked true v ≡ ok (true, v)
unfolding cancel_all_locked
nothing_left v reads writes =
    ap
      (λ r. (if r then settle read v else ok v) >>= λ v'.
        (if has_event v'.context.events write then settle read v' else ok v') >>= λ v''.
        ok (true, v''))
      reads
    ∙ ap (λ w. (if w then settle read v else ok v) >>= λ v''. ok (true, v'')) writes

none_of : (a b : Bool) → (a || b) ≡ false → (a ≡ false) × (b ≡ false)
none_of false false h = (refl, refl)
none_of false true h = cc
none_of true b h = cc

pub cancel_all_locked-Keeps : (ctl_ok : Bool) → Keeps (cancel_all_locked ctl_ok)
unfolding cancel_all_on cancel_all_locked
cancel_all_locked-Keeps ctl_ok n v k b v' e = elim (Bool-cases (any_event v.context.events)) [
  | inl held ↦ cancel_all_on-Keeps ctl_ok n v k b v' (rw held e)
  | inr gone ↦
      let (reads, writes) = none_of v.context.events.reads v.context.events.writes gone in
      unchanged ctl_ok (nothing_left v reads writes) e
]
  where
    unchanged :
        (ctl : Bool)
        → cancel_all_locked true v ≡ ok (true, v)
        → cancel_all_locked ctl v ≡ ok (b, v')
        → IsCounted n v'
    unchanged false l h = subst (IsCounted n) (given h) k
    unchanged true l h = subst (IsCounted n) (given (sym l ∙ h)) k
