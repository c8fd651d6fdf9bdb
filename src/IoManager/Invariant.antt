-- ===== src/IoManager/Invariant.antt =====
-- The table of descriptors of civan/iomanager.cc stays in order, whatever calls are made.
use civan.Common.{
  ℕ, ◌*◌, ◌/◌, ◌≡◌, refl, ap, sym, subst, ◌∙◌, [], Option, some, Bool, true, false, not, arith, ltb,
  if◌then◌else◌, length, get_elem?,
}
use civan.Common.Outcome.{Outcome, ok, ◌>>=◌}
use civan.IoManager.State.{
  Event, FdContext, IoManager, add_event_on, del_event_on, cancel_event_on, cancel_all_on,
  del_event_locked, cancel_event_locked, cancel_all_locked, has_event,
}
use civan.IoManager.Table.{
  context_resize, view, store, with_context, add_event, del_event, cancel_event, cancel_all, Report,
  tickled, ready, dispatch_on, dispatch_one,
}
use civan.IoManager.Late.{cancel_event_locked-Keeps, cancel_all_locked-Keeps}
use civan.IoManager.Counted.{
  add_event_on-Keeps, del_event_on-Keeps, cancel_event_on-Keeps, cancel_all_on-Keeps,
  dispatch_on-Keeps,
}
use civan.IoManager.Contexts.{
  IsValid, with_context-IsValid, resize-IsValid, if_known-IsValid, known,
}

add_event-IsValid :
    (fd : ℕ) (event : Event) (cb : Option ℕ) (ctl_ok : Bool) (self fiber : ℕ) (m : IoManager)
    → IsValid m
    → (b : Bool) (m' : IoManager) → add_event fd event cb ctl_ok (some self) fiber m ≡ ok (b, m')
    → IsValid m'
unfolding add_event
add_event-IsValid fd event cb ctl_ok self fiber m v b m' e =
    with_context-IsValid fd (add_event_on event cb ctl_ok (some self) fiber) _
      (add_event_on-Keeps event cb ctl_ok self fiber) (go (ltb fd (length m.contexts)) refl) b m' e
  where
    go :
        (t : Bool)
        → ltb fd (length m.contexts) ≡ t
        → IsValid (if t then m else record m { contexts = context_resize (fd * 3 / 2) m.contexts })
    go true h = v
    go false h = resize-IsValid (fd * 3 / 2) m (ground (arith, h)) v

-- A manager with its table of 64 contexts.
abbrev pub new_manager : IoManager
new_manager = record { contexts = context_resize 64 []; pending = 0; scheduled = [] }

-- The managers that calls can lead to, in any order and with any answers of the system, where the caller
-- of `addEvent` has a scheduler. `delEvent`, `cancelEvent` and `cancelAll` may find the flags as they
-- tested them, or be `late`: other calls come between their test and their lock. A late `delEvent` is
-- here only if its event is still registered, or is again, when it takes the lock.
pub data Reached : IoManager → Type 0 where
  started : Reached new_manager
  adds :
      {m m' : IoManager} {b : Bool} (fd : ℕ) (event : Event) (cb : Option ℕ) (ctl_ok : Bool)
      (self fiber : ℕ)
      → Reached m
      → add_event fd event cb ctl_ok (some self) fiber m ≡ ok (b, m')
      → Reached m'
  deletes :
      {m m' : IoManager} {b : Bool} (fd : ℕ) (event : Event) (ctl_ok : Bool)
      → Reached m
      → del_event fd event ctl_ok m ≡ ok (b, m')
      → Reached m'
  cancels :
      {m m' : IoManager} {b : Bool} (fd : ℕ) (event : Event) (ctl_ok : Bool)
      → Reached m
      → cancel_event fd event ctl_ok m ≡ ok (b, m')
      → Reached m'
  cancels_all :
      {m m' : IoManager} {b : Bool} (fd : ℕ) (ctl_ok : Bool)
      → Reached m
      → cancel_all fd ctl_ok m ≡ ok (b, m')
      → Reached m'
  deletes_late :
      {m m' : IoManager} {b : Bool} (fd : ℕ) (event : Event) (ctl_ok : Bool) (c : FdContext)
      → Reached m
      → get_elem? m.contexts fd ≡ some c
      → has_event c.events event ≡ true
      → with_context fd (del_event_locked event ctl_ok) m ≡ ok (b, m')
      → Reached m'
  cancels_late :
      {m m' : IoManager} {b : Bool} (fd : ℕ) (event : Event) (ctl_ok : Bool)
      → Reached m
      → with_context fd (cancel_event_locked event ctl_ok) m ≡ ok (b, m')
      → Reached m'
  cancels_all_late :
      {m m' : IoManager} {b : Bool} (fd : ℕ) (ctl_ok : Bool)
      → Reached m
      → with_context fd (cancel_all_locked ctl_ok) m ≡ ok (b, m')
      → Reached m'
  dispatches :
      {m m' : IoManager} {b : Bool} (r : Report)
      → Reached m
      → dispatch_one r m ≡ ok (b, m')
      → Reached m'

dispatch_one-IsValid :
    (r : Report) (m : IoManager)
    → IsValid m
    → (b : Bool) (m' : IoManager) → dispatch_one r m ≡ ok (b, m')
    → IsValid m'
unfolding dispatch_one
dispatch_one-IsValid tickled m v b m' e = subst IsValid (second e) v
  where
    second :
        {x y : Bool} {p q : IoManager}
        → ◌≡◌ {A = Outcome (Bool × IoManager)} (ok (x, p)) (ok (y, q))
        → p ≡ q
    second k = cc
dispatch_one-IsValid (ready fd input output failed ctl_ok) m v b m' e =
    with_context-IsValid fd (dispatch_on input output failed ctl_ok) m
      (dispatch_on-Keeps input output failed ctl_ok) v b m' e

-- A late `delEvent` of a registered event does what it would have done at once.
late_same :
    (fd : ℕ) (event : Event) (ctl_ok : Bool) (c : FdContext) (m : IoManager)
    → get_elem? m.contexts fd ≡ some c
    → has_event c.events event ≡ true
    → with_context fd (del_event_on event ctl_ok) m
      ≡ with_context fd (del_event_locked event ctl_ok) m
unfolding with_context del_event_on
late_same fd event ctl_ok c m found held =
    ap (λ o. known o fd (del_event_on event ctl_ok) m) found
    ∙ ap
        (λ h.
          (if not h then ok (false, view c m) else del_event_locked event ctl_ok (view c m))
          >>= store fd m)
        held
    ∙ sym (ap (λ o. known o fd (del_event_locked event ctl_ok) m) found)

pub Reached-IsValid : (m : IoManager) → Reached m → IsValid m
unfolding del_event cancel_event cancel_all
Reached-IsValid _ started =
    resize-IsValid 64 (record { contexts = []; pending = 0; scheduled = [] }) (omega arith)
      (record { consistent = tt; counted = refl })
Reached-IsValid m' (adds {m = m} {b = b} fd event cb ctl_ok self fiber r e) =
    add_event-IsValid fd event cb ctl_ok self fiber m (Reached-IsValid m r) b m' e
Reached-IsValid m' (deletes {m = m} {b = b} fd event ctl_ok r e) =
    if_known-IsValid fd (del_event_on event ctl_ok) m (del_event_on-Keeps event ctl_ok)
      (Reached-IsValid m r) b m' e
Reached-IsValid m' (cancels {m = m} {b = b} fd event ctl_ok r e) =
    if_known-IsValid fd (cancel_event_on event ctl_ok) m (cancel_event_on-Keeps event ctl_ok)
      (Reached-IsValid m r) b m' e
Reached-IsValid m' (cancels_all {m = m} {b = b} fd ctl_ok r e) =
    if_known-IsValid fd (cancel_all_on ctl_ok) m (cancel_all_on-Keeps ctl_ok) (Reached-IsValid m r)
      b m' e
Reached-IsValid m' (deletes_late {m = m} {b = b} fd event ctl_ok c r found held e) =
    with_context-IsValid fd (del_event_on event ctl_ok) m (del_event_on-Keeps event ctl_ok)
      (Reached-IsValid m r) b m' (late_same fd event ctl_ok c m found held ∙ e)
Reached-IsValid m' (cancels_late {m = m} {b = b} fd event ctl_ok r e) =
    with_context-IsValid fd (cancel_event_locked event ctl_ok) m
      (cancel_event_locked-Keeps event ctl_ok) (Reached-IsValid m r) b m' e
Reached-IsValid m' (cancels_all_late {m = m} {b = b} fd ctl_ok r e) =
    with_context-IsValid fd (cancel_all_locked ctl_ok) m (cancel_all_locked-Keeps ctl_ok)
      (Reached-IsValid m r) b m' e
Reached-IsValid m' (dispatches {m = m} {b = b} rp r e) =
    dispatch_one-IsValid rp m (Reached-IsValid m r) b m' e
