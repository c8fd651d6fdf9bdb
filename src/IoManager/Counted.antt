-- ===== src/IoManager/Counted.antt =====
-- The operations of civan/iomanager.cc on one context keep it in order, and with it the count of
-- pending events.
use civan.Common.{
  some, ℕ, ◌+◌, ◌%◌, ◌^◌, ◌≡◌, ◌≢◌, refl, sym, subst, ◌∙◌, inl, inr, Option, Bool, true, false, not,
  ◌&&◌, ◌||◌, arith, if◌then◌else◌, Bool-cases,
}
use civan.Common.Outcome.{Outcome, ok, assert_failed, ◌>>=◌, >>=-eq-ok}
use civan.IoManager.State.{
  Event, no_event, read, write, has_event, Task, View, one_more, one_less, any_event, settle,
  get_context, add_event_on, del_event_on, cancel_event_on, cancel_all_on, cancel_all_locked,
}
use civan.IoManager.Table.{dispatch_on}
use civan.IoManager.Pending.{
  armed, IsConsistent, bit, registered, cleared, resumed, resumed-IsConsistent, settle_lem,
  settle_unregistered, done, cancel_event_on_lem, del_event_on_lem,
}
use civan.IoManager.Dispatch.{wanted, awaited, add_event_on_lem}

-- The part of the table that a call on one context keeps, with `n` events in the other contexts.
pub record IsCounted (n : ℕ) (v : View) : Type 0 where
  pub consistent : IsConsistent v.context
  pub counted : v.pending ≡ (registered v.context + n) % 2 ^ 64

-- An operation on a context keeps it in order when it returns.
abbrev pub Keeps : (View → Outcome (Bool × View)) → Type 0
Keeps op =
    (n : ℕ) (v : View) → IsCounted n v → (b : Bool) (v' : View) → op v ≡ ok (b, v') → IsCounted n v'

-- What a call returns.
pub given :
    {x y : Bool} {p q : View} → ◌≡◌ {A = Outcome (Bool × View)} (ok (x, p)) (ok (y, q)) → p ≡ q
given h = cc

resumed_count :
    (event : Event) (n : ℕ) (v : View)
    → has_event v.context.events event ≡ true
    → v.pending ≡ (registered v.context + n) % 2 ^ 64
    → (resumed event v).pending ≡ (registered (resumed event v).context + n) % 2 ^ 64
resumed_count no_event n v h k = cc
resumed_count read n v h k = count v.context.events.reads (bit v.context.events.writes) h k
  where
    count :
        (b : Bool) (o : ℕ)
        → b ≡ true
        → v.pending ≡ (bit b + o + n) % 2 ^ 64
        → one_less v.pending ≡ (0 + o + n) % 2 ^ 64
    count true o h k = omega (arith, k)
    count false o h k = cc
resumed_count write n v h k = count v.context.events.writes (bit v.context.events.reads) h k
  where
    count :
        (b : Bool) (o : ℕ)
        → b ≡ true
        → v.pending ≡ (o + bit b + n) % 2 ^ 64
        → one_less v.pending ≡ (o + 0 + n) % 2 ^ 64
    count true o h k = omega (arith, k)
    count false o h k = cc

pub resumed-IsCounted :
    (event : Event) (n : ℕ) (v : View)
    → has_event v.context.events event ≡ true
    → IsCounted n v
    → IsCounted n (resumed event v)
resumed-IsCounted event n v h k = record {
  consistent = resumed-IsConsistent event v k.consistent;
  counted = resumed_count event n v h k.counted;
}

cleared-IsCounted :
    (event : Event) (n : ℕ) (v : View)
    → has_event v.context.events event ≡ true
    → IsCounted n v
    → IsCounted n (cleared event v)
cleared-IsCounted no_event n v h k = k
cleared-IsCounted read n v h k = record {
  consistent = resumed-IsConsistent read v k.consistent;
  counted = resumed_count read n v h k.counted;
}
cleared-IsCounted write n v h k = record {
  consistent = resumed-IsConsistent write v k.consistent;
  counted = resumed_count write n v h k.counted;
}

-- An operation that changes a context as `f` does where its tests hold.
keeps_if :
    (n : ℕ) (v u : View) (has ctl_ok b : Bool) (v' : View)
    → IsCounted n v
    → (has ≡ true → IsCounted n u)
    → ◌≡◌ {A = Outcome (Bool × View)}
        (ok (if has && ctl_ok then (true, u) else (false, v)))
        (ok (b, v'))
    → IsCounted n v'
keeps_if n v u true true b v' k f e = subst (IsCounted n) (given e) (f refl)
keeps_if n v u true false b v' k f e = subst (IsCounted n) (given e) k
keeps_if n v u false ctl_ok b v' k f e = subst (IsCounted n) (given e) k

pub cancel_event_on-Keeps : (event : Event) (ctl_ok : Bool) → Keeps (cancel_event_on event ctl_ok)
cancel_event_on-Keeps event ctl_ok n v k b v' e =
    keeps_if n v (resumed event v) (has_event v.context.events event) ctl_ok b v' k
      (λ h. resumed-IsCounted event n v h k)
      (sym (cancel_event_on_lem event ctl_ok v k.consistent) ∙ e)

pub del_event_on-Keeps : (event : Event) (ctl_ok : Bool) → Keeps (del_event_on event ctl_ok)
del_event_on-Keeps event ctl_ok n v k b v' e =
    keeps_if n v (cleared event v) (has_event v.context.events event) ctl_ok b v' k
      (λ h. cleared-IsCounted event n v h k) (sym (del_event_on_lem event ctl_ok v) ∙ e)

-- What holds of an operation that goes through a chain.
settle-IsCounted :
    (event : Event) (n : ℕ) (v v' : View) → IsCounted n v → settle event v ≡ ok v' → IsCounted n v'
settle-IsCounted event n v v' k e = elim (Bool-cases (has_event v.context.events event)) [
  | inl has ↦
      subst (IsCounted n) (given_view (sym (settle_lem event v k.consistent has) ∙ e))
        (resumed-IsCounted event n v has k)
  | inr off ↦ failed (sym (settle_unregistered event v off) ∙ e)
]
  where
    given_view : {p q : View} → ok p ≡ ok q → p ≡ q
    given_view h = cc

    failed : assert_failed ≡ ok v' → IsCounted n v'
    failed h = cc

settle_if-IsCounted :
    (b : Bool) (event : Event) (n : ℕ) (v v' : View)
    → IsCounted n v
    → (if b then settle event v else ok v) ≡ ok v'
    → IsCounted n v'
settle_if-IsCounted true event n v v' k e = settle-IsCounted event n v v' k e
settle_if-IsCounted false event n v v' k e = subst (IsCounted n) (given_view e) k
  where
    given_view : {p q : View} → ok p ≡ ok q → p ≡ q
    given_view h = cc

-- Two triggers behind two tests.
settle_both :
    (first : Bool) (second : View → Bool) (e1 e2 : Event) (n : ℕ) (v : View)
    → IsCounted n v
    → (b : Bool) (v' : View)
    → ((if first then settle e1 v else ok v) >>= λ u.
        (if second u then settle e2 u else ok u) >>= done)
      ≡ ok (b, v')
    → IsCounted n v'
settle_both first second e1 e2 n v k b v' e =
    let (u, p, q) =
      >>=-eq-ok (if first then settle e1 v else ok v)
        (λ u. (if second u then settle e2 u else ok u) >>= done) e in
    let (u', p', q') = >>=-eq-ok (if second u then settle e2 u else ok u) done q in
    subst (IsCounted n) (given q')
      (settle_if-IsCounted (second u) e2 n u u' (settle_if-IsCounted first e1 n v u k p) p')

-- Two tests that give up.
guarded :
    (x y : Bool) (n : ℕ) (v : View) (o : Outcome (Bool × View))
    → IsCounted n v
    → (b : Bool) (v' : View) → (o ≡ ok (b, v') → IsCounted n v')
    → (if not x then ok (false, v) else if not y then ok (false, v) else o) ≡ ok (b, v')
    → IsCounted n v'
guarded true true n v o k b v' f e = f e
guarded true false n v o k b v' f e = subst (IsCounted n) (given e) k
guarded false y n v o k b v' f e = subst (IsCounted n) (given e) k

pub cancel_all_on-Keeps : (ctl_ok : Bool) → Keeps (cancel_all_on ctl_ok)
unfolding cancel_all_on cancel_all_locked
cancel_all_on-Keeps ctl_ok n v k b v' e =
    guarded (any_event v.context.events) ctl_ok n v _ k b v'
      (settle_both v.context.events.reads (λ u. u.context.events.writes) read read n v k b v') e

pub dispatch_on-Keeps :
    (input output failed ctl_ok : Bool) → Keeps (dispatch_on input output failed ctl_ok)
unfolding dispatch_on
dispatch_on-Keeps input output failed ctl_ok n v k b v' e =
    let reads = input || failed && v.context.events.reads in
    let writes = output || failed && v.context.events.writes in
    guarded (v.context.events.reads && reads || v.context.events.writes && writes) ctl_ok n v _ k b
      v' (settle_both reads (λ u. writes) read write n v k b v') e

awaited-IsCounted :
    (event : Event) (s : ℕ) (t : Task) (n : ℕ) (v : View)
    → has_event v.context.events event ≡ false
    → IsCounted n v
    → IsCounted n (awaited event s t v)
awaited-IsCounted no_event s t n v h k = k
awaited-IsCounted read s t n v h k = record {
  consistent = record { reads_ok = armed s t; writes_ok = k.consistent.writes_ok };
  counted = count v.context.events.reads (bit v.context.events.writes) h k.counted;
}
  where
    count :
        (b : Bool) (o : ℕ)
        → b ≡ false
        → v.pending ≡ (bit b + o + n) % 2 ^ 64
        → one_more v.pending ≡ (1 + o + n) % 2 ^ 64
    count true o h k = cc
    count false o h k = omega (arith, k)
awaited-IsCounted write s t n v h k = record {
  consistent = record { reads_ok = k.consistent.reads_ok; writes_ok = armed s t };
  counted = count v.context.events.writes (bit v.context.events.reads) h k.counted;
}
  where
    count :
        (b : Bool) (o : ℕ)
        → b ≡ false
        → v.pending ≡ (o + bit b + n) % 2 ^ 64
        → one_more v.pending ≡ (o + 1 + n) % 2 ^ 64
    count true o h k = cc
    count false o h k = omega (arith, k)

added_event :
    (event : Event) (cb : Option ℕ) (ctl_ok : Bool) (self fiber : ℕ)
    → event ≢ no_event
    → Keeps (add_event_on event cb ctl_ok (some self) fiber)
added_event event cb ctl_ok self fiber ne n v k b v' e =
    go (has_event v.context.events event) refl ctl_ok
      (sym (add_event_on_lem event cb ctl_ok self fiber v ne k.consistent) ∙ e)
  where
    go :
        (has : Bool)
        → has_event v.context.events event ≡ has
        → (c : Bool)
        → ◌≡◌ {A = Outcome (Bool × View)}
            (if has
              then assert_failed
              else if c
              then ok (true, awaited event self (wanted cb fiber) v)
              else ok (false, v))
            (ok (b, v'))
        → IsCounted n v'
    go true h c e = cc
    go false h true e =
        subst (IsCounted n) (given e) (awaited-IsCounted event self (wanted cb fiber) n v h k)
    go false h false e = subst (IsCounted n) (given e) k

pub add_event_on-Keeps :
    (event : Event) (cb : Option ℕ) (ctl_ok : Bool) (self fiber : ℕ)
    → Keeps (add_event_on event cb ctl_ok (some self) fiber)
unfolding add_event_on get_context
add_event_on-Keeps no_event cb true self fiber n v k b v' e = cc
add_event_on-Keeps no_event cb false self fiber n v k b v' e = subst (IsCounted n) (given e) k
add_event_on-Keeps read cb ctl_ok self fiber n v k b v' e =
    added_event read cb ctl_ok self fiber (λ h. cc) n v k b v' e
add_event_on-Keeps write cb ctl_ok self fiber n v k b v' e =
    added_event write cb ctl_ok self fiber (λ h. cc) n v k b v' e
