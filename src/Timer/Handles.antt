-- ===== src/Timer/Handles.antt =====
-- What `Timer::cancel`, `refresh` and `reset` of civan/timer.cc do to a timer, by its handle.
use civan.Common.{
  ℕ, ◌≡◌, ◌≢◌, refl, sym, ◌∙◌, ap, ◌⊎◌, inl, inr, ◌∷◌, ◌++◌, none, some, Bool, true, false, not,
  ◌&&◌, ◌||◌, arith, ◌==◌, Bool-cases, Option-cases,
}
use civan.Common.Outcome.{ok}
use civan.Timer.State.{
  Timer, TimerManager, insert, object, without, is_null, add, add64, cancel, refresh, reset,
  restarted,
}
use civan.Timer.Order.{
  insert-IsSorted, without-IsSorted, count, count-insert, object-address, erase-object,
}
use civan.Timer.Preserve.{IsValid, Place, in_set, in_parked, object-Place, taken, taken_le}

-- What `cancel` answers: true on a timer that has its callback. Such a timer is taken out of the set,
-- and otherwise nothing changes.
pub record Cancels (a : ℕ) (t : Timer) (m : TimerManager) : Type 0 where
  pub after : TimerManager
  pub returns : cancel a m ≡ ok (not (is_null t.cb), after)
  pub valid : IsValid after
  pub gone : t.cb ≢ none → count a after.timers ≡ 0
  pub kept : t.cb ≡ none → after ≡ m

-- In a valid manager `cancel` of a timer that there is returns (it never gives `end()` to `erase`),
-- answers whether the timer had its callback, takes such a timer out of the set, and leaves a valid
-- manager.
pub cancel-Cancels :
    (a : ℕ) (t : Timer) (m : TimerManager)
    → IsValid m
    → object a (m.timers ++ m.parked) ≡ some t
    → Cancels a t m
unfolding cancel
cancel-Cancels a t m v e = go (object-Place a m t v e) (Option-cases t.cb)
  where
    go : Place a m t → ((t.cb ≡ none) ⊎ ((c : ℕ) × (t.cb ≡ some c))) → Cancels a t m
    go place (inl null) = record {
      after = m;
      returns = rw (e, cancel) (rw null);
      valid = v;
      gone = λ h. absurd (h null);
      kept = λ _. refl;
    }
    go (in_set there) (inr (c, live)) = record {
      after = record m { timers = without a m.timers; parked = record t { cb = none } ∷ m.parked };
      returns = rw (e, cancel) (rw (ap is_null live, erase-object a m.timers t there, cancel));
      valid = record {
        sorted = without-IsSorted a m.timers v.sorted;
        unique = λ b. ground (arith, taken_le a b m t v there, object-address a m.timers t there);
        done = (refl, v.done);
      };
      gone = λ _. omega (arith, taken a m t v there);
      kept = λ h. cc;
    }
    go (in_parked none_there zero_there null) (inr (c, live)) = cc

-- A timer that is taken out and put back under its own address.
back-IsValid :
    (a : ℕ) (m : TimerManager) (t u : Timer)
    → IsValid m
    → object a m.timers ≡ some t
    → u.address ≡ t.address
    → IsValid (record m { timers = insert u (without a m.timers) })
back-IsValid a m t u v there same = record {
  sorted = insert-IsSorted u (without a m.timers) (without-IsSorted a m.timers v.sorted);
  unique = λ b. ground (
    arith,
    taken_le a b m t v there,
    taken a m t v there,
    count-insert b u (without a m.timers),
    object-address a m.timers t there,
  );
  done = v.done;
}

-- What `refresh` answers.
pub record Refreshes (a now : ℕ) (t : Timer) (m : TimerManager) : Type 0 where
  pub after : TimerManager
  pub returns : refresh a now m ≡ ok (not (is_null t.cb), after)
  pub valid : IsValid after
  pub kept : t.cb ≡ none → after ≡ m
  pub moved :
      t.cb ≢ none → after.timers ≡ insert (record t { next = add64 now t.ms }) (without a m.timers)

-- In a valid manager `refresh` of a timer that there is returns, answers whether the timer had its
-- callback, changes nothing where it had none, puts it back with its period counted from now where
-- it had one, and leaves a valid manager.
pub refresh-Refreshes :
    (a now : ℕ) (t : Timer) (m : TimerManager)
    → IsValid m
    → object a (m.timers ++ m.parked) ≡ some t
    → Refreshes a now t m
unfolding refresh
refresh-Refreshes a now t m v e = go (object-Place a m t v e) (Option-cases t.cb)
  where
    go : Place a m t → ((t.cb ≡ none) ⊎ ((c : ℕ) × (t.cb ≡ some c))) → Refreshes a now t m
    go place (inl null) = record {
      after = m;
      returns = rw (e, refresh) (rw null);
      valid = v;
      kept = λ _. refl;
      moved = λ h. absurd (h null);
    }
    go (in_set there) (inr (c, live)) = record {
      after = record m {
        timers = insert (record t { next = add64 now t.ms }) (without a m.timers);
      };
      returns = rw (e, refresh) (rw (ap is_null live, erase-object a m.timers t there, refresh));
      valid = back-IsValid a m t (record t { next = add64 now t.ms }) v there refl;
      kept = λ h. cc;
      moved = λ _. refl;
    }
    go (in_parked none_there zero_there null) (inr (c, live)) = cc

add_back-IsValid :
    (a : ℕ) (m : TimerManager) (t u : Timer)
    → IsValid m
    → object a m.timers ≡ some t
    → u.address ≡ t.address
    → IsValid (add u (record m { timers = without a m.timers })).1
unfolding add
add_back-IsValid a m t u v there same =
    let b = back-IsValid a m t u v there same in
    record { sorted = b.sorted; unique = b.unique; done = b.done }

-- What `reset` answers: it fails exactly on a timer without a callback whose period is to change.
pub record Resets (a ms : ℕ) (from_now : Bool) (now : ℕ) (t : Timer) (m : TimerManager)
    : Type 0 where
  pub notify : Bool
  pub after : TimerManager
  pub returns :
      reset a ms from_now now m
      ≡ ok ((ms == t.ms && not from_now) || not (is_null t.cb), notify, after)
  pub valid : IsValid after
  pub moved :
      (ms == t.ms && not from_now) ≡ false
      → t.cb ≢ none
      → after.timers ≡ insert (restarted ms from_now now t) (without a m.timers)
  pub kept : ((ms == t.ms && not from_now) ≡ true) ⊎ (t.cb ≡ none) → after ≡ m

-- In a valid manager `reset` of a timer that there is returns, answers true exactly where the period
-- stays and `from_now` is false, or the timer has its callback, and leaves a valid manager. Nothing
-- changes in the first case or without a callback; otherwise the timer is put back with the new
-- period, counted from now or from its last start.
pub reset-Resets :
    (a ms : ℕ) (from_now : Bool) (now : ℕ) (t : Timer) (m : TimerManager)
    → IsValid m
    → object a (m.timers ++ m.parked) ≡ some t
    → Resets a ms from_now now t m
unfolding reset
reset-Resets a ms from_now now t m v e =
    go (object-Place a m t v e) (Bool-cases (ms == t.ms && not from_now)) (Option-cases t.cb)
  where
    both : {b : Bool} → b ≡ true → b ≡ false → ⊥
    both h k = cc

    some_none : {c : ℕ} → some c ≡ none → ⊥
    some_none h = cc

    go :
        Place a m t
        → (((ms == t.ms && not from_now) ≡ true) ⊎ ((ms == t.ms && not from_now) ≡ false))
        → ((t.cb ≡ none) ⊎ ((c : ℕ) × (t.cb ≡ some c)))
        → Resets a ms from_now now t m
    go place (inl same) cb = record {
      notify = false;
      after = m;
      returns = rw (e, reset) (rw same);
      valid = v;
      moved = λ h k. absurd (both same h);
      kept = λ _. refl;
    }
    go place (inr differs) (inl null) = record {
      notify = false;
      after = m;
      returns = rw (e, reset) (rw (differs, ap is_null null));
      valid = v;
      moved = λ h k. absurd (k null);
      kept = λ _. refl;
    }
    go (in_set there) (inr differs) (inr (c, live)) =
        let back = add (restarted ms from_now now t) (record m { timers = without a m.timers }) in
        record {
          notify = back.0;
          after = back.1;
          returns =
              rw (e, reset) (rw (differs, ap is_null live, erase-object a m.timers t there, reset));
          valid = add_back-IsValid a m t (restarted ms from_now now t) v there refl;
          moved = λ h k. unfold add in refl;
          kept = λ h. elim h [
            | inl same ↦ absurd (both same differs)
            | inr null ↦ absurd (some_none (sym live ∙ null))
          ];
        }
    go (in_parked none_there zero_there null) (inr differs) (inr (c, live)) = cc
