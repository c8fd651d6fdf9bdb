-- ===== src/Timer/Wait.antt =====
-- How long the manager of civan/timer.cc may sleep.
use civan.Common.{
  ℕ, ◌+◌, ◌-◌, ◌^◌, ◌<◌, ◌≡◌, ◌≢◌, refl, sym, subst, inl, inr, List, [], ◌∷◌, none, Bool, true,
  arith, leb, if◌then◌else◌, Bool-cases, if_both,
}
use civan.Timer.State.{Timer, TimerManager, insert, add64, get_next_timer, rearm, list_expired_cb}
use civan.Timer.Order.{IsSorted}
use civan.Timer.Preserve.{IsValid}
use civan.Timer.Expiry.{
  due, later, AllLater, AllLater-mono, due-AllLater, set_back, firing, staying, manager,
  list_expired_fields,
}

-- The periods of the recurring timers are not 0, and no time to fire wraps round.
abbrev pub AllPeriodic : ℕ → List Timer → Type 0
AllPeriodic now [] = Unit {0}
AllPeriodic now (t ∷ set) =
    (t.recurring ≡ true → (0 < t.ms) × (now + t.ms < 2 ^ 64)) × AllPeriodic now set

insert-AllLater :
    (now : ℕ) (t : Timer) (set : List Timer)
    → now < t.next
    → AllLater now set
    → AllLater now (insert t set)
unfolding insert
insert-AllLater now t [] h k = (h, tt)
insert-AllLater now t (x ∷ set) h k = ground (arith, insert-AllLater now t set h k.1)

rearm-AllLater :
    (now : ℕ) (expired : List Timer) (m : TimerManager)
    → AllPeriodic now expired
    → AllLater now m.timers
    → AllLater now (rearm now expired m).timers
unfolding rearm
rearm-AllLater now [] m p k = k
rearm-AllLater now (t ∷ expired) m p k = elim (Bool-cases t.recurring) [
  | inl again ↦
      let u : Timer = record t { next = add64 now t.ms } in
      subst
        (λ b.
          AllLater now
            (rearm now expired (
              if b
              then record m { timers = insert u m.timers }
              else record m { parked = record t { cb = none } ∷ m.parked })).timers)
        (sym again)
        (rearm-AllLater now expired (record m { timers = insert u m.timers }) p.1
          (insert-AllLater now u m.timers (ground (arith, p.0 again)) k))
  | inr once ↦
      subst
        (λ b.
          AllLater now
            (rearm now expired (
              if b
              then record m { timers = insert (record t { next = add64 now t.ms }) m.timers }
              else record m { parked = record t { cb = none } ∷ m.parked })).timers)
        (sym once)
        (rearm-AllLater now expired (record m { parked = record t { cb = none } ∷ m.parked }) p.1 k)
]

later-AllLater : (now : ℕ) (set : List Timer) → AllLater now (later now set)
later-AllLater now [] = tt
later-AllLater now (x ∷ set) = ground (arith, later-AllLater now set)

due-AllPeriodic : (now : ℕ) (set : List Timer) → AllPeriodic now set → AllPeriodic now (due now set)
due-AllPeriodic now [] p = tt
due-AllPeriodic now (x ∷ set) p =
    if_both (AllPeriodic now) (leb x.next now) _ _ (p.0, due-AllPeriodic now set p.1)
      (due-AllPeriodic now set p.1)

later_fields :
    (now probe : ℕ) (set parked : List Timer) (tickled : Bool) (previous : ℕ)
    → IsSorted set
    → AllPeriodic now set
    → AllLater now (list_expired_cb now probe (manager set parked tickled previous)).1.timers
later_fields now probe [] parked tickled previous s p = unfold list_expired_cb in tt
later_fields now probe (x ∷ set) parked tickled previous s p =
    let m = manager (x ∷ set) parked tickled previous in
    rw (list_expired_fields now probe (x ∷ set) parked tickled previous s (λ e. cc)) (
      rearm-AllLater now (firing now m) (record m { timers = staying now m; previous_time = now })
        (if_both (AllPeriodic now) (set_back now m) _ _ p (due-AllPeriodic now (x ∷ set) p))
        (if_both (AllLater now) (set_back now m) _ _ tt (later-AllLater now (x ∷ set))))

-- After `listExpiredCb` on a valid manager whose recurring timers have a period above 0 (and no time
-- to fire that wraps round) no timer is due: `getNextTimer` at the same time does not answer 0.
pub get_next_timer-list_expired_cb :
    (now probe : ℕ) (m : TimerManager)
    → IsValid m
    → AllPeriodic now m.timers
    → 0 < (get_next_timer now (list_expired_cb now probe m).1).0
unfolding get_next_timer
get_next_timer-list_expired_cb now probe m v p =
    go (list_expired_cb now probe m).1.timers
      (later_fields now probe m.timers m.parked m.tickled m.previous_time v.sorted p)
  where
    go :
        (set : List Timer)
        → AllLater now set
        → 0 < (elim set [ [] ↦ 2 ^ 64 - 1 | x ∷ rest ↦ if leb x.next now then 0 else x.next - now ])
    go [] h = omega arith
    go (x ∷ rest) h = ground arith

-- In a valid manager with a timer `getNextTimer` is the time until the first timer is due: none is due
-- before, and one is then.
pub get_next_timer_lem :
    (now : ℕ) (m : TimerManager)
    → IsValid m
    → m.timers ≢ []
    → let wait = (get_next_timer now m).0 in
      (due (now + wait) m.timers ≢ []) × ((k : ℕ) → k < wait → due (now + k) m.timers ≡ [])
unfolding get_next_timer
get_next_timer_lem now m v ne = go m.timers v.sorted ne
  where
    go :
        (set : List Timer)
        → IsSorted set
        → set ≢ []
        → let wait : ℕ = elim set [
          | [] ↦ 2 ^ 64 - 1
          | x ∷ rest ↦ if leb x.next now then 0 else x.next - now
        ] in
          (due (now + wait) set ≢ []) × ((k : ℕ) → k < wait → due (now + k) set ≡ [])
    go [] s ne = absurd (ne refl)
    go (x ∷ rest) s ne = (
      λ e. ground (arith, e),
      λ k h.
          (due-AllLater (now + k) (x ∷ rest)
            (ground arith, AllLater-mono (now + k) x rest (ground arith) s.0)).0,
    )
