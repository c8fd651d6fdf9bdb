-- ===== src/Timer/Expiry.antt =====
-- Which timers of civan/timer.cc fire, and what `listExpiredCb` leaves.
use civan.Common.{
  ℕ, ◌+◌, ◌≤◌, ◌<◌, ◌≡◌, ◌≢◌, refl, ap, sym, ◌∙◌, inl, inr, List, [], ◌∷◌, ◌++◌, Option, none, Bool,
  true, false, arith, ltb, leb, ◌==◌, if◌then◌else◌, Bool-cases, if_both,
}
use civan.Timer.State.{
  Timer, TimerManager, before, rearm, fire_expired, list_expired_cb, split_expired, lower_bound,
  skip_equal, detect_clock_rollover, callbacks,
}
use civan.Timer.Order.{AllAfter, IsSorted, count}
use civan.Timer.Preserve.{IsValid, rearm-IsValid}

-- The timers that are due at a time, and the others, in order.
abbrev pub due : ℕ → List Timer → List Timer
due now [] = []
due now (x ∷ set) = if leb x.next now then x ∷ due now set else due now set

abbrev pub later : ℕ → List Timer → List Timer
later now [] = []
later now (x ∷ set) = if leb x.next now then later now set else x ∷ later now set

abbrev pub AllLater : ℕ → List Timer → Type 0
AllLater now [] = Unit {0}
AllLater now (x ∷ set) = (now < x.next) × AllLater now set

pub AllLater-mono :
    (now : ℕ) (x : Timer) (set : List Timer) → now < x.next → AllAfter x set → AllLater now set
AllLater-mono now x [] h k = tt
AllLater-mono now x (y ∷ set) h k = (omega arith, AllLater-mono now x set h k.1)

pub due-AllLater :
    (now : ℕ) (set : List Timer) → AllLater now set → (due now set ≡ []) × (later now set ≡ set)
due-AllLater now [] h = (refl, refl)
due-AllLater now (x ∷ set) h = ground (arith, due-AllLater now set h.1)

-- Behind `lower_bound` no time is below `now`: there `skip_equal` takes what is due.
skip_equal-due :
    (now : ℕ) (set : List Timer)
    → IsSorted set
    → ((x : Timer) (xs : List Timer) → set ≡ x ∷ xs → now ≤ x.next)
    → skip_equal now set ≡ (due now set, later now set)
unfolding skip_equal
skip_equal-due now [] s h = refl
skip_equal-due now (x ∷ set) s h = elim (Bool-cases (x.next == now)) [
  | inl same ↦ ground (
    arith,
    same,
    skip_equal-due now set s.1 (λ y ys e. from_head now x set y ys s.0 (ground arith) e),
  )
  | inr above ↦ ground (
    arith,
    above,
    h x set refl,
    due-AllLater now set (AllLater-mono now x set (ground (arith, h x set refl)) s.0),
  )
]
  where
    from_head :
        (now : ℕ) (x : Timer) (set : List Timer) (y : Timer) (ys : List Timer)
        → AllAfter x set
        → now ≤ x.next
        → set ≡ y ∷ ys
        → now ≤ y.next
    from_head now x [] y ys a le e = cc
    from_head now x (z ∷ zs) y ys a le e = ground (arith, e, a.0)

abbrev probe_at : ℕ → ℕ → Timer
probe_at now probe = record { address = probe; recurring = false; ms = 0; next = now; cb = none }

lower_bound-due :
    (now probe : ℕ) (set : List Timer)
    → IsSorted set
    → ((lower_bound (probe_at now probe) set).0
          ++ (skip_equal now (lower_bound (probe_at now probe) set).1).0
        ≡ due now set)
      × ((skip_equal now (lower_bound (probe_at now probe) set).1).1 ≡ later now set)
unfolding lower_bound
lower_bound-due now probe [] s = unfold skip_equal in (refl, refl)
lower_bound-due now probe (x ∷ set) s = elim (Bool-cases (before x (probe_at now probe))) [
  | inl lo ↦ ground (arith, lo, lower_bound-due now probe set s.1)
  | inr hi ↦ ground (arith, hi, skip_equal-due now (x ∷ set) s (λ y ys e. ground (arith, e, hi)))
]

pub split_expired-due :
    (now probe : ℕ) (set : List Timer)
    → IsSorted set
    → split_expired false now probe set ≡ (due now set, later now set)
unfolding split_expired
split_expired-due now probe set s = ground (arith, lower_bound-due now probe set s)

-- The clock was set back by more than an hour.
abbrev pub set_back : ℕ → TimerManager → Bool
set_back now m = (detect_clock_rollover now m).0

-- The timers that fire.
abbrev pub firing : ℕ → TimerManager → List Timer
firing now m = if set_back now m then m.timers else due now m.timers

abbrev pub staying : ℕ → TimerManager → List Timer
staying now m = if set_back now m then [] else later now m.timers

head_later :
    (now : ℕ) (x : Timer) (set : List Timer)
    → IsSorted (x ∷ set)
    → now < x.next
    → (due now (x ∷ set) ≡ []) × (later now (x ∷ set) ≡ x ∷ set)
head_later now x set s h = due-AllLater now (x ∷ set) (h, AllLater-mono now x set h s.0)

-- A manager by its fields.
abbrev pub manager : List Timer → List Timer → Bool → ℕ → TimerManager
manager set parked tickled previous = record {
  timers = set;
  parked = parked;
  tickled = tickled;
  previous_time = previous;
}

-- One call as an equation: what fires is handed out and taken up again, and the rest stays.
abbrev pub fired : ℕ → TimerManager → List (Option ℕ) × TimerManager
fired now m = (
  callbacks (firing now m),
  rearm now (firing now m) (record m { timers = staying now m; previous_time = now }),
)

fire_back :
    (now probe : ℕ) (x : Timer) (set : List Timer) (m : TimerManager)
    → set_back now m ≡ true
    → fire_expired now probe x set m
      ≡ (callbacks (x ∷ set), rearm now (x ∷ set) (record m { timers = []; previous_time = now }))
unfolding fire_expired
fire_back now probe x set m back =
    rw (back, fire_expired) (unfold detect_clock_rollover split_expired in refl)

fire_early :
    (now probe : ℕ) (x : Timer) (set : List Timer) (m : TimerManager)
    → set_back now m ≡ false
    → ltb now x.next ≡ true
    → fire_expired now probe x set m ≡ ([], record m { previous_time = now })
unfolding fire_expired
fire_early now probe x set m forth early =
    rw (forth, early, fire_expired) (unfold detect_clock_rollover in refl)

fire_due :
    (now probe : ℕ) (x : Timer) (set : List Timer) (m : TimerManager)
    → set_back now m ≡ false
    → ltb now x.next ≡ false
    → IsSorted (x ∷ set)
    → fire_expired now probe x set m ≡ (
      callbacks (due now (x ∷ set)),
      rearm now
          (due now (x ∷ set))
          (record m { timers = later now (x ∷ set); previous_time = now }),
    )
unfolding fire_expired
fire_due now probe x set m forth late s =
    rw (forth, late, split_expired-due now probe (x ∷ set) s, fire_expired)
      (unfold detect_clock_rollover in refl)

nothing_due :
    (now : ℕ) (set : List Timer) (m : TimerManager)
    → (due now set ≡ []) × (later now set ≡ set)
    → ◌≡◌ {A = List (Option ℕ) × TimerManager}
        ([], record m { timers = set; previous_time = now })
        (
          callbacks (due now set),
          rearm now (due now set) (record m { timers = later now set; previous_time = now }),
        )
unfolding rearm
nothing_due now set m (d, l) = λ i.
    (callbacks (sym d i), rearm now (sym d i) (record m { timers = sym l i; previous_time = now }))

pub list_expired_fields :
    (now probe : ℕ) (set parked : List Timer) (tickled : Bool) (previous : ℕ)
    → IsSorted set
    → set ≢ []
    → list_expired_cb now probe (manager set parked tickled previous)
      ≡ fired now (manager set parked tickled previous)
unfolding list_expired_cb
list_expired_fields now probe [] parked tickled previous s ne = absurd (ne refl)
list_expired_fields now probe (x ∷ set) parked tickled previous s ne =
    let m = manager (x ∷ set) parked tickled previous in
    elim (Bool-cases (set_back now m)) [
      | inl back ↦ fire_back now probe x set m back ∙ rw back refl
      | inr forth ↦ elim (Bool-cases (ltb now x.next)) [
        | inl early ↦
            fire_early now probe x set m forth early
            ∙ rw forth (nothing_due now (x ∷ set) m (head_later now x set s (ground arith)))
        | inr late ↦ fire_due now probe x set m forth late s ∙ rw forth refl
      ]
    ]

firing_fields :
    (now probe : ℕ) (set parked : List Timer) (tickled : Bool) (previous : ℕ)
    → IsSorted set
    → (list_expired_cb now probe (manager set parked tickled previous)).0
      ≡ callbacks (firing now (manager set parked tickled previous))
firing_fields now probe [] parked tickled previous s =
    unfold list_expired_cb in
    if_both (λ ts. [] ≡ callbacks ts) (set_back now (manager [] parked tickled previous)) [] [] refl
      refl
firing_fields now probe (x ∷ set) parked tickled previous s =
    ap (λ r. r.0) (list_expired_fields now probe (x ∷ set) parked tickled previous s (λ e. cc))

-- In a valid manager `listExpiredCb` hands out the callbacks of exactly the timers that are due, in
-- the order of the set; or of all timers, where `detectClockRollover` answers true.
pub list_expired_cb-firing :
    (now probe : ℕ) (m : TimerManager)
    → IsValid m
    → (list_expired_cb now probe m).0 ≡ callbacks (firing now m)
list_expired_cb-firing now probe m v =
    firing_fields now probe m.timers m.parked m.tickled m.previous_time v.sorted

later-AllAfter :
    (now : ℕ) (x : Timer) (set : List Timer) → AllAfter x set → AllAfter x (later now set)
later-AllAfter now x [] s = tt
later-AllAfter now x (y ∷ set) s =
    if_both (AllAfter x) (leb y.next now) _ _ (later-AllAfter now x set s.1)
      (s.0, later-AllAfter now x set s.1)

later-IsSorted : (now : ℕ) (set : List Timer) → IsSorted set → IsSorted (later now set)
later-IsSorted now [] s = tt
later-IsSorted now (x ∷ set) s =
    if_both IsSorted (leb x.next now) _ _ (later-IsSorted now set s.1)
      (later-AllAfter now x set s.0, later-IsSorted now set s.1)

count-due :
    (a now : ℕ) (set : List Timer) → count a (due now set) + count a (later now set) ≡ count a set
count-due a now [] = omega arith
count-due a now (x ∷ set) = ground (arith, count-due a now set)

staying-IsSorted : (now : ℕ) (m : TimerManager) → IsSorted m.timers → IsSorted (staying now m)
staying-IsSorted now m s = if_both IsSorted (set_back now m) _ _ tt (later-IsSorted now m.timers s)

count-firing :
    (a now : ℕ) (m : TimerManager)
    → count a (firing now m) + count a (staying now m) ≡ count a m.timers
count-firing a now m = go (set_back now m)
  where
    go :
        (b : Bool)
        → count a (if b then m.timers else due now m.timers)
            + count a (if b then [] else later now m.timers)
          ≡ count a m.timers
    go true = omega arith
    go false = count-due a now m.timers

IsValid-fields :
    (now probe : ℕ) (set parked : List Timer) (tickled : Bool) (previous : ℕ)
    → IsValid (manager set parked tickled previous)
    → IsValid (list_expired_cb now probe (manager set parked tickled previous)).1
IsValid-fields now probe [] parked tickled previous v = unfold list_expired_cb in v
IsValid-fields now probe (x ∷ set) parked tickled previous v =
    let m = manager (x ∷ set) parked tickled previous in
    rw (list_expired_fields now probe (x ∷ set) parked tickled previous v.sorted (λ e. cc)) (
      rearm-IsValid now (firing now m) (record m { timers = staying now m; previous_time = now })
        (staying-IsSorted now m v.sorted) (λ a. omega (arith, v.unique a, count-firing a now m))
        v.done)

-- A call of `listExpiredCb` on a valid manager leaves a valid manager: the set in order, each timer in one place, and no
-- callback in a timer that is out of the set.
pub list_expired_cb-IsValid :
    (now probe : ℕ) (m : TimerManager) → IsValid m → IsValid (list_expired_cb now probe m).1
list_expired_cb-IsValid now probe m v =
    IsValid-fields now probe m.timers m.parked m.tickled m.previous_time v
