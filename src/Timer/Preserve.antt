-- ===== src/Timer/Preserve.antt =====
-- What every operation of civan/timer.cc keeps: the set is in order, and every timer object is in
-- one place once.
use civan.Common.{
  ℕ, ◌+◌, ◌≤◌, ◌≡◌, refl, inl, inr, List, [], ◌∷◌, ◌++◌, none, some, arith, ◌==◌, Option-cases,
  if_both,
}
use civan.Timer.State.{Timer, TimerManager, insert, object, without, add, add64, rearm}
use civan.Timer.Order.{
  IsSorted, insert-IsSorted, one_if, count, count-insert, count-object, count-without,
  object-append,
}

abbrev pub AllDone : List Timer → Type 0
AllDone [] = Unit {0}
AllDone (t ∷ ts) = (t.cb ≡ none) × AllDone ts

pub record IsValid (m : TimerManager) : Type 0 where
  pub sorted : IsSorted m.timers
  pub unique : (a : ℕ) → count a m.timers + count a m.parked ≤ 1
  pub done : AllDone m.parked

-- An address at which the manager has no timer.
abbrev pub IsFree : ℕ → TimerManager → Type 0
IsFree a m = count a m.timers + count a m.parked ≡ 0

-- `addTimer` of a timer at a new address leaves a valid manager.
pub add-IsValid :
    (t : Timer) (m : TimerManager) → IsValid m → IsFree t.address m → IsValid (add t m).1
unfolding add
add-IsValid t m v free = record {
  sorted = insert-IsSorted t m.timers v.sorted;
  unique = λ a. ground (arith, count-insert a t m.timers, v.unique a);
  done = v.done;
}

object-done :
    (a : ℕ) (parked : List Timer) (t : Timer)
    → AllDone parked
    → object a parked ≡ some t
    → t.cb ≡ none
unfolding object
object-done a [] t d e = cc
object-done a (x ∷ parked) t d e = ground (arith, object-done a parked t d.1)

-- Where the timer of a handle is.
pub data Place (a : ℕ) (m : TimerManager) (t : Timer) : Type 0 where
  in_set : object a m.timers ≡ some t → Place a m t
  in_parked : object a m.timers ≡ none → count a m.timers ≡ 0 → t.cb ≡ none → Place a m t

pub object-Place :
    (a : ℕ) (m : TimerManager) (t : Timer)
    → IsValid m
    → object a (m.timers ++ m.parked) ≡ some t
    → Place a m t
object-Place a m t v e = elim (Option-cases (object a m.timers)) [
  | inl none_there ↦
      let parked : object a m.parked ≡ some t =
        ground (arith, e, object-append a m.timers m.parked, none_there) in
      in_parked none_there (omega (arith, v.unique a, count-object a m.parked t parked))
        (object-done a m.parked t v.done parked)
  | inr (x, there) ↦ in_set (ground (arith, e, object-append a m.timers m.parked, there))
]

-- Taking a timer out of the set leaves its address free among the others.
pub taken :
    (a : ℕ) (m : TimerManager) (t : Timer)
    → IsValid m
    → object a m.timers ≡ some t
    → count a (without a m.timers) + count a m.parked ≡ 0
taken a m t v e = ground (arith, v.unique a, count-without a a m.timers t e)

pub taken_le :
    (a b : ℕ) (m : TimerManager) (t : Timer)
    → IsValid m
    → object a m.timers ≡ some t
    → one_if (a == b) + (count b (without a m.timers) + count b m.parked) ≤ 1
taken_le a b m t v e = ground (arith, v.unique b, count-without a b m.timers t e)

-- The loop of `listExpiredCb`, over timers that are in neither list.
pub rearm-IsValid :
    (now : ℕ) (expired : List Timer) (m : TimerManager)
    → IsSorted m.timers
    → ((a : ℕ) → count a expired + (count a m.timers + count a m.parked) ≤ 1)
    → AllDone m.parked
    → IsValid (rearm now expired m)
unfolding rearm
rearm-IsValid now [] m s u d = record { sorted = s; unique = λ a. omega (arith, u a); done = d }
rearm-IsValid now (t ∷ expired) m s u d =
    if_both (λ r. IsValid (rearm now expired r)) t.recurring _ _
      (rearm-IsValid now expired
        (record m { timers = insert (record t { next = add64 now t.ms }) m.timers })
        (insert-IsSorted (record t { next = add64 now t.ms }) m.timers s)
        (λ a.
          ground
            (arith, u a, u t.address, count-insert a (record t { next = add64 now t.ms }) m.timers))
        d)
      (rearm-IsValid now expired (record m { parked = record t { cb = none } ∷ m.parked }) s
        (λ a. omega (arith, u a)) (refl, d))
