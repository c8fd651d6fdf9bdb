-- ===== src/Timer/State.antt =====
-- `Timer` and `TimerManager` of civan/timer.cc. The locks make each operation one step; the clock
-- `GetCurrentMs()` is an argument, and so is the address of a new timer. Times are `uint64_t`.
-- A timer object is in `timers`, which is the `std::set` in its order, or else in `parked`.
use civan.Common.{
  ℕ, ◌+◌, ◌-◌, ◌*◌, ◌%◌, ◌^◌, List, [], ◌∷◌, ◌++◌, Option, none, some, Bool, true, false, not, ◌&&◌,
  ◌||◌, ltb, leb, ◌==◌, if◌then◌else◌,
}
use civan.Common.Outcome.{Outcome, ok, undefined}

-- `cb` is `m_cb`: which callback, or null.
pub record Timer : Type 0 where
  pub address : ℕ
  pub recurring : Bool
  pub ms : ℕ
  pub next : ℕ
  pub cb : Option ℕ

pub record TimerManager : Type 0 where
  pub timers : List Timer
  pub parked : List Timer
  pub tickled : Bool
  pub previous_time : ℕ

abbrev pub add64 : ℕ → ℕ → ℕ
add64 a b = (a + b) % 2 ^ 64

abbrev pub sub64 : ℕ → ℕ → ℕ
sub64 a b = (a + 2 ^ 64 - b) % 2 ^ 64

-- `Timer::Comparator` on two timers, and on pointers that may be null.
abbrev pub before : Timer → Timer → Bool
before lhs rhs =
    if ltb lhs.next rhs.next
    then true
    else if ltb rhs.next lhs.next
    then false
    else ltb lhs.address rhs.address

unfoldable pub comparator : Option Timer → Option Timer → Bool
comparator none none = false
comparator none (some r) = true
comparator (some l) none = false
comparator (some l) (some r) = before l r

-- `std::set::insert`: nothing is added beside an equivalent element.
unfoldable pub insert : Timer → List Timer → List Timer
insert t [] = t ∷ []
insert t (x ∷ set) =
    if before t x then t ∷ x ∷ set else if before x t then x ∷ insert t set else x ∷ set

-- `erase(find(t))`: the set without the element equivalent to `t`, or none where `find` gives `end()`.
unfoldable pub erase : Timer → List Timer → Option (List Timer)
erase t [] = none
erase t (x ∷ set) =
    let rest = erase t set in
    if before t x || before x t
    then (elim rest [ none ↦ none | some kept ↦ some (x ∷ kept) ])
    else some set

-- `lower_bound(t)`: the elements before `t`, and those from it on.
unfoldable pub lower_bound : Timer → List Timer → List Timer × List Timer
lower_bound t [] = ([], [])
lower_bound t (x ∷ set) =
    let (front, back) = lower_bound t set in if before x t then (x ∷ front, back) else ([], x ∷ set)

-- `while (it != end() && (*it)->m_next == now_ms) ++it`.
unfoldable pub skip_equal : ℕ → List Timer → List Timer × List Timer
skip_equal now [] = ([], [])
skip_equal now (x ∷ set) =
    let (front, back) = skip_equal now set in
    if x.next == now then (x ∷ front, back) else ([], x ∷ set)

-- The object at an address.
unfoldable pub object : ℕ → List Timer → Option Timer
object a [] = none
object a (x ∷ xs) = if x.address == a then some x else object a xs

unfoldable pub without : ℕ → List Timer → List Timer
without a [] = []
without a (x ∷ xs) = if x.address == a then xs else x ∷ without a xs

abbrev pub is_null : Option ℕ → Bool
is_null none = true
is_null (some c) = false

-- `detectClockRollover`. The time an hour before the last one is a `uint64_t`.
unfoldable pub detect_clock_rollover : ℕ → TimerManager → Bool × TimerManager
detect_clock_rollover now m = (
  ltb now m.previous_time && ltb now (sub64 m.previous_time (60 * 60 * 1000)),
  record m { previous_time = now },
)

-- Whether `begin()` is the element with an address.
abbrev pub is_front : ℕ → List Timer → Bool
is_front a [] = false
is_front a (x ∷ set) = x.address == a

-- `addTimer(Timer::ptr, WriteLock&)`; the Boolean is whether it calls `onTimerInsertAtFront`.
unfoldable pub add : Timer → TimerManager → Bool × TimerManager
add t m =
    let timers = insert t m.timers in
    let at_front = is_front t.address timers && not m.tickled in
    (at_front, record m { timers = timers; tickled = if at_front then true else m.tickled })

-- `addTimer(ms, cb, recurring)`.
unfoldable pub add_timer : ℕ → ℕ → Option ℕ → Bool → ℕ → TimerManager → Bool × TimerManager
add_timer address ms cb recurring now m =
    add (record { address = address; recurring = recurring; ms = ms; next = add64 now ms; cb = cb })
      m

-- `Timer::cancel`, on the timer at an address that is in the set or parked. It clears `m_cb` before
-- it looks in the set.
unfoldable pub cancel : ℕ → TimerManager → Outcome (Bool × TimerManager)
cancel a m = elim (object a (m.timers ++ m.parked)) [
  | none ↦ undefined
  | some t ↦ if is_null t.cb then ok (false, m) else (elim (erase t m.timers) [
    | none ↦ undefined
    | some kept ↦ ok (true, record m { timers = kept; parked = record t { cb = none } ∷ m.parked })
  ])
]

-- `Timer::refresh`.
unfoldable pub refresh : ℕ → ℕ → TimerManager → Outcome (Bool × TimerManager)
refresh a now m = elim (object a (m.timers ++ m.parked)) [
  | none ↦ undefined
  | some t ↦ if is_null t.cb then ok (false, m) else (elim (erase t m.timers) [
    | none ↦ ok (false, m)
    | some kept ↦ ok (true, record m { timers = insert (record t { next = add64 now t.ms }) kept })
  ])
]

-- The timer as `Timer::reset` puts it back.
abbrev pub restarted : ℕ → Bool → ℕ → Timer → Timer
restarted ms from_now now t = record t {
  ms = ms;
  next = add64 ms (if from_now then now else sub64 t.next t.ms);
}

-- `Timer::reset`: its result, whether it calls `onTimerInsertAtFront`, and the manager.
unfoldable pub reset : ℕ → ℕ → Bool → ℕ → TimerManager → Outcome (Bool × Bool × TimerManager)
reset a ms from_now now m = elim (object a (m.timers ++ m.parked)) [
  | none ↦ undefined
  | some t ↦
      if ms == t.ms && not from_now
      then ok (true, false, m)
      else if is_null t.cb
      then ok (false, false, m)
      else (elim (erase t m.timers) [
        | none ↦ ok (false, false, m)
        | some kept ↦
            let (notify, m') = add (restarted ms from_now now t) (record m { timers = kept }) in
            ok (true, notify, m')
      ])
]

-- `getNextTimer`: how long `epoll_wait` may sleep.
unfoldable pub get_next_timer : ℕ → TimerManager → ℕ × TimerManager
get_next_timer now m = (
  elim m.timers [ [] ↦ 2 ^ 64 - 1 | x ∷ set ↦ if leb x.next now then 0 else x.next - now ],
  record m { tickled = false },
)

-- The timers to fire, and those that stay: all of them where the clock was set back, and otherwise
-- those up to `now`. `probe` is the address of the `Timer(now_ms)` that is searched for.
unfoldable pub split_expired : Bool → ℕ → ℕ → List Timer → List Timer × List Timer
split_expired true now probe set = (set, [])
split_expired false now probe set =
    let (front, back) =
      lower_bound (record { address = probe; recurring = false; ms = 0; next = now; cb = none })
        set in
    let (equal, left) = skip_equal now back in (front ++ equal, left)

-- The loop of `listExpiredCb` over the timers that it took out of the set.
unfoldable pub rearm : ℕ → List Timer → TimerManager → TimerManager
rearm now [] m = m
rearm now (t ∷ expired) m = rearm now expired (
    if t.recurring
    then record m { timers = insert (record t { next = add64 now t.ms }) m.timers }
    else record m { parked = record t { cb = none } ∷ m.parked })

abbrev pub callbacks : List Timer → List (Option ℕ)
callbacks [] = []
callbacks (t ∷ ts) = t.cb ∷ callbacks ts

-- The part of `listExpiredCb` behind its test for an empty set, with `x` the element at `begin()`.
unfoldable pub fire_expired :
    ℕ → ℕ → Timer → List Timer → TimerManager → List (Option ℕ) × TimerManager
fire_expired now probe x set m =
    let (rollover, m') = detect_clock_rollover now m in
    if not rollover && ltb now x.next
    then ([], m')
    else (let (expired, left) = split_expired rollover now probe (x ∷ set) in
        (callbacks expired, rearm now expired (record m' { timers = left })))

-- `listExpiredCb`: the callbacks that it hands out, and the manager.
unfoldable pub list_expired_cb : ℕ → ℕ → TimerManager → List (Option ℕ) × TimerManager
list_expired_cb now probe m = elim m.timers [
  | [] ↦ ([], m)
  | x ∷ set ↦ fire_expired now probe x set m
]

unfoldable pub has_timer : TimerManager → Bool
has_timer m = elim m.timers [ [] ↦ false | x ∷ set ↦ true ]
