-- ===== src/Timer/Order.antt =====
-- The ordered set of timers of civan/timer.cc: what insertion and removal keep.
use civan.Common.{
  ℕ, ◌+◌, ◌<◌, ◌≡◌, refl, ◌⊎◌, inl, inr, List, [], ◌∷◌, ◌++◌, none, some, Bool, true, false, arith,
  ◌==◌, Bool-cases,
}
use civan.Timer.State.{Timer, before, insert, erase, object, without}

-- The order of the set: by the time to fire, then by the address.
abbrev pub Before : Timer → Timer → Type 0
Before t x = (t.next < x.next) ⊎ ((t.next ≡ x.next) × (t.address < x.address))

abbrev pub AllAfter : Timer → List Timer → Type 0
AllAfter t [] = Unit {0}
AllAfter t (x ∷ set) = Before t x × AllAfter t set

abbrev pub IsSorted : List Timer → Type 0
IsSorted [] = Unit {0}
IsSorted (x ∷ set) = AllAfter x set × IsSorted set

Before-trans : (a b c : Timer) → Before a b → Before b c → Before a c
Before-trans a b c h k = omega arith

AllAfter-trans : (a b : Timer) (set : List Timer) → Before a b → AllAfter b set → AllAfter a set
AllAfter-trans a b [] h k = tt
AllAfter-trans a b (x ∷ set) h k = (Before-trans a b x h k.0, AllAfter-trans a b set h k.1)

before→Before : (t x : Timer) → before t x ≡ true → Before t x
before→Before t x h = ground arith

insert-AllAfter :
    (y t : Timer) (set : List Timer) → Before y t → AllAfter y set → AllAfter y (insert t set)
unfolding insert
insert-AllAfter y t [] h k = (h, tt)
insert-AllAfter y t (x ∷ set) h k = elim (Bool-cases (before t x)) [
  | inl lo ↦ rw lo (h, k)
  | inr not_lo ↦ elim (Bool-cases (before x t)) [
    | inl hi ↦ rw (not_lo, hi) (k.0, insert-AllAfter y t set h k.1)
    | inr same ↦ rw (not_lo, same) k
  ]
]

pub insert-IsSorted : (t : Timer) (set : List Timer) → IsSorted set → IsSorted (insert t set)
unfolding insert
insert-IsSorted t [] s = (tt, tt)
insert-IsSorted t (x ∷ set) s = elim (Bool-cases (before t x)) [
  | inl lo ↦ rw lo ((before→Before t x lo, AllAfter-trans t x set (before→Before t x lo) s.0), s)
  | inr not_lo ↦ elim (Bool-cases (before x t)) [
    | inl hi ↦
        rw (not_lo, hi)
          (insert-AllAfter x t set (before→Before x t hi) s.0, insert-IsSorted t set s.1)
    | inr same ↦ rw (not_lo, same) s
  ]
]

without-AllAfter :
    (y : Timer) (a : ℕ) (set : List Timer) → AllAfter y set → AllAfter y (without a set)
unfolding without
without-AllAfter y a [] k = tt
without-AllAfter y a (x ∷ set) k = elim (Bool-cases (x.address == a)) [
  | inl here ↦ rw here k.1
  | inr other ↦ rw other (k.0, without-AllAfter y a set k.1)
]

pub without-IsSorted : (a : ℕ) (set : List Timer) → IsSorted set → IsSorted (without a set)
unfolding without
without-IsSorted a [] s = tt
without-IsSorted a (x ∷ set) s = elim (Bool-cases (x.address == a)) [
  | inl here ↦ rw here s.1
  | inr other ↦ rw other (without-AllAfter x a set s.0, without-IsSorted a set s.1)
]

-- How many timers of a list have an address.
abbrev pub one_if : Bool → ℕ
one_if true = 1
one_if false = 0

abbrev pub count : ℕ → List Timer → ℕ
count a [] = 0
count a (x ∷ set) = one_if (x.address == a) + count a set

pub count-append :
    (a : ℕ) (front back : List Timer) → count a (front ++ back) ≡ count a front + count a back
count-append a [] back = omega arith
count-append a (t ∷ front) back = omega (arith, count-append a front back)

pub count-insert :
    (a : ℕ) (t : Timer) (set : List Timer)
    → count t.address set ≡ 0
    → count a (insert t set) ≡ one_if (t.address == a) + count a set
unfolding insert
count-insert a t [] h = refl
count-insert a t (x ∷ set) h = ground (arith, count-insert a t set)

pub object-address : (a : ℕ) (set : List Timer) (t : Timer) → object a set ≡ some t → t.address ≡ a
unfolding object
object-address a [] t e = cc
object-address a (x ∷ set) t e = ground (arith, object-address a set t)

pub count-object : (a : ℕ) (set : List Timer) (t : Timer) → object a set ≡ some t → 0 < count a set
unfolding object
count-object a [] t e = cc
count-object a (x ∷ set) t e = ground (arith, count-object a set t)

pub count-without :
    (a b : ℕ) (set : List Timer) (t : Timer)
    → object a set ≡ some t
    → count b set ≡ one_if (a == b) + count b (without a set)
unfolding object without
count-without a b [] t e = cc
count-without a b (x ∷ set) t e = ground (arith, count-without a b set t)

pub object-none : (a : ℕ) (set : List Timer) → count a set ≡ 0 → object a set ≡ none
unfolding object
object-none a [] h = refl
object-none a (x ∷ set) h = ground (arith, object-none a set)

pub object-append :
    (a : ℕ) (xs ys : List Timer)
    → object a (xs ++ ys) ≡ (elim (object a xs) [ none ↦ object a ys | some t ↦ some t ])
unfolding object
object-append a [] ys = refl
object-append a (x ∷ xs) ys = ground (arith, object-append a xs ys)

-- `erase(find(t))` removes the timer itself.
pub erase-object :
    (a : ℕ) (set : List Timer) (t : Timer)
    → object a set ≡ some t
    → erase t set ≡ some (without a set)
unfolding object erase without
erase-object a [] t e = cc
erase-object a (x ∷ set) t e = ground (arith, erase-object a set t, object-address a set t)

pub erase-none : (t : Timer) (set : List Timer) → count t.address set ≡ 0 → erase t set ≡ none
unfolding erase
erase-none t [] h = refl
erase-none t (x ∷ set) h = ground (arith, erase-none t set)
