-- ===== src/Common/SortedMap.antt =====
-- `std::map` as the list of its entries in the order of the keys. `less` is the comparator of the map.

use mathlib.Core.Path.{◌≡◌, refl}
use mathlib.Core.Bool.{Bool, true, false, not, ◌&&◌}
use mathlib.Core.Option.{Option, none, some}
use mathlib.Core.List.{List, [], ◌∷◌}
use native.Mathlib.Omega.{arith}
use civan.Common.Tests.{if◌then◌else◌, if_cases, if_both}

-- What the map asks of its comparator: a strict weak order.
pub record IsStrictOrder {ℓ} {K : Type ℓ} (less : K → K → Bool) : Type ℓ where
  pub irrefl : (a : K) → less a a ≡ false
  pub trans : (a b c : K) → less a b ≡ true → less b c ≡ true → less a c ≡ true
  pub cotrans : (a b c : K) → less a c ≡ true → less a b ≡ false → less b c ≡ true

unfoldable pub equivalent {ℓ} : {K : Type ℓ} → (K → K → Bool) → K → K → Bool
equivalent less j k = not (less j k) && not (less k j)

-- What is found, or else `v` where the key is the `same`.
abbrev pub found_or {ℓ} : {V : Type ℓ} → Option V → Bool → V → Option V
found_or (some w) same v = some w
found_or none same v = if same then some v else none

-- What the order says of three keys.
abbrev Facts {ℓ} : {K : Type ℓ} → (K → K → Bool) → K → K → K → Type 0
Facts less i j k =
    (less i k ≡ true → less i j ≡ false → less j k ≡ true)
    × (less k i ≡ true → less k j ≡ false → less j i ≡ true)
    × (less i j ≡ true → less i k ≡ false → less k j ≡ true)
    × (less j i ≡ true → less j k ≡ false → less k i ≡ true)
    × (less j k ≡ true → less j i ≡ false → less i k ≡ true)
    × (less k j ≡ true → less k i ≡ false → less i j ≡ true)
    × (less i j ≡ true → less j i ≡ true → less i i ≡ true)
    × (less i k ≡ true → less k i ≡ true → less i i ≡ true)
    × (less j k ≡ true → less k j ≡ true → less j j ≡ true)
    × (less i i ≡ false)
    × (less j j ≡ false)

facts {ℓ} :
    {K : Type ℓ} {less : K → K → Bool} (order : IsStrictOrder less) (i j k : K) → Facts less i j k
facts order i j k = (
  order.cotrans i j k,
  order.cotrans k j i,
  order.cotrans i k j,
  order.cotrans j k i,
  order.cotrans j i k,
  order.cotrans k i j,
  order.trans i j i,
  order.trans i k i,
  order.trans j k j,
  order.irrefl i,
  order.irrefl j,
)

module _ {ℓ κ} {K : Type ℓ} {V : Type κ} (less : K → K → Bool) where
  unfoldable pub find : K → List (K × V) → Option V
  find key [] = none
  find key ((k, v) ∷ m) = if less k key then find key m else if less key k then none else some v

  -- `m[key] = val`. An equivalent key that is there stays as it is spelt.
  unfoldable pub assign : K → V → List (K × V) → List (K × V)
  assign key val [] = (key, val) ∷ []
  assign key val ((k, v) ∷ m) =
      if less k key
      then (k, v) ∷ assign key val m
      else if less key k
      then (key, val) ∷ (k, v) ∷ m
      else (k, val) ∷ m

  -- `m.insert(std::make_pair(key, val))` leaves an equivalent key with its value.
  unfoldable pub insert : K → V → List (K × V) → List (K × V)
  insert key val [] = (key, val) ∷ []
  insert key val ((k, v) ∷ m) =
      if less k key
      then (k, v) ∷ insert key val m
      else if less key k
      then (key, val) ∷ (k, v) ∷ m
      else (k, v) ∷ m

  unfoldable pub erase : K → List (K × V) → List (K × V)
  erase key [] = []
  erase key ((k, v) ∷ m) =
      if less k key then (k, v) ∷ erase key m else if less key k then (k, v) ∷ m else m

  -- All keys of `m` are behind `key`.
  abbrev pub Behind : K → List (K × V) → Type 0
  Behind key [] = Unit {0}
  Behind key ((k, v) ∷ m) = (less key k ≡ true) × Behind key m

  abbrev pub Sorted : List (K × V) → Type 0
  Sorted [] = Unit {0}
  Sorted ((k, v) ∷ m) = Behind k m × Sorted m

  module _ (order : IsStrictOrder less) where
    pub find-assign :
        (j k : K) (v : V) (m : List (K × V))
        → find j (assign k v m) ≡ (if equivalent less k j then some v else find j m)
    unfolding find assign equivalent
    find-assign j k v [] = ground arith
    find-assign j k v ((i, w) ∷ m) = ground (arith, facts order i j k, find-assign j k v m)

    pub find-insert :
        (j k : K) (v : V) (m : List (K × V))
        → find j (insert k v m) ≡ found_or (find j m) (equivalent less k j) v
    unfolding find insert equivalent
    find-insert j k v [] = ground arith
    find-insert j k v ((i, w) ∷ m) = ground (arith, facts order i j k, find-insert j k v m)

    Behind-trans : (i j : K) (m : List (K × V)) → less i j ≡ true → Behind j m → Behind i m
    Behind-trans i j [] h b = tt
    Behind-trans i j ((k, v) ∷ m) h (b, bs) = (order.trans i j k h b, Behind-trans i j m h bs)

    -- A key that is not behind those of `m` is not found.
    find-Behind : (i j : K) (m : List (K × V)) → less i j ≡ false → Behind i m → find j m ≡ none
    unfolding find
    find-Behind i j [] h b = refl
    find-Behind i j ((k, v) ∷ m) h (b, bs) =
        ground (arith, facts order i j k, find-Behind i j m h bs)

    pub find-erase :
        (j k : K) (m : List (K × V))
        → Sorted m
        → find j (erase k m) ≡ (if equivalent less k j then none else find j m)
    unfolding find erase equivalent
    find-erase j k [] s = ground arith
    find-erase j k ((i, w) ∷ m) (b, s) =
        ground (arith, facts order i j k, find-Behind i j m, find-erase j k m s)

    Behind-assign :
        (i k : K) (v : V) (m : List (K × V))
        → less i k ≡ true
        → Behind i m
        → Behind i (assign k v m)
    unfolding assign
    Behind-assign i k v [] h b = (h, tt)
    Behind-assign i k v ((j, w) ∷ m) h (b, bs) = ground (arith, Behind-assign i k v m h bs)

    Behind-insert :
        (i k : K) (v : V) (m : List (K × V))
        → less i k ≡ true
        → Behind i m
        → Behind i (insert k v m)
    unfolding insert
    Behind-insert i k v [] h b = (h, tt)
    Behind-insert i k v ((j, w) ∷ m) h (b, bs) = ground (arith, Behind-insert i k v m h bs)

    Behind-erase : (i k : K) (m : List (K × V)) → Behind i m → Behind i (erase k m)
    unfolding erase
    Behind-erase i k [] b = tt
    Behind-erase i k ((j, w) ∷ m) (b, bs) = ground (arith, Behind-erase i k m bs)

    pub assign-Sorted : (k : K) (v : V) (m : List (K × V)) → Sorted m → Sorted (assign k v m)
    unfolding assign
    assign-Sorted k v [] s = (tt, tt)
    assign-Sorted k v ((j, w) ∷ m) (b, s) =
        if_cases Sorted (less j k) ((j, w) ∷ assign k v m)
          (if less k j then (k, v) ∷ (j, w) ∷ m else (j, v) ∷ m)
          (λ h. (Behind-assign j k v m h b, assign-Sorted k v m s))
          (λ g.
            if_cases Sorted (less k j) ((k, v) ∷ (j, w) ∷ m) ((j, v) ∷ m)
              (λ h. ((h, Behind-trans k j m h b), (b, s))) (λ h. (b, s)))

    pub insert-Sorted : (k : K) (v : V) (m : List (K × V)) → Sorted m → Sorted (insert k v m)
    unfolding insert
    insert-Sorted k v [] s = (tt, tt)
    insert-Sorted k v ((j, w) ∷ m) (b, s) =
        if_cases Sorted (less j k) ((j, w) ∷ insert k v m)
          (if less k j then (k, v) ∷ (j, w) ∷ m else (j, w) ∷ m)
          (λ h. (Behind-insert j k v m h b, insert-Sorted k v m s))
          (λ g.
            if_cases Sorted (less k j) ((k, v) ∷ (j, w) ∷ m) ((j, w) ∷ m)
              (λ h. ((h, Behind-trans k j m h b), (b, s))) (λ h. (b, s)))

    pub erase-Sorted : (k : K) (m : List (K × V)) → Sorted m → Sorted (erase k m)
    unfolding erase
    erase-Sorted k [] s = tt
    erase-Sorted k ((j, w) ∷ m) (b, s) =
        if_cases Sorted (less j k) ((j, w) ∷ erase k m) (if less k j then (j, w) ∷ m else m)
          (λ h. (Behind-erase j k m b, erase-Sorted k m s))
          (λ g. if_both Sorted (less k j) ((j, w) ∷ m) m (b, s) s)
