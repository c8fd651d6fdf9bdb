-- ===== src/Address/Order.antt =====
-- The comparisons of `Address` in civan/address.cc. An address is its `getAddrLen()` bytes from
-- `getAddr()`.
use Prim.Native.Nat.{compare, Ordering}
use civan.Common.{
  ℕ, zero, suc, List, [], ◌∷◌, Bool, true, false, not, ◌&&◌, ◌||◌, ◌==◌, ltb, min, length, ◌≡◌,
  refl, ap, sym, ◌∙◌, arith,
}
use civan.Common.SortedMap.{IsStrictOrder, equivalent}

-- The first difference of the first `n` bytes. There are as many in both.
unfoldable pub memcmp : ℕ → List ℕ → List ℕ → Ordering
memcmp zero a b = Ordering.eq
memcmp (suc n) [] b = Ordering.eq
memcmp (suc n) (c ∷ a) [] = Ordering.eq
memcmp (suc n) (c ∷ a) (d ∷ b) = elim (compare c d) [
  | Ordering.eq ↦ memcmp n a b
  | Ordering.lt ↦ Ordering.lt
  | Ordering.gt ↦ Ordering.gt
]

abbrev less_on : ℕ → List ℕ → List ℕ → Bool
less_on n a b = elim (memcmp n a b) [
  | Ordering.lt ↦ true
  | Ordering.gt ↦ false
  | Ordering.eq ↦ ltb (length a) (length b)
]

unfoldable pub address_less : List ℕ → List ℕ → Bool
address_less a b = less_on (min (length a) (length b)) a b

unfoldable pub is_zero : Ordering → Bool
is_zero Ordering.lt = false
is_zero Ordering.eq = true
is_zero Ordering.gt = false

unfoldable pub address_equal : List ℕ → List ℕ → Bool
unfolding memcmp is_zero
address_equal a b = length a == length b && is_zero (memcmp (length a) a b)

-- The order of words in a dictionary.
unfoldable pub precedes : List ℕ → List ℕ → Bool
precedes a [] = false
precedes [] (d ∷ b) = true
precedes (c ∷ a) (d ∷ b) = ltb c d || (c == d && precedes a b)

less_precedes : (a b : List ℕ) → address_less a b ≡ precedes a b
unfolding address_less precedes memcmp
less_precedes [] [] = refl
less_precedes [] (d ∷ b) =
    let none_left : min 0 (suc (length b)) ≡ 0 = omega arith in
    ap (λ n. less_on n [] (d ∷ b)) none_left ∙ ground arith
less_precedes (c ∷ a) [] =
    let none_left : min (suc (length a)) 0 ≡ 0 = omega arith in
    ap (λ n. less_on n (c ∷ a) []) none_left ∙ ground arith
less_precedes (c ∷ a) (d ∷ b) =
    let one_more : min (suc (length a)) (suc (length b)) ≡ suc (min (length a) (length b)) =
      omega arith in
    ap (λ n. less_on n (c ∷ a) (d ∷ b)) one_more ∙ ground (arith, less_precedes a b)

precedes_irrefl : (a : List ℕ) → precedes a a ≡ false
unfolding precedes
precedes_irrefl [] = refl
precedes_irrefl (c ∷ a) = ground (arith, precedes_irrefl a)

precedes_trans : (a b c : List ℕ) → precedes a b ≡ true → precedes b c ≡ true → precedes a c ≡ true
unfolding precedes
precedes_trans a b [] h k = ground (arith)
precedes_trans a [] (z ∷ c) h k = ground (arith)
precedes_trans [] (y ∷ b) (z ∷ c) h k = refl
precedes_trans (x ∷ a) (y ∷ b) (z ∷ c) h k = ground (arith, precedes_trans a b c)

precedes_cotrans :
    (a b c : List ℕ) → precedes a c ≡ true → precedes a b ≡ false → precedes b c ≡ true
unfolding precedes
precedes_cotrans a b [] h k = ground (arith)
precedes_cotrans a [] (z ∷ c) h k = refl
precedes_cotrans [] (y ∷ b) (z ∷ c) h k = ground (arith)
precedes_cotrans (x ∷ a) (y ∷ b) (z ∷ c) h k = ground (arith, precedes_cotrans a b c)

equal_neither : (a b : List ℕ) → address_equal a b ≡ (not (precedes a b) && not (precedes b a))
unfolding address_equal precedes memcmp is_zero
equal_neither [] [] = refl
equal_neither [] (d ∷ b) = ground arith
equal_neither (c ∷ a) [] = ground arith
equal_neither (c ∷ a) (d ∷ b) = ground (arith, equal_neither a b)

-- The `<` of addresses is a comparator as `std::map` asks for, and `==` holds of two addresses exactly
-- where neither is less than the other.
address_less-address_equal :
    IsStrictOrder address_less × ((a b : List ℕ) → address_equal a b ≡ equivalent address_less a b)
unfolding equivalent
address_less-address_equal = (
  record {
    irrefl = λ a. less_precedes a a ∙ precedes_irrefl a;
    trans = λ a b c h k.
        less_precedes a c
        ∙ precedes_trans a b c (sym (less_precedes a b) ∙ h) (sym (less_precedes b c) ∙ k);
    cotrans = λ a b c h k.
        less_precedes b c
        ∙ precedes_cotrans a b c (sym (less_precedes a c) ∙ h) (sym (less_precedes a b) ∙ k);
  },
  λ a b. equal_neither a b ∙ rw (less_precedes a b, less_precedes b a) refl,
)
