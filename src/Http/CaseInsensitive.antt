-- ===== src/Http/CaseInsensitive.antt =====
-- `CaseInsensitiveLess` of civan/http/http.h and civan/http/http.cc, with the C functions that it and
-- other code of HTTP compare strings by: `strcasecmp` and `strcasestr` in the C locale.
use Prim.Native.Nat.{compare, Ordering}
use civan.Common.{
  Chars, ℕ, ◌+◌, [], ◌∷◌, Bool, true, false, ◌&&◌, ◌||◌, ◌==◌, leb, if◌then◌else◌, ◌≡◌, refl, arith,
}
use civan.Common.SortedMap.{IsStrictOrder}

unfoldable pub tolower : ℕ → ℕ
tolower c = if leb b'A' c && leb c b'Z' then c + 32 else c

-- What a C function sees of a string: the bytes before the first null.
unfoldable pub c_str : Chars → Chars
c_str [] = []
c_str (c ∷ s) = if c == 0 then [] else c ∷ c_str s

unfoldable pub strcasecmp : Chars → Chars → Ordering
unfolding tolower
strcasecmp [] [] = Ordering.eq
strcasecmp [] (d ∷ t) = Ordering.lt
strcasecmp (c ∷ s) [] = Ordering.gt
strcasecmp (c ∷ s) (d ∷ t) = elim (compare (tolower c) (tolower d)) [
  | Ordering.eq ↦ strcasecmp s t
  | Ordering.lt ↦ Ordering.lt
  | Ordering.gt ↦ Ordering.gt
]

unfoldable pub is_lt : Ordering → Bool
is_lt Ordering.lt = true
is_lt Ordering.eq = false
is_lt Ordering.gt = false

unfoldable pub is_eq : Ordering → Bool
is_eq Ordering.lt = false
is_eq Ordering.eq = true
is_eq Ordering.gt = false

unfoldable pub case_insensitive_less : Chars → Chars → Bool
unfolding c_str strcasecmp is_lt
case_insensitive_less lhs rhs = is_lt (strcasecmp (c_str lhs) (c_str rhs))

-- Whether `prefix` stands at the front of the string, whatever the case.
unfoldable pub starts_case : Chars → Chars → Bool
unfolding tolower
starts_case [] s = true
starts_case (p ∷ prefix) [] = false
starts_case (p ∷ prefix) (c ∷ s) = tolower p == tolower c && starts_case prefix s

-- `strcasestr(s, needle) != nullptr`.
unfoldable pub strcasestr : Chars → Chars → Bool
unfolding starts_case
strcasestr [] needle = starts_case needle []
strcasestr (c ∷ s) needle = starts_case needle (c ∷ s) || strcasestr s needle

less_irrefl : (s : Chars) → is_lt (strcasecmp s s) ≡ false
unfolding strcasecmp is_lt
less_irrefl [] = refl
less_irrefl (c ∷ s) = ground (arith, less_irrefl s)

less_trans :
    (s t u : Chars)
    → is_lt (strcasecmp s t) ≡ true
    → is_lt (strcasecmp t u) ≡ true
    → is_lt (strcasecmp s u) ≡ true
unfolding strcasecmp is_lt
less_trans [] [] [] h k = cc
less_trans [] [] (e ∷ u) h k = cc
less_trans [] (d ∷ t) [] h k = cc
less_trans [] (d ∷ t) (e ∷ u) h k = refl
less_trans (c ∷ s) [] u h k = cc
less_trans (c ∷ s) (d ∷ t) [] h k = cc
less_trans (c ∷ s) (d ∷ t) (e ∷ u) h k = ground (arith, less_trans s t u)

less_cotrans :
    (s t u : Chars)
    → is_lt (strcasecmp s u) ≡ true
    → is_lt (strcasecmp s t) ≡ false
    → is_lt (strcasecmp t u) ≡ true
unfolding strcasecmp is_lt
less_cotrans [] [] [] h k = cc
less_cotrans [] [] (e ∷ u) h k = refl
less_cotrans [] (d ∷ t) u h k = cc
less_cotrans (c ∷ s) t [] h k = cc
less_cotrans (c ∷ s) [] (e ∷ u) h k = refl
less_cotrans (c ∷ s) (d ∷ t) (e ∷ u) h k = ground (arith, less_cotrans s t u)

-- `CaseInsensitiveLess` is a comparator as `std::map` asks for.
pub case_insensitive_less-IsStrictOrder : IsStrictOrder case_insensitive_less
unfolding case_insensitive_less
case_insensitive_less-IsStrictOrder = record {
  irrefl = λ a. less_irrefl (c_str a);
  trans = λ a b c. less_trans (c_str a) (c_str b) (c_str c);
  cotrans = λ a b c. less_cotrans (c_str a) (c_str b) (c_str c);
}
