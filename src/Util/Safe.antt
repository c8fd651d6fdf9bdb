-- ===== src/Util/Safe.antt =====
-- The characters that `UrlEncode` (civan/util.cc) can write.
use civan.Common.{
  Chars, ℕ, ◌<◌, ◌/◌, ◌%◌, [], ◌∷◌, ◌++◌, Bool, true, false, ◌&&◌, ◌||◌, ◌==◌, ◌≡◌, refl, if_cases,
  if_both,
}
use civan.Words.{AllBytes}
use civan.Util.Url.{char_is_unreserved, hexdigits, escape}
use civan.Common.Table.{all_below, all_below_lem}
use civan.Util.Loops.{encoded, encode_all}

-- The characters that `UrlEncode` writes.
unfoldable pub is_safe : ℕ → Bool
is_safe c = char_is_unreserved c || c == b'%' || c == b'+'

abbrev pub AllSafe : Chars → Type 0
AllSafe [] = Unit {0}
AllSafe (c ∷ str) = (is_safe c ≡ true) × AllSafe str

AllSafe-append : (xs ys : Chars) → AllSafe xs → AllSafe ys → AllSafe (xs ++ ys)
AllSafe-append [] ys s t = t
AllSafe-append (x ∷ xs) ys (k, s) t = (k, AllSafe-append xs ys s t)

digits_safe : ℕ → Bool
digits_safe c = is_safe (hexdigits (c / 16)) && is_safe (hexdigits (c % 16))

digits_all : all_below digits_safe 256 ≡ true
unfolding all_below digits_safe is_safe hexdigits char_is_unreserved
digits_all = refl

both_true : (a b : Bool) → (a && b) ≡ true → (a ≡ true) × (b ≡ true)
both_true true b h = (refl, h)
both_true false b h = cc

plus_safe : is_safe b'+' ≡ true
unfolding is_safe char_is_unreserved
plus_safe = refl

percent_safe : is_safe b'%' ≡ true
unfolding is_safe char_is_unreserved
percent_safe = refl

digits_fit :
    (c : ℕ)
    → c < 256
    → (is_safe (hexdigits (c / 16)) ≡ true) × (is_safe (hexdigits (c % 16)) ≡ true)
unfolding digits_safe
digits_fit c h =
    both_true (is_safe (hexdigits (c / 16))) (is_safe (hexdigits (c % 16)))
      (all_below_lem digits_safe 256 c digits_all h)

plain_safe : (c : ℕ) → char_is_unreserved c ≡ true → is_safe c ≡ true
unfolding is_safe
plain_safe c e = rw e refl

encoded-AllSafe : (plus : Bool) (c : ℕ) → c < 256 → AllSafe (encoded plus c)
unfolding encoded escape
encoded-AllSafe plus c h =
    if_cases AllSafe (char_is_unreserved c) (c ∷ []) (escape plus c) (λ e. (plain_safe c e, tt))
      (λ e.
        if_both AllSafe (c == b' ' && plus) (b'+' ∷ [])
          (b'%' ∷ hexdigits (c / 16) ∷ hexdigits (c % 16) ∷ []) (plus_safe, tt)
          (percent_safe, ((digits_fit c h).0, ((digits_fit c h).1, tt))))

pub encode_all-AllSafe : (plus : Bool) (str : Chars) → AllBytes str → AllSafe (encode_all plus str)
unfolding encode_all
encode_all-AllSafe plus [] b = tt
encode_all-AllSafe plus (c ∷ str) (h, b) =
    AllSafe-append (encoded plus c) (encode_all plus str) (encoded-AllSafe plus c h)
      (encode_all-AllSafe plus str b)
