-- ===== src/Http/Decimal.antt =====
-- The numbers that `dump` of civan/http/http.cc writes.
use native.Mathlib.Nat.{pow-suc}
use civan.Common.{
  Chars, ℕ, zero, suc, ◌+◌, ◌-◌, ◌*◌, ◌/◌, ◌%◌, ◌^◌, ◌<◌, [], ◌∷◌, ◌++◌, ◌≡◌, refl, arith,
}
use civan.Http.Dump.{digits, decimal}

-- The number that decimal digits stand for.
unfoldable pub number_of : ℕ → Chars → ℕ
number_of n [] = n
number_of n (c ∷ str) = number_of (n * 10 + (c - b'0')) str

number_of_append :
    (n : ℕ) (front : Chars) (c : ℕ)
    → number_of n (front ++ c ∷ []) ≡ number_of n front * 10 + (c - b'0')
unfolding number_of
number_of_append n [] c = refl
number_of_append n (d ∷ front) c = number_of_append (n * 10 + (d - b'0')) front c

number_of-digits : (fuel n : ℕ) → n < 10 ^ suc fuel → number_of 0 (digits fuel n) ≡ n
unfolding number_of digits
number_of-digits zero n h = omega arith
number_of-digits (suc fuel) n h =
    let less : n / 10 < 10 ^ suc fuel = omega (arith, pow-suc 10 (suc fuel)) in
    ground (
      arith,
      number_of-digits fuel (n / 10) less,
      number_of_append 0 (digits fuel (n / 10)) (b'0' + n % 10),
    )

-- The length that `dump` writes stands for the number that it is, for every `size_t`.
pub number_of-decimal : (n : ℕ) → n < 2 ^ 64 → number_of 0 (decimal n) ≡ n
unfolding decimal
number_of-decimal n h = number_of-digits 19 n (omega arith)
