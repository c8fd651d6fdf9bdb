-- ===== src/ByteArray/Doubles.antt =====
-- The `double` arithmetic of `ceil(1.0 * size / m_baseSize)` in civan/bytearray.cc: numbers of 53 bits,
-- and rounding to the nearest, of two equally near ones to the even one.
use civan.Common.{
  ℕ, zero, suc, ◌+◌, ◌*◌, ◌/◌, ◌%◌, ◌^◌, ◌≤◌, ◌<◌, ◌≡◌, refl, ap, sym, subst, ◌∙◌, inl, inr, true,
  false, ◌&&◌, ◌||◌, Bool, ltb, leb, ◌==◌, if◌then◌else◌, arith, Bool-cases,
}
use native.Mathlib.Nat.{
  div-add-mod', mod-lt, pow-succ', mul_comm, mul_assoc, mul-le-mul_left, mul-le-mul_right,
  div-le_self,
}

-- The whole number nearest to `a / d`.
unfoldable pub nearest : ℕ → ℕ → ℕ
nearest a d = if ltb (2 * (a % d)) d || 2 * (a % d) == d && a / d % 2 == 0 then a / d else a / d + 1

-- The power of 2 by which `k` is divided to have 53 bits, and that by which it is multiplied.
unfoldable pub shrink : ℕ → ℕ → ℕ
shrink zero k = 1
shrink (suc fuel) k = let more = shrink fuel (k / 2) in if ltb k (2 ^ 53) then 1 else 2 * more

unfoldable pub scale : ℕ → ℕ → ℕ
scale zero k = 1
scale (suc fuel) k = let more = scale fuel (2 * k) in if ltb (2 * k) (2 ^ 53) then 2 * more else 1

unfoldable pub scale_of : ℕ → ℕ
unfolding scale
scale_of k = scale 52 k

-- Whether `k + r / b` is nearer to `k` than to the `double` behind it.
unfoldable pub rounds_down : ℕ → ℕ → ℕ → ℕ → Bool
rounds_down s k r b = ltb (2 * (r * s)) b || 2 * (r * s) == b && k * s % 2 == 0

-- A `size_t` as a `double`.
unfoldable pub to_double : ℕ → ℕ
unfolding nearest shrink
to_double n = if ltb n (2 ^ 53) then n else nearest n (shrink 11 n) * shrink 11 n

-- `ceil` of the quotient of two `double`s that are whole. A quotient of 2 ^ 53 or more is rounded to a
-- whole number; below, one that is not whole rounds to a whole number `k` if it is nearer to `k` than to
-- the `double` behind it, and stays above `k` if it is not.
unfoldable pub ceil_quotient : ℕ → ℕ → ℕ
ceil_quotient a b =
    let k = a / b in
    let r = a % b in
    if leb (2 ^ 53) k
    then nearest a (b * shrink 11 k) * shrink 11 k
    else if r == 0
    then k
    else if k == 0
    then 1
    else if rounds_down (scale_of k) k r b
    then k
    else k + 1

-- `ceil(1.0 * size / m_baseSize)`.
unfoldable pub blocks_for : ℕ → ℕ → ℕ
blocks_for size base_size = ceil_quotient (to_double size) (to_double base_size)

double_into : (k x : ℕ) → 2 * k * x ≡ k * (2 * x)
double_into k x = ap (λ y. y * x) (mul_comm 2 k) ∙ mul_assoc k 2 x

scale-le : (fuel k : ℕ) → 2 ^ 52 ≤ k * 2 ^ fuel → 2 ^ 52 ≤ k * scale fuel k
unfolding scale
scale-le zero k h = omega (arith, h)
scale-le (suc fuel) k h = elim (Bool-cases (ltb (2 * k) (2 ^ 53))) [
  | inl small ↦
      let room : k * 2 ^ suc fuel ≡ 2 * k * 2 ^ fuel =
        ap (λ y. k * y) (pow-succ' 2 fuel) ∙ sym (double_into k (2 ^ fuel)) in
      rw small (
        subst (λ y. 2 ^ 52 ≤ y) (double_into k (scale fuel (2 * k)))
          (scale-le fuel (2 * k) (subst (λ y. 2 ^ 52 ≤ y) room h)))
  | inr large ↦ rw large (ground arith)
]

scale_of-le : (k : ℕ) → 0 < k → 2 ^ 52 ≤ k * scale_of k
unfolding scale_of
scale_of-le k pos = let fuel : 2 ^ 52 ≤ k * 2 ^ 52 = omega (arith, pos) in scale-le 52 k fuel

-- A quotient of a number below 2 ^ 53 that is not whole does not round down to a whole number.
stays_above :
    (k r s b a : ℕ)
    → k * b + r ≡ a
    → a < 2 ^ 53
    → 2 ^ 52 ≤ k * s
    → 0 < r
    → rounds_down s k r b ≡ false
unfolding rounds_down
stays_above k r s b a whole h wide pos = elim (Bool-cases (ltb b (2 * (r * s)))) [
  | inl beyond ↦ ground (arith, beyond)
  | inr near ↦
      let once : 1 * s ≤ r * s = mul-le-mul_right s pos in
      let below : 2 * s ≤ b = ground (arith, once) in
      let spread : k * (2 * s) ≤ k * b = mul-le-mul_left k below in
      absurd (grind (arith, spread, wide, whole, h))
]

-- Of whole numbers below 2 ^ 53 the quotient is rounded up as it would be with no loss.
ceil_quotient_lem :
    (a b : ℕ) → a < 2 ^ 53 → 0 < a → ceil_quotient a b ≡ (if a % b == 0 then a / b else a / b + 1)
unfolding ceil_quotient
ceil_quotient_lem a b h pos =
    let low : leb (2 ^ 53) (a / b) ≡ false = ground (arith, div-le_self a b) in
    rw low (elim (Bool-cases (a % b == 0)) [
      | inl even ↦ rw even refl
      | inr odd ↦ rw odd (elim (Bool-cases (a / b == 0)) [
        | inl small ↦ rw small (ground arith)
        | inr large ↦
            rw
              (
                large,
                stays_above (a / b) (a % b) (scale_of (a / b)) b a (div-add-mod' a b) h
                    (scale_of-le (a / b) (ground arith)) (ground arith),
              )
              refl
      ])
    ])

to_double_lem : (n : ℕ) → n < 2 ^ 53 → to_double n ≡ n
unfolding to_double
to_double_lem n h = let low : ltb n (2 ^ 53) ≡ true = ground arith in rw low refl

-- The sizes to which `addCapacity` is exact: its blocks hold the size, and the last one is needed.
pub blocks_cover :
    (k base : ℕ)
    → 0 < base
    → 0 < k
    → k + base ≤ 2 ^ 53
    → (k ≤ blocks_for k base * base) × (blocks_for k base * base < k + base)
unfolding blocks_for
blocks_cover k base b pos h =
    let whole : k / base * base + k % base ≡ k = div-add-mod' k base in
    let rest : k % base < base = mod-lt k {m = base} b in
    rw
      (
        blocks_for,
        to_double_lem k (omega arith),
        to_double_lem base (omega arith),
        ceil_quotient_lem k base (omega arith) pos,
      )
      (elim (Bool-cases (k % base == 0)) [
        | inl even ↦ rw even (grind (arith, whole, rest), grind (arith, whole, rest))
        | inr odd ↦ rw odd (grind (arith, whole, rest), grind (arith, whole, rest))
      ])
