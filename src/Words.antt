-- ===== src/Words.antt =====
-- Machine words as numbers below a power of two: the bits that civan/bytearray.cc combines, and the
-- order of the bytes of a word in memory, of civan/endian.h.
use civan.Common.{
  ℕ, zero, suc, ◌+◌, ◌-◌, ◌*◌, ◌/◌, ◌%◌, ◌^◌, ◌<◌, ◌≡◌, refl, ap, sym, ◌∙◌, max, List, [], ◌∷◌,
  ◌++◌, arith, length, length-append,
}
use native.Mathlib.Nat.{pow-suc, one-le-pow}
use mathlib.Core.List.{reverse, reverse-cons, reverse-reverse}

-- `x | y` and `x ^ y` on words of `k` bits.
unfoldable pub or_bits : ℕ → ℕ → ℕ → ℕ
or_bits zero x y = 0
or_bits (suc k) x y = max (x % 2) (y % 2) + 2 * or_bits k (x / 2) (y / 2)

unfoldable pub xor_bits : ℕ → ℕ → ℕ → ℕ
xor_bits zero x y = 0
xor_bits (suc k) x y = (x % 2 + y % 2) % 2 + 2 * xor_bits k (x / 2) (y / 2)

pub or_bits-lt : (k x y : ℕ) → or_bits k x y < 2 ^ k
unfolding or_bits
or_bits-lt zero x y = omega arith
or_bits-lt (suc k) x y = omega (arith, or_bits-lt k (x / 2) (y / 2), pow-suc 2 k)

pub or_bits_zero : (k y : ℕ) → y < 2 ^ k → or_bits k 0 y ≡ y
unfolding or_bits
or_bits_zero zero y h = omega arith
or_bits_zero (suc k) y h = ground (arith, or_bits_zero k (y / 2), pow-suc 2 k)

-- `|` of a number of `i` bits and a number shifted by `i` is their sum.
pub or_bits_add :
    (k i a b : ℕ) → a < 2 ^ i → a + b * 2 ^ i < 2 ^ k → or_bits k a (b * 2 ^ i) ≡ a + b * 2 ^ i
unfolding or_bits
or_bits_add zero i a b h f = omega arith
or_bits_add (suc k) zero a b h f =
    let none_left : a ≡ 0 = omega arith in
    let same : b * 2 ^ 0 ≡ b = omega arith in
    rw (none_left, same) (or_bits_zero (suc k) b (omega arith) ∙ omega arith)
or_bits_add (suc k) (suc i) a b h f =
    let twice : b * 2 ^ suc i ≡ 2 * (b * 2 ^ i) =
      omega (arith, ap (λ (t : ℕ). b * t) (pow-suc 2 i)) in
    let halved : b * 2 ^ suc i / 2 ≡ b * 2 ^ i = omega (arith, twice) in
    rw halved (
      omega (
        arith,
        twice,
        or_bits_add k i (a / 2) b (omega (arith, pow-suc 2 i)) (omega (arith, twice, pow-suc 2 k)),
      ))

pub xor_bits_zero : (k x : ℕ) → x < 2 ^ k → xor_bits k x 0 ≡ x
unfolding xor_bits
xor_bits_zero zero x h = omega arith
xor_bits_zero (suc k) x h = ground (arith, xor_bits_zero k (x / 2), pow-suc 2 k)

-- `^` with a word of ones takes the complement.
pub xor_bits_ones : (k x : ℕ) → x < 2 ^ k → xor_bits k x (2 ^ k - 1) ≡ 2 ^ k - 1 - x
unfolding xor_bits
xor_bits_ones zero x h = omega arith
xor_bits_ones (suc k) x h =
    let halved : (2 ^ suc k - 1) / 2 ≡ 2 ^ k - 1 =
      omega (arith, pow-suc 2 k, one-le-pow k 2 (omega arith)) in
    rw halved (
      omega (
        arith,
        pow-suc 2 k,
        one-le-pow k 2 (omega arith),
        xor_bits_ones k (x / 2) (omega (arith, pow-suc 2 k)),
      ))

-- The `k` bytes of a word, lowest first, and the word that such bytes stand for.
unfoldable pub low_first : ℕ → ℕ → List ℕ
low_first zero v = []
low_first (suc k) v = v % 256 ∷ low_first k (v / 256)

unfoldable pub word_of : List ℕ → ℕ
word_of [] = 0
word_of (b ∷ bs) = b + 256 * word_of bs

abbrev pub AllBytes : List ℕ → Type 0
AllBytes [] = Unit {0}
AllBytes (b ∷ bs) = (b < 256) × AllBytes bs

pub length-low_first : (k v : ℕ) → length (low_first k v) ≡ k
unfolding low_first
length-low_first zero v = refl
length-low_first (suc k) v = ap suc (length-low_first k (v / 256))

pub word_of-low_first : (k v : ℕ) → v < 256 ^ k → word_of (low_first k v) ≡ v
unfolding word_of low_first
word_of-low_first zero v h = omega arith
word_of-low_first (suc k) v h =
    omega (arith, word_of-low_first k (v / 256) (omega (arith, pow-suc 256 k)))

pub low_first-word_of : (bs : List ℕ) → AllBytes bs → low_first (length bs) (word_of bs) ≡ bs
unfolding word_of low_first
low_first-word_of [] h = refl
low_first-word_of (b ∷ bs) h = ground (arith, low_first-word_of bs h.1)

low_first-AllBytes : (k v : ℕ) → AllBytes (low_first k v)
unfolding low_first
low_first-AllBytes zero v = tt
low_first-AllBytes (suc k) v = (omega arith, low_first-AllBytes k (v / 256))

AllBytes-append : (xs ys : List ℕ) → AllBytes xs → AllBytes ys → AllBytes (xs ++ ys)
AllBytes-append [] ys h k = k
AllBytes-append (x ∷ xs) ys h k = (h.0, AllBytes-append xs ys h.1 k)

AllBytes-reverse : (xs : List ℕ) → AllBytes xs → AllBytes (reverse xs)
AllBytes-reverse [] h = tt
AllBytes-reverse (x ∷ xs) h =
    rw (reverse-cons x xs)
      (AllBytes-append (reverse xs) (x ∷ []) (AllBytes-reverse xs h.1) (h.0, tt))

length-reverse : (xs : List ℕ) → length (reverse xs) ≡ length xs
length-reverse [] = refl
length-reverse (x ∷ xs) =
    rw (reverse-cons x xs) (omega (arith, length-append (reverse xs) (x ∷ []), length-reverse xs))

-- `byteswap` of civan/endian.h, which is `bswap_16`, `bswap_32` or `bswap_64` by the size of the
-- type: the same bytes in the other order.
unfoldable pub byteswap : ℕ → ℕ → ℕ
byteswap k v = word_of (reverse (low_first k v))

pub low_first-byteswap : (k v : ℕ) → low_first k (byteswap k v) ≡ reverse (low_first k v)
unfolding byteswap
low_first-byteswap k v =
    let bs = reverse (low_first k v) in
    let e : length bs ≡ k = length-reverse (low_first k v) ∙ length-low_first k v in
    ap (λ n. low_first n (word_of bs)) (sym e)
    ∙ low_first-word_of bs (AllBytes-reverse (low_first k v) (low_first-AllBytes k v))

pub length-reverse-low_first : (k v : ℕ) → length (reverse (low_first k v)) ≡ k
length-reverse-low_first k v = length-reverse (low_first k v) ∙ length-low_first k v

-- Swapping twice gives the word back.
pub byteswap-byteswap : (k v : ℕ) → v < 256 ^ k → byteswap k (byteswap k v) ≡ v
byteswap-byteswap k v h =
    unfold byteswap in
    ap (λ bs. word_of (reverse bs)) (low_first-byteswap k v)
    ∙ rw (reverse-reverse (low_first k v)) (word_of-low_first k v h)
