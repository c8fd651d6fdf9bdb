-- ===== src/ByteArray/Zigzag.antt =====
-- The signed-to-unsigned mapping of civan/bytearray.cc.
use civan.Common.{
  ℕ, ◌+◌, ◌-◌, ◌*◌, ◌%◌, ◌^◌, ◌≤◌, ◌<◌, ◌≡◌, ◌≢◌, ap, ◌⊎◌, ◌↔◌, inl, inr, arith, leb, ltb, refl,
  if◌then◌else◌, Bool-cases,
}
use civan.Common.Outcome.{Outcome, ok, out_of_range, undefined, assert_failed, ◌>>=◌}
use civan.Words.{xor_bits_zero, xor_bits_ones}
use civan.ByteArray.Codec.{encode_zigzag, decode_zigzag, shift_right_signed}

-- The code of a bit pattern of `w` bits, as the integers see it: 0, -1, 1, -2, ... go to 0, 1, 2, 3, ...
unfoldable pub zigzag : ℕ → ℕ → ℕ
zigzag w v = if ltb v (2 ^ (w - 1)) then 2 * v else 2 * (2 ^ w - 1 - v) + 1

-- The values that an encoder takes with no signed overflow.
abbrev pub IsCodable32 : ℕ → Type 0
IsCodable32 v = (v < 2 ^ 30) ⊎ ((2 ^ 31 < v) × (v < 2 ^ 32))

pub encode_zigzag-zigzag32 : (v : ℕ) → IsCodable32 v → encode_zigzag 32 v ≡ ok (zigzag 32 v)
unfolding encode_zigzag zigzag
encode_zigzag-zigzag32 v (inl h) = ground arith
encode_zigzag-zigzag32 v (inr h) = ground arith

pub encode_zigzag-zigzag64 :
    (v : ℕ) → (v < 2 ^ 62) ⊎ ((2 ^ 63 < v) × (v < 2 ^ 64)) → encode_zigzag 64 v ≡ ok (zigzag 64 v)
unfolding encode_zigzag zigzag
encode_zigzag-zigzag64 v (inl h) = ground arith
encode_zigzag-zigzag64 v (inr h) = ground arith

encode_zigzag_overflows : (v : ℕ) → 2 ^ 62 ≤ v → v ≤ 2 ^ 63 → encode_zigzag 64 v ≡ undefined
unfolding encode_zigzag
encode_zigzag_overflows v lo hi = ground arith

pub zigzag-lt : (v : ℕ) → v < 2 ^ 32 → zigzag 32 v < 2 ^ 32
unfolding zigzag
zigzag-lt v h = ground arith

-- The `int64_t` values whose code has 32 bits.
abbrev pub IsNarrow : ℕ → Type 0
IsNarrow v = (v < 2 ^ 31) ⊎ ((2 ^ 64 - 2 ^ 31 ≤ v) × (v < 2 ^ 64))

pub zigzag_narrow : (v : ℕ) → IsNarrow v → zigzag 64 v < 2 ^ 32
unfolding zigzag
zigzag_narrow v (inl h) = ground arith
zigzag_narrow v (inr h) = ground arith

pub codable-lt : (v : ℕ) → IsCodable32 v → v < 2 ^ 32
codable-lt v (inl h) = omega arith
codable-lt v (inr h) = h.1

-- A narrow value is within reach of its code.
pub narrow-codable : (v : ℕ) → IsNarrow v → (v < 2 ^ 62) ⊎ ((2 ^ 63 < v) × (v < 2 ^ 64))
narrow-codable v (inl h) = inl (omega arith)
narrow-codable v (inr h) = inr (omega arith, h.1)

pub narrow_back : (v : ℕ) → IsNarrow v → (v < 2 ^ 64) × ((v < 2 ^ 62) ⊎ (2 ^ 64 - 2 ^ 62 ≤ v))
narrow_back v (inl h) = (omega arith, inl (omega arith))
narrow_back v (inr h) = (h.1, inr (omega arith))

decode_even : (v : ℕ) → v < 2 ^ 64 → v % 2 ≡ 0 → decode_zigzag v ≡ shift_right_signed v
unfolding decode_zigzag
decode_even v h e = rw e (xor_bits_zero 64 (shift_right_signed v) (ground arith))

decode_odd : (v : ℕ) → v < 2 ^ 64 → v % 2 ≡ 1 → decode_zigzag v ≡ 2 ^ 64 - 1 - shift_right_signed v
unfolding decode_zigzag
decode_odd v h e = rw e (xor_bits_ones 64 (shift_right_signed v) (ground arith))

-- The code of a word of 64 bits, by its sign.
code_nonneg : (v : ℕ) → v < 2 ^ 63 → zigzag 64 v ≡ 2 * v
unfolding zigzag
code_nonneg v h = ground arith

code_neg : (v : ℕ) → 2 ^ 63 ≤ v → v < 2 ^ 64 → zigzag 64 v ≡ 2 * (2 ^ 64 - 1 - v) + 1
unfolding zigzag
code_neg v lo hi = ground arith

decode_twice : (k : ℕ) → k < 2 ^ 62 → decode_zigzag (2 * k) ≡ k
decode_twice k h = ground (arith, decode_even (2 * k))

decode_twice_suc : (k : ℕ) → k < 2 ^ 62 → decode_zigzag (2 * k + 1) ≡ 2 ^ 64 - 1 - k
decode_twice_suc k h = ground (arith, decode_odd (2 * k + 1))

decode_twice_suc_wide :
    (k : ℕ) → 2 ^ 62 ≤ k → k < 2 ^ 63 → decode_zigzag (2 * k + 1) ≡ 2 ^ 63 - 1 - k
decode_twice_suc_wide k lo hi = ground (arith, decode_odd (2 * k + 1))

-- Every `int32_t` is got back from its code.
pub decode-zigzag32 : (v : ℕ) → v < 2 ^ 32 → decode_zigzag (zigzag 32 v) % 2 ^ 32 ≡ v
unfolding zigzag
decode-zigzag32 v h = elim (Bool-cases (ltb v (2 ^ 31))) [
  | inl nonneg ↦ rw (nonneg, decode_twice v (ground arith)) (omega arith)
  | inr neg ↦ rw (neg, decode_twice_suc (2 ^ 32 - 1 - v) (omega arith)) (ground arith)
]

-- An `int64_t` is got back if it lies between -(2 ^ 62) and 2 ^ 62 - 1.
pub decode-zigzag64 :
    (v : ℕ) → v < 2 ^ 64 → (v < 2 ^ 62) ⊎ (2 ^ 64 - 2 ^ 62 ≤ v) → decode_zigzag (zigzag 64 v) ≡ v
decode-zigzag64 v h (inl r) = rw (code_nonneg v (omega arith)) (decode_twice v r)
decode-zigzag64 v h (inr r) =
    rw (code_neg v (omega arith) h, decode_twice_suc (2 ^ 64 - 1 - v) (omega arith)) (omega arith)

decode-ne-zigzag64 : (v : ℕ) → 2 ^ 63 < v → v < 2 ^ 64 - 2 ^ 62 → decode_zigzag (zigzag 64 v) ≢ v
decode-ne-zigzag64 v lo hi e = omega (
  arith,
  decode_twice_suc_wide (2 ^ 64 - 1 - v) (omega arith) (omega arith),
  ap decode_zigzag (code_neg v (omega arith) (omega arith)),
)

-- What a round trip through the code gives.
abbrev pub through_code64 : ℕ → Outcome ℕ
through_code64 v = encode_zigzag 64 v >>= λ code. ok (decode_zigzag code)

ok_value : {m n : ℕ} → ok m ≡ ok n → m ≡ n
ok_value {m} h =
    ap (λ o. elim o as (λ x. ℕ) [ ok x ↦ x | out_of_range ↦ m | undefined ↦ m | assert_failed ↦ m ])
      h

-- `DecodeZigzag64` of `EncodeZigzag64` of an `int64_t` gives it back exactly if it lies between -(2 ^ 62)
-- and 2 ^ 62 - 1. Otherwise `v * 2` or `-v` overflows, or the value is below -(2 ^ 62) and the signed
-- shift of `DecodeZigzag64` copies the top bit of the code. (`readInt64` gets 32 bits of the code only.)
pub decode-encode64_iff :
    (v : ℕ) → v < 2 ^ 64 → (through_code64 v ≡ ok v) ↔ ((v < 2 ^ 62) ⊎ (2 ^ 64 - 2 ^ 62 ≤ v))
decode-encode64_iff v h = (range, back)
  where
    range : through_code64 v ≡ ok v → (v < 2 ^ 62) ⊎ (2 ^ 64 - 2 ^ 62 ≤ v)
    range e = elim (Bool-cases (ltb v (2 ^ 62))) [
      | inl small ↦ inl (ground arith)
      | inr lo ↦ elim (Bool-cases (leb v (2 ^ 63))) [
        | inl hi ↦
            let none : undefined ≡ ok v =
              rw (encode_zigzag_overflows v (ground arith) (ground arith)) at e in
            absurd cc
        | inr neg ↦ elim (Bool-cases (leb (2 ^ 64 - 2 ^ 62) v)) [
          | inl top ↦ inr (ground arith)
          | inr below ↦
              let same : ok (decode_zigzag (zigzag 64 v)) ≡ ok v =
                rw (encode_zigzag-zigzag64 v (inr (ground arith, h))) at e in
              absurd (decode-ne-zigzag64 v (ground arith) (ground arith) (ok_value same))
        ]
      ]
    ]

    back : (v < 2 ^ 62) ⊎ (2 ^ 64 - 2 ^ 62 ≤ v) → through_code64 v ≡ ok v
    back (inl r) = rw (encode_zigzag-zigzag64 v (inl r), decode-zigzag64 v h (inl r)) refl
    back (inr r) =
        rw (encode_zigzag-zigzag64 v (inr (omega arith, h)), decode-zigzag64 v h (inr r)) refl
