-- ===== src/ByteArray/Varint.antt =====
-- Variable-length integers of civan/bytearray.cc.
use civan.Common.{
  ℕ, zero, suc, ◌+◌, ◌*◌, ◌/◌, ◌%◌, ◌^◌, ◌≤◌, ◌<◌, ◌≡◌, refl, ap, ◌∙◌, List, [], ◌∷◌, ◌++◌, arith,
  length, true, false, if◌then◌else◌, Bool-cases, leb, ltb, inl, inr,
}
use civan.Common.Outcome.{Outcome, ok, >>=-eq-ok}
use native.Mathlib.Nat.{pow-suc, div-add-mod}
use native.Mathlib.Numerals.{towards_suc}
use civan.Words.{or_bits, or_bits_add, or_bits-lt}
use civan.ByteArray.State.{ByteArray}
use civan.ByteArray.Codec.{
  gather, varint_loop, write_uint32, write_uint64, read_varint, shift_left32, read_uint32,
  read_uint64, read_fuint8,
}
use civan.ByteArray.Append.{IsAppending, Appends, write-Appends}
use civan.ByteArray.Feed.{Feeds, Takes}
use civan.ByteArray.Fixed.{read_fuint8-Takes}

-- Groups of seven bits, lowest first, with 128 added to all but the last: for `value` below
-- 128 ^ (room + 1).
pub varint : ℕ → ℕ → List ℕ
varint zero value = value ∷ []
varint (suc room) value =
    let more = varint room (value / 128) in
    if leb 0x80 value then (value % 128 + 128) ∷ more else value ∷ []

-- The loop stays within `tmp`.
pub varint_loop-varint :
    (room value : ℕ)
    → value < 128 ^ suc room
    → varint_loop (suc room) value ≡ ok (varint room value)
unfolding varint_loop varint
varint_loop-varint zero value h = ground arith
varint_loop-varint (suc room) value h =
    ground (arith, varint_loop-varint room (value / 128) (omega (arith, pow-suc 128 (suc room))))

pub length-varint :
    (room value : ℕ) → (1 ≤ length (varint room value)) × (length (varint room value) ≤ room + 1)
unfolding varint
length-varint zero value = omega arith
length-varint (suc room) value = ground (arith, length-varint room (value / 128))

pub write_uint32-Appends :
    (v : ℕ) (s : ByteArray)
    → v < 2 ^ 32
    → IsAppending s
    → s.position + 5 + s.base_size ≤ 2 ^ 53
    → Appends (varint 4 v) s (write_uint32 v s)
unfolding write_uint32
write_uint32-Appends v s h w limit =
    rw (varint_loop-varint 4 v (omega arith))
      (write-Appends (varint 4 v) s w (omega (arith, length-varint 4 v)))

pub write_uint64-Appends :
    (v : ℕ) (s : ByteArray)
    → v < 2 ^ 64
    → IsAppending s
    → s.position + 10 + s.base_size ≤ 2 ^ 53
    → Appends (varint 9 v) s (write_uint64 v s)
unfolding write_uint64
write_uint64-Appends v s h w limit =
    rw (varint_loop-varint 9 v (omega arith))
      (write-Appends (varint 9 v) s w (omega (arith, length-varint 9 v)))

seven : (i : ℕ) → 2 ^ (i + 7) ≡ 128 * 2 ^ i
seven i = simp towards_suc (omega arith)

shift_seven : (b i : ℕ) → b * 2 ^ (i + 7) ≡ 128 * (b * 2 ^ i)
shift_seven b i = omega (arith, ap (λ (t : ℕ). b * t) (seven i))

shift_left32_lem : (x i : ℕ) → i < 32 → x * 2 ^ i < 2 ^ 32 → shift_left32 x i ≡ ok (x * 2 ^ i)
unfolding shift_left32
shift_left32_lem x i h fits = ground arith

-- One round on the last byte, and on one that another follows.
module _ (rounds i v b : ℕ) (rest : List ℕ) (s : ByteArray) (low : i < 32) (v_lt : v < 2 ^ i) where
  last_round :
      b < 128
      → v + b * 2 ^ i < 2 ^ 32
      → Feeds (b ∷ rest) s
      → Takes (v + b * 2 ^ i) rest s (read_varint (suc rounds) i v s)
  unfolding read_varint
  last_round h fits f =
      let got = read_fuint8-Takes b rest s f in
      record {
        after = got.after;
        returns =
            let is_last : ltb b 0x80 ≡ true = ground arith in
            rw (got.returns, is_last, shift_left32_lem b i low (omega arith))
              (rw (or_bits_add 32 i v b v_lt fits));
        feeds = got.feeds;
        endian_kept = got.endian_kept;
      }

  more_round :
      b < 128
      → v + b * 2 ^ i < 2 ^ 32
      → (got : Takes (b + 128) rest s (read_fuint8 s))
      → read_varint (suc rounds) i v s ≡ read_varint rounds (i + 7) (v + b * 2 ^ i) got.after
  unfolding read_varint
  more_round h fits got =
      let not_last : ltb (b + 128) 0x80 ≡ false = ground arith in
      let masked : (b + 128) % 128 ≡ b = omega arith in
      rw (got.returns, not_last, masked, shift_left32_lem b i low (omega arith))
        (rw (or_bits_add 32 i v b v_lt fits))

split_group : (value i : ℕ) → value * 2 ^ i ≡ value % 128 * 2 ^ i + value / 128 * 2 ^ (i + 7)
split_group value i =
    omega (arith, shift_seven (value / 128) i, ap (λ (t : ℕ). t * 2 ^ i) (div-add-mod value 128))

group_lt : (v b i : ℕ) → v < 2 ^ i → b < 128 → v + b * 2 ^ i < 2 ^ (i + 7)
group_lt v b i h hb = grind (arith, seven i)

read_varint-Takes :
    (room rounds i v value : ℕ) (rest : List ℕ) (s : ByteArray)
    → room < rounds
    → i + 7 * room < 32
    → v < 2 ^ i
    → value < 128 ^ suc room
    → v + value * 2 ^ i < 2 ^ 32
    → Feeds (varint room value ++ rest) s
    → Takes (v + value * 2 ^ i) rest s (read_varint rounds i v s)
unfolding varint
read_varint-Takes room zero i v value rest s r low v_lt h fits f = absurd (omega arith)
read_varint-Takes zero (suc rounds) i v value rest s r low v_lt h fits f =
    last_round rounds i v value rest s (omega arith) v_lt (omega arith) fits f
read_varint-Takes (suc room) (suc rounds) i v value rest s r low v_lt h fits f =
    elim (Bool-cases (leb 0x80 value)) [
      | inl more ↦
          let got =
            read_fuint8-Takes (value % 128 + 128) (varint room (value / 128) ++ rest) s
              (rw more at f) in
          let next =
            read_varint-Takes room rounds (i + 7) (v + value % 128 * 2 ^ i) (value / 128) rest
              got.after (omega arith) (omega arith) (group_lt v (value % 128) i v_lt (omega arith))
              (omega (arith, pow-suc 128 (suc room))) (omega (arith, split_group value i))
              got.feeds in
          record {
            after = next.after;
            returns =
                more_round rounds i v (value % 128) (varint room (value / 128) ++ rest) s
                  (omega arith) v_lt (omega arith) (omega (arith, split_group value i)) got
                ∙ next.returns
                ∙ ap (λ n. ok (n, next.after)) (omega (arith, split_group value i));
            feeds = next.feeds;
            endian_kept = next.endian_kept ∙ got.endian_kept;
          }
      | inr done ↦
          last_round rounds i v value rest s (omega arith) v_lt (ground arith) fits (rw done at f)
    ]

-- Leading rounds to spare change nothing.
varint_room :
    (room more value : ℕ)
    → room ≤ more
    → value < 128 ^ suc room
    → varint more value ≡ varint room value
unfolding varint
varint_room zero zero value le h = refl
varint_room zero (suc more) value le h = ground arith
varint_room (suc room) zero value le h = absurd (omega arith)
varint_room (suc room) (suc more) value le h = ground (
  arith,
  varint_room room more (value / 128) (omega arith) (omega (arith, pow-suc 128 (suc room))),
)

pub read_uint32-Takes :
    (v : ℕ) (rest : List ℕ) (s : ByteArray)
    → v < 2 ^ 32
    → Feeds (varint 4 v ++ rest) s
    → Takes v rest s (read_uint32 s)
unfolding read_uint32
read_uint32-Takes v rest s h f =
    let got =
      read_varint-Takes 4 5 0 0 v rest s (omega arith) (omega arith) (omega arith) (omega arith)
        (omega arith) f in
    record {
      after = got.after;
      returns = got.returns ∙ ap (λ n. ok (n, got.after)) (omega arith);
      feeds = got.feeds;
      endian_kept = got.endian_kept;
    }

pub read_uint64-Takes :
    (v : ℕ) (rest : List ℕ) (s : ByteArray)
    → v < 2 ^ 32
    → Feeds (varint 9 v ++ rest) s
    → Takes v rest s (read_uint64 s)
unfolding read_uint64
read_uint64-Takes v rest s h f =
    let got =
      read_varint-Takes 4 10 0 0 v rest s (omega arith) (omega arith) (omega arith) (omega arith)
        (omega arith) (rw (varint_room 4 9 v (omega arith) (omega arith)) at f) in
    record {
      after = got.after;
      returns = got.returns ∙ ap (λ n. ok (n, got.after)) (omega arith);
      feeds = got.feeds;
      endian_kept = got.endian_kept;
    }

gather-lt :
    (next : ℕ → ByteArray → Outcome (ℕ × ByteArray)) (i v b : ℕ) (t : ByteArray) (n : ℕ)
    (s' : ByteArray)
    → ((w : ℕ) → w < 2 ^ 32 → next w t ≡ ok (n, s') → n < 2 ^ 32)
    → gather next i v (b, t) ≡ ok (n, s')
    → n < 2 ^ 32
gather-lt next i v b t n s' ih e = elim (Bool-cases (ltb b 0x80)) [
  | inl last ↦
      let (part, _, r) =
        >>=-eq-ok (shift_left32 b i) (λ part. ok (or_bits 32 v part, t)) (rw last at e) in
      ground (arith, r, or_bits-lt 32 v part)
  | inr more ↦
      let (part, _, r) =
        >>=-eq-ok (shift_left32 (b % 128) i) (λ part. next (or_bits 32 v part) t) (rw more at e) in
      ih (or_bits 32 v part) (or_bits-lt 32 v part) r
]

read_varint-lt :
    (rounds i v : ℕ) (s : ByteArray) (n : ℕ) (s' : ByteArray)
    → v < 2 ^ 32
    → read_varint rounds i v s ≡ ok (n, s')
    → n < 2 ^ 32
unfolding read_varint
read_varint-lt zero i v s n s' h e = ground arith
read_varint-lt (suc rounds) i v s n s' h e =
    let ((b, t), got, e') = >>=-eq-ok (read_fuint8 s) (gather (read_varint rounds (i + 7)) i v) e in
    gather-lt (read_varint rounds (i + 7)) i v b t n s'
      (λ w h. read_varint-lt rounds (i + 7) w t n s' h) e'

-- With the `uint32_t` that the loop gathers in, `readUint64` gives no value of 2 ^ 32 or more,
-- whatever bytes it reads.
pub read_uint64-lt :
    (s : ByteArray) (n : ℕ) (s' : ByteArray) → read_uint64 s ≡ ok (n, s') → n < 2 ^ 32
unfolding read_uint64
read_uint64-lt s n s' e = read_varint-lt 10 0 0 s n s' (omega arith) e
