-- ===== src/Stream/Fix.antt =====
-- `readFixSize` and `writeFixSize` of civan/stream.cc. The four have one loop over the virtual `read` or
-- `write` of the stream, which is the parameter `io`: what it answers at an offset into the buffer, asked
-- for `left` bytes, and the stream and the buffer after it. The two on a byte array have no offset, as
-- the array keeps its own position: their `io` does not look at it.
use civan.Common.{
  ℕ, zero, suc, ◌+◌, ◌-◌, ◌≤◌, ◌<◌, ◌≡◌, ◌⊎◌, Option, none, some, ◌==◌, if◌then◌else◌, ltb, ◌%◌,
  ◌^◌,
}

-- A length: `failed e` is -e, and `moved n` is n.
pub data Answer : Type 0 where
  failed moved : ℕ → Answer

-- The `size_t` of `return length` as an `int`.
unfoldable pub as_int : ℕ → Answer
as_int length =
    let word = length % 2 ^ 32 in if ltb word (2 ^ 31) then moved word else failed (2 ^ 32 - word)

-- `int64_t left = length`. A negative `left` ends the loop at once, like 0.
unfoldable pub signed_left : ℕ → ℕ
signed_left length = if ltb length (2 ^ 63) then length else 0

module _ {S : Type 0} (io : ℕ → ℕ → S → Answer × S) where
  -- The loop on fuel. A length above `left` makes `left` negative, which ends it like 0.
  unfoldable pub fix_loop : ℕ → ℕ → ℕ → ℕ → S → Option (Answer × S)
  unfolding as_int
  fix_loop zero length offset left st = none
  fix_loop (suc fuel) length offset left st =
      let (len, st') = io offset left st in
      if left == 0 then some (as_int length, st) else (elim len [
        | failed e ↦ some (failed e, st')
        | moved n ↦
            if n == 0
            then some (failed 0, st')
            else fix_loop fuel length (offset + n) (left - n) st'
      ])

  -- `readFixSize(buffer, length)` and the others: each round moves a byte at least.
  unfoldable pub fix_size : ℕ → S → Option (Answer × S)
  unfolding fix_loop signed_left
  fix_size length st = fix_loop (suc length) length 0 (signed_left length) st

-- How a count may change with an answer.
abbrev pub MovedOnly : ℕ → ℕ → ℕ → Answer → Type 0
MovedOnly left before after (failed e) = after ≡ before
MovedOnly left before after (moved n) = (n ≤ left) × (after ≡ before + n)

module _ {S : Type 0} (io : ℕ → ℕ → S → Answer × S) (count : S → ℕ) where
  -- What a stream does: `count` tells how much of the buffer is done from its start, and a call at that
  -- offset goes on from there and moves no more than it is asked for. Of calls at other offsets
  -- nothing is said.
  abbrev pub Counts : Type 0
  Counts =
      (left : ℕ) (st : S)
      → MovedOnly left (count st) (count (io (count st) left st).1) (io (count st) left st).0

  -- What a call gives: all the bytes and the length, or fewer bytes and the answer that stopped it.
  pub record Fixed (length left : ℕ) (st : S) (call : Option (Answer × S)) : Type 0 where
    pub answer : Answer
    pub after : S
    pub returns : call ≡ some (answer, after)
    pub counted :
        ((answer ≡ moved length) × (count after ≡ count st + left))
        ⊎ ((e : ℕ) × (answer ≡ failed e) × (count after < count st + left))
