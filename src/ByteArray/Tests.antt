-- ===== src/ByteArray/Tests.antt =====
-- Runs of civan/bytearray.cc on small arrays.
use civan.Common.{
  ◌+◌, ◌-◌, ◌^◌, ◌<◌, ◌≤◌, ◌≡◌, ◌↔◌, refl, ◌⊎◌, inl, inr, List, [], ◌∷◌, drop, false, arith,
}
use mathlib.Core.List.{map}
use civan.Common.Outcome.{ok, out_of_range, undefined, ◌>>=◌}
use civan.ByteArray.Nodes.{flat, overwrite, read_loop}
use civan.ByteArray.Doubles.{
  blocks_for, to_double, nearest, shrink, ceil_quotient, rounds_down, scale_of, scale,
}
use civan.ByteArray.State.{
  ByteArray, little_endian, big_endian, nodes, create, set_is_little_endian, write, read, read_at,
  set_position, to_string, get_read_size,
}
use civan.ByteArray.Codec.{encode_zigzag, read_uint64, read_varint, read_fuint8, shift_left32}
use civan.Words.{word_of, or_bits}
use civan.ByteArray.Invariant.{IsValid, IsAligned, contents, Grown, add_capacity-Grown}
use civan.ByteArray.Write.{Wrote, write-Wrote}
use civan.ByteArray.Read.{WasRead, read-WasRead, read_past_end, Moved, set_position-Moved}
use civan.ByteArray.Append.{IsAppending, Appends, write-Appends, create-IsAppending}
use civan.ByteArray.Varint.{read_uint64-lt}
use civan.ByteArray.Zigzag.{through_code64, decode-encode64_iff}
use civan.ByteArray.Fields.{Field, uint32, int32, int64, fixed, string_vint, kind}
use civan.ByteArray.RoundTrip.{write_fields, read_fields, read_fields-write_fields}
use civan.ByteArray.Buffers.{
  Covers, get_read_buffers, get_read_buffers_at, get_read_buffers-Covers,
  get_read_buffers_at-Covers,
}
use civan.ByteArray.Cursor.{write-set_position_end, write_lagging, read_at_lem, to_string_lem}

-- A new array with blocks of 4 bytes.
abbrev fresh_array : ByteArray
fresh_array = create 0 4

fresh_array-IsAppending : IsAppending fresh_array
fresh_array-IsAppending = create-IsAppending 0 4 (omega arith) (omega arith)

-- Two blocks of 4 bytes, of which 6 are in use, with the position at 1.
abbrev two_blocks : ByteArray
two_blocks = record {
  base_size = 4;
  position = 1;
  capacity = 8;
  size = 6;
  endian = big_endian;
  passed = [];
  ahead = (1 ∷ 2 ∷ 3 ∷ 4 ∷ []) ∷ (5 ∷ 6 ∷ 0 ∷ 0 ∷ []) ∷ [];
  fill = 0;
}

two_blocks-IsValid : IsValid two_blocks
two_blocks-IsValid = record {
  base_pos = omega arith;
  sized = (refl, (refl, tt));
  root = λ e. cc;
  holds = refl;
  position_le = omega arith;
  size_le = omega arith;
  fits = omega arith;
}

two_blocks-IsAligned : IsAligned two_blocks
two_blocks-IsAligned = record { from = omega arith; to = omega arith }

-- The same behind a write of its first 4 bytes: the cursor is still in the first block.
abbrev lagging : ByteArray
lagging = record two_blocks { position = 4 }

lagging-IsValid : IsValid lagging
lagging-IsValid = record {
  base_pos = omega arith;
  sized = (refl, (refl, tt));
  root = λ e. cc;
  holds = refl;
  position_le = omega arith;
  size_le = omega arith;
  fits = omega arith;
}

write-Wrote_example : Wrote (9 ∷ 8 ∷ 7 ∷ 6 ∷ 5 ∷ []) two_blocks
write-Wrote_example =
    write-Wrote (9 ∷ 8 ∷ 7 ∷ 6 ∷ 5 ∷ []) two_blocks two_blocks-IsValid
      (record { node = λ e. cc; from = omega arith; to = inl (omega arith) }) (omega arith)
      (omega arith)

write-Appends_run :
    Appends (9 ∷ 8 ∷ 7 ∷ 6 ∷ 5 ∷ []) fresh_array (write (9 ∷ 8 ∷ 7 ∷ 6 ∷ 5 ∷ []) fresh_array)
unfolding create
write-Appends_run =
    write-Appends (9 ∷ 8 ∷ 7 ∷ 6 ∷ 5 ∷ []) fresh_array fresh_array-IsAppending (omega arith)

add_capacity-Grown_example : Grown 20 two_blocks
add_capacity-Grown_example =
    add_capacity-Grown 20 two_blocks two_blocks-IsValid
      (record { node = λ e. cc; from = omega arith; to = inl (omega arith) }) (omega arith)
      (omega arith)

read-WasRead_example : WasRead 4 two_blocks
read-WasRead_example =
    read-WasRead 4 two_blocks two_blocks-IsValid two_blocks-IsAligned (omega arith) (omega arith)

read_too_much : read 6 two_blocks ≡ out_of_range
read_too_much = read_past_end 6 two_blocks two_blocks-IsValid (omega arith)

set_position-Moved_example : Moved 5 two_blocks
set_position-Moved_example = set_position-Moved 5 two_blocks two_blocks-IsValid (omega arith)

to_string_lem_run : to_string two_blocks ≡ ok (drop 1 (contents two_blocks))
to_string_lem_run = to_string_lem two_blocks two_blocks-IsValid two_blocks-IsAligned

write-set_position_end_example : (set_position 8 two_blocks >>= write (1 ∷ [])) ≡ undefined
write-set_position_end_example =
    write-set_position_end (1 ∷ []) two_blocks two_blocks-IsValid (omega arith)

write_lagging_example :
    (after : ByteArray) × (write (9 ∷ []) lagging ≡ ok after)
    × (flat (nodes after) ≡ overwrite (flat (nodes lagging)) 0 (9 ∷ []))
    × (after.position ≡ 5)
write_lagging_example =
    write_lagging (9 ∷ []) lagging lagging-IsValid refl (omega arith) (omega arith)

read_at_lem_run : read_at 1 5 two_blocks ≡ ok (2 ∷ [])
read_at_lem_run =
    read_at_lem 1 5 two_blocks two_blocks-IsValid two_blocks-IsAligned (omega arith) (omega arith)
      (omega arith)

abbrev some_fields : List Field
some_fields =
    uint32 300
    ∷ int32 (2 ^ 32 - 5)
    ∷ int64 (2 ^ 64 - 7)
    ∷ fixed 2 513
    ∷ string_vint (104 ∷ 105 ∷ [])
    ∷ []

read_fields-write_fields_example :
    (write_fields little_endian some_fields (set_is_little_endian false (create 0 4))
      >>= set_position 0
      >>= read_fields little_endian (map kind some_fields)
      >>= λ r. ok r.0)
    ≡ ok some_fields
read_fields-write_fields_example =
    read_fields-write_fields little_endian 0 4 false some_fields (omega arith)
      (
        omega arith,
        (
          inr (omega arith, omega arith),
          (
            inr (omega arith, omega arith),
            ((omega arith, omega arith), ((omega arith, omega arith), tt)),
          ),
        ),
      )
      (omega arith) (omega arith)

-- `-v` of the smallest value, and the double of 2 ^ 30, overflow.
encode_smallest : encode_zigzag 32 (2 ^ 31) ≡ undefined
unfolding encode_zigzag
encode_smallest = refl

encode_too_large : encode_zigzag 32 (2 ^ 30) ≡ undefined
unfolding encode_zigzag
encode_too_large = refl

encode_minus_five : encode_zigzag 32 (2 ^ 32 - 5) ≡ ok 9
unfolding encode_zigzag
encode_minus_five = refl

decode-encode64_iff_example :
    (through_code64 (2 ^ 64 - 7) ≡ ok (2 ^ 64 - 7))
    ↔ ((2 ^ 64 - 7 < 2 ^ 62) ⊎ (2 ^ 64 - 2 ^ 62 ≤ 2 ^ 64 - 7))
decode-encode64_iff_example = decode-encode64_iff (2 ^ 64 - 7) (omega arith)

-- The varint of 2 ^ 32 - 1.
abbrev varint_array : ByteArray
varint_array = record {
  base_size = 8;
  position = 0;
  capacity = 8;
  size = 5;
  endian = big_endian;
  passed = [];
  ahead = (255 ∷ 255 ∷ 255 ∷ 255 ∷ 15 ∷ 0 ∷ 0 ∷ 0 ∷ []) ∷ [];
  fill = 0;
}

-- A byte more than 2 ^ 53 is lost in the `double`: 2 ^ 41 blocks of 4096 bytes are one byte short.
blocks_lost : blocks_for (2 ^ 53 + 1) 4096 ≡ 2 ^ 41
unfolding blocks_for to_double nearest shrink ceil_quotient
blocks_lost = refl

-- Below, a quotient just above a whole number is rounded up.
blocks_exact : blocks_for (2 ^ 52 + 1) 4096 ≡ 2 ^ 40 + 1
unfolding blocks_for to_double ceil_quotient rounds_down scale_of scale
blocks_exact = refl

read_uint64-lt_example : 2 ^ 32 - 1 < 2 ^ 32
unfolding read_uint64 read_varint read_fuint8 read read_loop get_read_size word_of shift_left32
    or_bits
read_uint64-lt_example =
    read_uint64-lt varint_array (2 ^ 32 - 1) (record varint_array { position = 5 }) refl

get_read_buffers-Covers_run : Covers 5 (2 ∷ 3 ∷ 4 ∷ 5 ∷ 6 ∷ []) (get_read_buffers 9 two_blocks)
get_read_buffers-Covers_run =
    get_read_buffers-Covers 9 two_blocks two_blocks-IsValid two_blocks-IsAligned

get_read_buffers_at-Covers_example : Covers 3 (4 ∷ 5 ∷ 6 ∷ []) (get_read_buffers_at 9 3 two_blocks)
get_read_buffers_at-Covers_example =
    get_read_buffers_at-Covers 9 3 two_blocks two_blocks-IsValid (omega arith)
