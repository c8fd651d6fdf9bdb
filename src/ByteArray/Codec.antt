-- ===== src/ByteArray/Codec.antt =====
-- The typed reads and writes of civan/bytearray.cc: fixed-width integers in the byte order of the
-- array, variable-length integers, and strings behind their length. A signed value is its bit
-- pattern, as `write` copies it. `host` is the byte order of the machine, `CIVAN_BYTE_ORDER` of
-- civan/endian.h.
use civan.Common.{
  ℕ, zero, suc, ◌+◌, ◌-◌, ◌*◌, ◌/◌, ◌%◌, ◌^◌, List, [], ◌∷◌, Bool, true, false, length, ltb, leb,
  ◌==◌, if◌then◌else◌,
}
use civan.Common.Outcome.{Outcome, ok, undefined, ◌>>=◌}
use mathlib.Core.List.{reverse}
use civan.Words.{or_bits, xor_bits, low_first, word_of, byteswap}
use civan.ByteArray.State.{Endian, little_endian, big_endian, ByteArray, write, read}

-- `m_endian != CIVAN_BYTE_ORDER`.
abbrev pub differs : Endian → Endian → Bool
differs little_endian little_endian = false
differs little_endian big_endian = true
differs big_endian little_endian = true
differs big_endian big_endian = false

-- The `k` bytes of a value in the memory of the machine, and the value that they stand for there.
abbrev pub bytes_in : Endian → ℕ → ℕ → List ℕ
bytes_in little_endian k v = low_first k v
bytes_in big_endian k v = reverse (low_first k v)

abbrev pub value_in : Endian → List ℕ → ℕ
value_in little_endian bs = word_of bs
value_in big_endian bs = word_of (reverse bs)

-- The body that `writeFint16` to `writeFuint64` share, for a type of `k` bytes, and that of the reads.
unfoldable pub write_fixed : Endian → ℕ → ℕ → ByteArray → Outcome ByteArray
write_fixed host k value s =
    write (bytes_in host k (if differs s.endian host then byteswap k value else value)) s

unfoldable pub read_fixed : Endian → ℕ → ByteArray → Outcome (ℕ × ByteArray)
read_fixed host k s = do
  (bytes, s') ← read k s
  let v = value_in host bytes
  ok (if differs s'.endian host then byteswap k v else v, s')

-- `writeFuint8` and `writeFint8`, and the reads: one byte has no order.
unfoldable pub write_fuint8 : ℕ → ByteArray → Outcome ByteArray
write_fuint8 value s = write (value ∷ []) s

unfoldable pub read_fuint8 : ByteArray → Outcome (ℕ × ByteArray)
read_fuint8 s = do (bytes, s') ← read 1 s; ok (word_of bytes, s')

-- `writeFloat` and `writeDouble` copy the bits of the value, and so do the reads.
unfoldable pub write_float : Endian → ℕ → ByteArray → Outcome ByteArray
write_float host bits s = write_fixed host 4 bits s

unfoldable pub write_double : Endian → ℕ → ByteArray → Outcome ByteArray
write_double host bits s = write_fixed host 8 bits s

-- The loop of `writeUint32` and `writeUint64`: the bytes that it puts in `tmp`, where `room` entries
-- are left. `value & 0x7F` is `value % 128`, and `| 0x80` adds 128 to it.
unfoldable pub varint_loop : ℕ → ℕ → Outcome (List ℕ)
varint_loop zero value = undefined
varint_loop (suc room) value =
    let more = varint_loop room (value / 128) in
    if leb 0x80 value then (more >>= λ bytes. ok ((value % 128 + 128) ∷ bytes)) else ok (value ∷ [])

unfoldable pub write_uint32 : ℕ → ByteArray → Outcome ByteArray
unfolding varint_loop
write_uint32 value s = do tmp ← varint_loop 5 value; write tmp s

unfoldable pub write_uint64 : ℕ → ByteArray → Outcome ByteArray
unfolding varint_loop
write_uint64 value s = do tmp ← varint_loop 10 value; write tmp s

-- `((uint32_t)x) << i`, which C++ leaves undefined from 32 on.
unfoldable pub shift_left32 : ℕ → ℕ → Outcome ℕ
shift_left32 x i = if ltb i 32 then ok (x * 2 ^ i % 2 ^ 32) else undefined

-- The rest of a round of the loop below, on the byte that was read; `next` is the next round.
abbrev pub gather :
    (ℕ → ByteArray → Outcome (ℕ × ByteArray)) → ℕ → ℕ → ℕ × ByteArray → Outcome (ℕ × ByteArray)
gather next i v (b, s') =
    if ltb b 0x80
    then (shift_left32 b i >>= λ part. ok (or_bits 32 v part, s'))
    else (shift_left32 (b % 128) i >>= λ part. next (or_bits 32 v part) s')

-- The loop of `readUint32` and `readUint64`. Both gather the value in a `uint32_t`. `rounds` is how
-- often the test `i < 32` or `i < 64` still holds, as `i` goes up by 7.
unfoldable pub read_varint : ℕ → ℕ → ℕ → ByteArray → Outcome (ℕ × ByteArray)
read_varint zero i v s = ok (v, s)
read_varint (suc rounds) i v s = read_fuint8 s >>= gather (read_varint rounds (i + 7)) i v

unfoldable pub read_uint32 : ByteArray → Outcome (ℕ × ByteArray)
read_uint32 s = read_varint 5 0 0 s

unfoldable pub read_uint64 : ByteArray → Outcome (ℕ × ByteArray)
read_uint64 s = read_varint 10 0 0 s

-- `-v` on a word of `w` bits.
abbrev pub negate : ℕ → ℕ → ℕ
negate w v = (2 ^ w - v) % 2 ^ w

-- `EncodeZigzag32` and `EncodeZigzag64`, on the bit pattern of the signed argument of `w` bits. `-v` of
-- the smallest value and a `v * 2` that is too large overflow a signed type, which is undefined.
unfoldable pub encode_zigzag : ℕ → ℕ → Outcome ℕ
encode_zigzag w v =
    if leb (2 ^ (w - 1)) v
    then (if v == 2 ^ (w - 1) then undefined else ok ((negate w v * 2 + 2 ^ w - 1) % 2 ^ w))
    else if ltb v (2 ^ (w - 2))
    then ok (v * 2)
    else undefined

-- `v >> 1` on a pattern of 64 bits that stands for an `int64_t`: the sign stays.
abbrev pub shift_right_signed : ℕ → ℕ
shift_right_signed v = if leb (2 ^ 63) v then v / 2 + 2 ^ 63 else v / 2

-- `DecodeZigzag32` and `DecodeZigzag64` have one body, `(v >> 1) ^ -(v & 1)` on an `int64_t`.
unfoldable pub decode_zigzag : ℕ → ℕ
decode_zigzag v = xor_bits 64 (shift_right_signed v) (negate 64 (v % 2))

unfoldable pub write_int32 : ℕ → ByteArray → Outcome ByteArray
write_int32 value s = do code ← encode_zigzag 32 value; write_uint32 code s

-- The `uint64_t` that `DecodeZigzag32` returns is cut to an `int32_t`.
unfoldable pub read_int32 : ByteArray → Outcome (ℕ × ByteArray)
read_int32 s = do (v, s') ← read_uint32 s; ok (decode_zigzag v % 2 ^ 32, s')

unfoldable pub write_int64 : ℕ → ByteArray → Outcome ByteArray
write_int64 value s = do code ← encode_zigzag 64 value; write_uint64 code s

unfoldable pub read_int64 : ByteArray → Outcome (ℕ × ByteArray)
read_int64 s = do (v, s') ← read_uint64 s; ok (decode_zigzag v, s')

-- `writeStringF16`, `F32` and `F64`: the size, cut to `k` bytes, and the characters.
unfoldable pub write_string_fixed : Endian → ℕ → List ℕ → ByteArray → Outcome ByteArray
write_string_fixed host k value s = do
  s' ← write_fixed host k (length value % 256 ^ k) s
  write value s'

unfoldable pub read_string_fixed : Endian → ℕ → ByteArray → Outcome (List ℕ × ByteArray)
read_string_fixed host k s = do (size, s') ← read_fixed host k s; read size s'

unfoldable pub write_string_vint : List ℕ → ByteArray → Outcome ByteArray
write_string_vint value s = do s' ← write_uint64 (length value) s; write value s'

unfoldable pub read_string_vint : ByteArray → Outcome (List ℕ × ByteArray)
read_string_vint s = do (size, s') ← read_uint64 s; read size s'

unfoldable pub write_string_without_length : List ℕ → ByteArray → Outcome ByteArray
write_string_without_length value s = write value s
