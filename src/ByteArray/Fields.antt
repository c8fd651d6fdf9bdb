-- ===== src/ByteArray/Fields.antt =====
-- A sequence of typed values written to a new byte array of civan/bytearray.cc and read back.
use civan.Common.{ℕ, ◌+◌, ◌^◌, ◌≤◌, ◌<◌, refl, List, [], ◌∷◌, ◌++◌, arith, length, length-append}
use civan.Common.Outcome.{Outcome, ok, ◌>>=◌}
use native.Mathlib.Nat.{mod-eq_of_lt}
use civan.ByteArray.State.{ByteArray, Endian, write}
use civan.ByteArray.Codec.{
  bytes_in, write_fixed, read_fixed, write_fuint8, read_fuint8, write_uint32, read_uint32,
  write_int32, read_int32, write_uint64, read_uint64, write_string_fixed, read_string_fixed,
  write_string_vint, read_string_vint, write_int64, read_int64,
}
use civan.ByteArray.Append.{IsAppending, Appends, Appends-then, write-Appends}
use civan.ByteArray.Feed.{Takes}
use civan.ByteArray.Fixed.{write_fixed-Appends, length-bytes_in}
use civan.ByteArray.Varint.{varint, length-varint, write_uint32-Appends, write_uint64-Appends}
use civan.ByteArray.Zigzag.{
  zigzag, zigzag-lt, zigzag_narrow, IsCodable32, IsNarrow, encode_zigzag-zigzag32,
  encode_zigzag-zigzag64, codable-lt, narrow-codable,
}

-- A value and the way in which it is written: `fixed k` takes `k` bytes, 2, 4 or 8.
pub data Field : Type 0 where
  fuint8 uint32 int32 uint64 int64 : ℕ → Field
  fixed : ℕ → ℕ → Field
  string_fixed : ℕ → List ℕ → Field
  string_vint : List ℕ → Field

pub data Kind : Type 0 where
  a_fuint8 a_uint32 an_int32 a_uint64 an_int64 a_string_vint : Kind
  a_fixed a_string_fixed : ℕ → Kind

abbrev pub kind : Field → Kind
kind (fuint8 v) = a_fuint8
kind (uint32 v) = a_uint32
kind (int32 v) = an_int32
kind (uint64 v) = a_uint64
kind (int64 v) = an_int64
kind (fixed k v) = a_fixed k
kind (string_fixed k str) = a_string_fixed k
kind (string_vint str) = a_string_vint

-- The ranges in which a value is got back. `readUint64` gives 32 bits, so that `writeUint64` is taken
-- below 2 ^ 32 and `writeInt64` from -(2 ^ 31) to 2 ^ 31 - 1; `writeInt32` overflows from 2 ^ 30 on and at
-- -(2 ^ 31). A string has a character at least, as the read of an empty one may follow a null pointer.
abbrev pub IsWritable : Field → Type 0
IsWritable (fuint8 v) = v < 256
IsWritable (uint32 v) = v < 2 ^ 32
IsWritable (int32 v) = IsCodable32 v
IsWritable (uint64 v) = v < 2 ^ 32
IsWritable (int64 v) = IsNarrow v
IsWritable (fixed k v) = (0 < k) × (v < 256 ^ k)
IsWritable (string_fixed k str) = (0 < k) × (0 < length str) × (length str < 256 ^ k)
IsWritable (string_vint str) = (0 < length str) × (length str < 2 ^ 32)

-- The most bytes that a value can take.
abbrev pub room_of : Field → ℕ
room_of (fuint8 v) = 1
room_of (uint32 v) = 5
room_of (int32 v) = 5
room_of (uint64 v) = 10
room_of (int64 v) = 10
room_of (fixed k v) = k
room_of (string_fixed k str) = k + length str
room_of (string_vint str) = 10 + length str

unfoldable pub write_field : Endian → Field → ByteArray → Outcome ByteArray
write_field host (fuint8 v) s = write_fuint8 v s
write_field host (uint32 v) s = write_uint32 v s
write_field host (int32 v) s = write_int32 v s
write_field host (uint64 v) s = write_uint64 v s
write_field host (int64 v) s = write_int64 v s
write_field host (fixed k v) s = write_fixed host k v s
write_field host (string_fixed k str) s = write_string_fixed host k str s
write_field host (string_vint str) s = write_string_vint str s

-- The value of a read, in its constructor.
abbrev pub tagged {ℓ} :
    {A : Type ℓ} → (A → Field) → Outcome (A × ByteArray) → Outcome (Field × ByteArray)
tagged c m = m >>= λ r. ok (c r.0, r.1)

unfoldable pub read_field : Endian → Kind → ByteArray → Outcome (Field × ByteArray)
read_field host a_fuint8 s = tagged fuint8 (read_fuint8 s)
read_field host a_uint32 s = tagged uint32 (read_uint32 s)
read_field host an_int32 s = tagged int32 (read_int32 s)
read_field host a_uint64 s = tagged uint64 (read_uint64 s)
read_field host an_int64 s = tagged int64 (read_int64 s)
read_field host (a_fixed k) s = tagged (fixed k) (read_fixed host k s)
read_field host (a_string_fixed k) s = tagged (string_fixed k) (read_string_fixed host k s)
read_field host a_string_vint s = tagged string_vint (read_string_vint s)

-- The bytes of a value in an array of a byte order.
abbrev pub field_bytes : Endian → Field → List ℕ
field_bytes e (fuint8 v) = v ∷ []
field_bytes e (uint32 v) = varint 4 v
field_bytes e (int32 v) = varint 4 (zigzag 32 v)
field_bytes e (uint64 v) = varint 9 v
field_bytes e (int64 v) = varint 9 (zigzag 64 v)
field_bytes e (fixed k v) = bytes_in e k v
field_bytes e (string_fixed k str) = bytes_in e k (length str) ++ str
field_bytes e (string_vint str) = varint 9 (length str) ++ str

pub length-field_bytes : (e : Endian) (f : Field) → length (field_bytes e f) ≤ room_of f
length-field_bytes e (fuint8 v) = omega arith
length-field_bytes e (uint32 v) = omega (arith, length-varint 4 v)
length-field_bytes e (int32 v) = omega (arith, length-varint 4 (zigzag 32 v))
length-field_bytes e (uint64 v) = omega (arith, length-varint 9 v)
length-field_bytes e (int64 v) = omega (arith, length-varint 9 (zigzag 64 v))
length-field_bytes e (fixed k v) = omega (arith, length-bytes_in e k v)
length-field_bytes e (string_fixed k str) =
    omega (arith, length-append (bytes_in e k (length str)) str, length-bytes_in e k (length str))
length-field_bytes e (string_vint str) =
    omega (arith, length-append (varint 9 (length str)) str, length-varint 9 (length str))

pub write_field-Appends :
    (host : Endian) (f : Field) (s : ByteArray)
    → IsWritable f
    → IsAppending s
    → s.position + room_of f + s.base_size ≤ 2 ^ 53
    → Appends (field_bytes s.endian f) s (write_field host f s)
unfolding write_field
write_field-Appends host (fuint8 v) s h w l = unfold write_fuint8 in write-Appends (v ∷ []) s w l
write_field-Appends host (uint32 v) s h w l = write_uint32-Appends v s h w l
write_field-Appends host (int32 v) s h w l =
    unfold write_int32 in
    rw (encode_zigzag-zigzag32 v h)
      (write_uint32-Appends (zigzag 32 v) s (zigzag-lt v (codable-lt v h)) w l)
write_field-Appends host (uint64 v) s h w l = write_uint64-Appends v s (omega arith) w l
write_field-Appends host (int64 v) s h w l =
    unfold write_int64 in
    rw (encode_zigzag-zigzag64 v (narrow-codable v h))
      (write_uint64-Appends (zigzag 64 v) s (omega (arith, zigzag_narrow v h)) w l)
write_field-Appends host (fixed k v) s h w l = write_fixed-Appends host k v s w l
write_field-Appends host (string_fixed k str) s (k_pos, some_bytes, fits) w l =
    unfold write_string_fixed in
    let first = write_fixed-Appends host k (length str) s w (omega arith) in
    rw (mod-eq_of_lt fits) (
      Appends-then _ str s _ (write str) first (
        write-Appends str first.after first.appending
          (omega (arith, first.moved, first.base_kept, length-bytes_in s.endian k (length str)))))
write_field-Appends host (string_vint str) s (some_bytes, fits) w l =
    unfold write_string_vint in
    let first = write_uint64-Appends (length str) s (omega arith) w (omega arith) in
    Appends-then _ str s _ (write str) first (
      write-Appends str first.after first.appending
        (omega (arith, first.moved, first.base_kept, length-varint 9 (length str))))

pub Takes-tagged {ℓ} :
    {A : Type ℓ} (c : A → Field) (v : A) (rest : List ℕ) (s : ByteArray)
    (m : Outcome (A × ByteArray))
    → Takes v rest s m
    → Takes (c v) rest s (tagged c m)
Takes-tagged c v rest s m t = record {
  after = t.after;
  returns = rw t.returns refl;
  feeds = t.feeds;
  endian_kept = t.endian_kept;
}
