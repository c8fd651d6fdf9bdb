-- ===== src/ByteArray/RoundTrip.antt =====
-- Values written to a new byte array of civan/bytearray.cc, read back from its start.
use civan.Common.{
  ℕ, ◌+◌, ◌^◌, ◌≤◌, ◌<◌, ◌≡◌, refl, ap, sym, subst, ◌∙◌, List, [], ◌∷◌, ◌++◌, arith, length, Bool,
  append-nil, append_assoc, map,
}
use civan.Common.Outcome.{Outcome, ok, ◌>>=◌}
use civan.ByteArray.State.{ByteArray, Endian, read, set_position, create, set_is_little_endian}
use civan.ByteArray.Codec.{read_int32, read_string_fixed, read_string_vint, read_int64}
use civan.ByteArray.Invariant.{contents}
use civan.ByteArray.Append.{IsAppending, Appends, Appends-then, create-IsAppending}
use civan.ByteArray.Feed.{Feeds, Takes, read-Takes-length, rewind-Feeds}
use civan.ByteArray.Fixed.{read_fixed-Takes, read_fuint8-Takes}
use civan.ByteArray.Varint.{varint, read_uint32-Takes, read_uint64-Takes}
use civan.ByteArray.Zigzag.{
  zigzag, zigzag-lt, zigzag_narrow, IsCodable32, IsNarrow, codable-lt, narrow_back, decode-zigzag32,
  decode-zigzag64,
}
use civan.ByteArray.Fields.{
  Field, fuint8, uint32, int32, uint64, int64, fixed, string_fixed, string_vint, Kind, kind,
  IsWritable, room_of, write_field, read_field, field_bytes, length-field_bytes,
  write_field-Appends, Takes-tagged,
}

-- A read of a string behind the read of its length.
Takes-string :
    (str rest : List ℕ) (s : ByteArray) (m : Outcome (ℕ × ByteArray))
    → 0 < length str
    → Takes (length str) (str ++ rest) s m
    → Takes str rest s (m >>= λ r. read r.0 r.1)
Takes-string str rest s m pos t =
    let chars = read-Takes-length (length str) str rest t.after t.feeds refl pos in
    record {
      after = chars.after;
      returns = rw t.returns chars.returns;
      feeds = chars.feeds;
      endian_kept = chars.endian_kept ∙ t.endian_kept;
    }

read_int32-Takes :
    (v : ℕ) (rest : List ℕ) (s : ByteArray)
    → IsCodable32 v
    → Feeds (varint 4 (zigzag 32 v) ++ rest) s
    → Takes v rest s (read_int32 s)
unfolding read_int32
read_int32-Takes v rest s h f =
    let lt = codable-lt v h in
    let got = read_uint32-Takes (zigzag 32 v) rest s (zigzag-lt v lt) f in
    record {
      after = got.after;
      returns = rw got.returns (ap (λ n. ok (n, got.after)) (decode-zigzag32 v lt));
      feeds = got.feeds;
      endian_kept = got.endian_kept;
    }

read_int64-Takes :
    (v : ℕ) (rest : List ℕ) (s : ByteArray)
    → IsNarrow v
    → Feeds (varint 9 (zigzag 64 v) ++ rest) s
    → Takes v rest s (read_int64 s)
unfolding read_int64
read_int64-Takes v rest s h f =
    let (lt, range) = narrow_back v h in
    let got = read_uint64-Takes (zigzag 64 v) rest s (zigzag_narrow v h) f in
    record {
      after = got.after;
      returns = rw got.returns (ap (λ n. ok (n, got.after)) (decode-zigzag64 v lt range));
      feeds = got.feeds;
      endian_kept = got.endian_kept;
    }

read_field-Takes :
    (host : Endian) (f : Field) (rest : List ℕ) (s : ByteArray)
    → IsWritable f
    → Feeds (field_bytes s.endian f ++ rest) s
    → Takes f rest s (read_field host (kind f) s)
unfolding read_field
read_field-Takes host (fuint8 v) rest s h f =
    Takes-tagged fuint8 v rest s _ (read_fuint8-Takes v rest s f)
read_field-Takes host (uint32 v) rest s h f =
    Takes-tagged uint32 v rest s _ (read_uint32-Takes v rest s h f)
read_field-Takes host (int32 v) rest s h f =
    Takes-tagged int32 v rest s _ (read_int32-Takes v rest s h f)
read_field-Takes host (uint64 v) rest s h f =
    Takes-tagged uint64 v rest s _ (read_uint64-Takes v rest s h f)
read_field-Takes host (int64 v) rest s h f =
    Takes-tagged int64 v rest s _ (read_int64-Takes v rest s h f)
read_field-Takes host (fixed k v) rest s (pos, h) f =
    Takes-tagged (fixed k) v rest s _ (read_fixed-Takes host k v rest s h pos f)
read_field-Takes host (string_fixed k str) rest s (pos, chars, h) f =
    Takes-tagged (string_fixed k) str rest s _ (
      unfold read_string_fixed in
      Takes-string str rest s _ chars
        (read_fixed-Takes host k (length str) (str ++ rest) s h pos (rw append_assoc at f)))
read_field-Takes host (string_vint str) rest s (chars, h) f =
    Takes-tagged string_vint str rest s _ (
      unfold read_string_vint in
      Takes-string str rest s _ chars
        (read_uint64-Takes (length str) (str ++ rest) s h (rw append_assoc at f)))

pub write_fields : Endian → List Field → ByteArray → Outcome ByteArray
write_fields host [] s = ok s
write_fields host (f ∷ fs) s = write_field host f s >>= write_fields host fs

pub read_fields : Endian → List Kind → ByteArray → Outcome (List Field × ByteArray)
read_fields host [] s = ok ([], s)
read_fields host (k ∷ ks) s = do
  (f, s') ← read_field host k s
  (fs, s'') ← read_fields host ks s'
  ok (f ∷ fs, s'')

abbrev pub AllWritable : List Field → Type 0
AllWritable [] = Unit {0}
AllWritable (f ∷ fs) = IsWritable f × AllWritable fs

abbrev pub room_for : List Field → ℕ
room_for [] = 0
room_for (f ∷ fs) = room_of f + room_for fs

abbrev all_bytes : Endian → List Field → List ℕ
all_bytes e [] = []
all_bytes e (f ∷ fs) = field_bytes e f ++ all_bytes e fs

write_fields-Appends :
    (host e : Endian) (fs : List Field) (s : ByteArray)
    → s.endian ≡ e
    → AllWritable fs
    → IsAppending s
    → s.position + room_for fs + s.base_size ≤ 2 ^ 53
    → Appends (all_bytes e fs) s (write_fields host fs s)
unfolding write_fields
write_fields-Appends host e [] s same h w l = record {
  after = s;
  returns = refl;
  appending = w;
  view = sym (append-nil (contents s));
  moved = omega arith;
  base_kept = refl;
  endian_kept = refl;
}
write_fields-Appends host e (f ∷ fs) s same h w l =
    let first =
      subst (λ d. Appends (field_bytes d f) s (write_field host f s)) same
        (write_field-Appends host f s h.0 w (omega arith)) in
    Appends-then (field_bytes e f) (all_bytes e fs) s _ (write_fields host fs) first (
      write_fields-Appends host e fs first.after (first.endian_kept ∙ same) h.1 first.appending
        (omega (arith, first.moved, first.base_kept, length-field_bytes e f)))

read_fields-Takes :
    (host e : Endian) (fs : List Field) (s : ByteArray)
    → s.endian ≡ e
    → AllWritable fs
    → Feeds (all_bytes e fs) s
    → Takes fs [] s (read_fields host (map kind fs) s)
unfolding read_fields
read_fields-Takes host e [] s same h f = record {
  after = s;
  returns = refl;
  feeds = f;
  endian_kept = refl;
}
read_fields-Takes host e (x ∷ fs) s same h f =
    let first =
      read_field-Takes host x (all_bytes e fs) s h.0
        (subst (λ d. Feeds (field_bytes d x ++ all_bytes e fs) s) (sym same) f) in
    let next = read_fields-Takes host e fs first.after (first.endian_kept ∙ same) h.1 first.feeds in
    record {
      after = next.after;
      returns = rw (first.returns, next.returns) refl;
      feeds = next.feeds;
      endian_kept = next.endian_kept ∙ first.endian_kept;
    }

endian-IsAppending :
    (val : Bool) (s : ByteArray) → IsAppending s → IsAppending (set_is_little_endian val s)
unfolding set_is_little_endian
endian-IsAppending val s w = record {
  valid = record {
    base_pos = w.valid.base_pos;
    sized = w.valid.sized;
    root = w.valid.root;
    holds = w.valid.holds;
    position_le = w.valid.position_le;
    size_le = w.valid.size_le;
    fits = w.valid.fits;
  };
  seat = record { node = w.seat.node; from = w.seat.from; to = w.seat.to };
  at_end = w.at_end;
  tight = w.tight;
}

-- The new array holds no bytes.
start_lem :
    (fill base : ℕ) (little : Bool)
    → let s = set_is_little_endian little (create fill base) in
      (contents s ≡ []) × (s.position ≡ 0) × (s.base_size ≡ base)
unfolding set_is_little_endian create
start_lem fill base little = (refl, refl, refl)

-- Any sequence of values that is written to a new byte array of either byte order and read back from
-- position 0 by the same kinds gives the same values, on a machine of either byte order. The values are
-- in the ranges of `IsWritable`: of fixed-width integers and `writeUint32` all, of `writeUint64` those
-- below 2 ^ 32, of `writeInt64` those of 32 bits, of `writeInt32` those that do not overflow, and strings
-- with a character at least. (The memory that it may take is up to 2 ^ 53.)
pub read_fields-write_fields :
    (host : Endian) (fill base : ℕ) (little : Bool) (fs : List Field)
    → 0 < base
    → AllWritable fs
    → room_for fs + base ≤ 2 ^ 53
    → base < 2 ^ 64
    → (write_fields host fs (set_is_little_endian little (create fill base))
        >>= set_position 0
        >>= read_fields host (map kind fs)
        >>= λ r. ok r.0)
      ≡ ok fs
read_fields-write_fields host fill base little fs b h l lt =
    let s = set_is_little_endian little (create fill base) in
    let (empty, at_start, sized) = start_lem fill base little in
    let written =
      write_fields-Appends host s.endian fs s refl h
        (endian-IsAppending little (create fill base) (create-IsAppending fill base b lt))
        (omega (arith, at_start, sized)) in
    let (back, moved, feeds, same) = rewind-Feeds written.after written.appending.valid in
    let bytes : Feeds (all_bytes s.endian fs) back =
      subst (λ bs. Feeds bs back) (written.view ∙ ap (λ bs. bs ++ all_bytes s.endian fs) empty)
        feeds in
    let got = read_fields-Takes host s.endian fs back (same ∙ written.endian_kept) h bytes in
    rw (written.returns, moved, got.returns) refl
