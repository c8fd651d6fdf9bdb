-- ===== src/ByteArray/Fixed.antt =====
-- Fixed-width values of civan/bytearray.cc at the end of an array and at the front of what is read.
use civan.Common.{
  ℕ, ◌+◌, ◌^◌, ◌≤◌, ◌<◌, ◌≡◌, refl, ap, List, [], ◌∷◌, ◌++◌, arith, length, if◌then◌else◌,
}
use civan.Common.Outcome.{ok}
use mathlib.Core.List.{reverse-reverse}
use civan.Words.{
  low_first, word_of, byteswap, word_of-low_first, low_first-byteswap, byteswap-byteswap,
  length-low_first, length-reverse-low_first,
}
use civan.ByteArray.State.{ByteArray, Endian, little_endian, big_endian}
use civan.ByteArray.Codec.{differs, bytes_in, value_in, write_fixed, read_fixed, read_fuint8}
use civan.ByteArray.Append.{IsAppending, Appends, write-Appends}
use civan.ByteArray.Feed.{Feeds, Takes, read-Takes-length}

pub length-bytes_in : (o : Endian) (k v : ℕ) → length (bytes_in o k v) ≡ k
length-bytes_in little_endian k v = length-low_first k v
length-bytes_in big_endian k v = length-reverse-low_first k v

-- What is written does not depend on the machine: the bytes of the value in the order of the array.
swapped :
    (host endian : Endian) (k v : ℕ)
    → bytes_in host k (if differs endian host then byteswap k v else v) ≡ bytes_in endian k v
swapped little_endian little_endian k v = refl
swapped little_endian big_endian k v = low_first-byteswap k v
swapped big_endian little_endian k v = rw low_first-byteswap (reverse-reverse (low_first k v))
swapped big_endian big_endian k v = refl

-- And what is read from these bytes is the value.
unswapped :
    (host endian : Endian) (k v : ℕ)
    → v < 256 ^ k
    → (if differs endian host
        then byteswap k (value_in host (bytes_in endian k v))
        else value_in host (bytes_in endian k v))
      ≡ v
unfolding byteswap
unswapped little_endian little_endian k v h = word_of-low_first k v h
unswapped little_endian big_endian k v h = byteswap-byteswap k v h
unswapped big_endian little_endian k v h = byteswap-byteswap k v h
unswapped big_endian big_endian k v h =
    rw (reverse-reverse (low_first k v)) (word_of-low_first k v h)

pub write_fixed-Appends :
    (host : Endian) (k v : ℕ) (s : ByteArray)
    → IsAppending s
    → s.position + k + s.base_size ≤ 2 ^ 53
    → Appends (bytes_in s.endian k v) s (write_fixed host k v s)
unfolding write_fixed
write_fixed-Appends host k v s w limit =
    rw (swapped host s.endian k v)
      (write-Appends (bytes_in s.endian k v) s w (omega (arith, length-bytes_in s.endian k v)))

pub read_fixed-Takes :
    (host : Endian) (k v : ℕ) (rest : List ℕ) (s : ByteArray)
    → v < 256 ^ k
    → 0 < k
    → Feeds (bytes_in s.endian k v ++ rest) s
    → Takes v rest s (read_fixed host k s)
unfolding read_fixed
read_fixed-Takes host k v rest s h pos f =
    let raw =
      read-Takes-length k (bytes_in s.endian k v) rest s f (length-bytes_in s.endian k v) pos in
    record {
      after = raw.after;
      returns = rw (raw.returns, raw.endian_kept, unswapped host s.endian k v h) refl;
      feeds = raw.feeds;
      endian_kept = raw.endian_kept;
    }

pub read_fuint8-Takes :
    (b : ℕ) (rest : List ℕ) (s : ByteArray) → Feeds (b ∷ rest) s → Takes b rest s (read_fuint8 s)
unfolding read_fuint8 word_of
read_fuint8-Takes b rest s f =
    let raw = read-Takes-length 1 (b ∷ []) rest s f refl (omega arith) in
    record {
      after = raw.after;
      returns = rw raw.returns (ap (λ v. ok (v, raw.after)) (omega arith));
      feeds = raw.feeds;
      endian_kept = raw.endian_kept;
    }
