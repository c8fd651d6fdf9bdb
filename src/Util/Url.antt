-- ===== src/Util/Url.antt =====
-- `StringUtil::UrlEncode` and `StringUtil::UrlDecode` of civan/util.cc. A string is the list of its
-- bytes. `offset` is `c - str.c_str()`, and `rest` is the string from `c` on; `ss` is the string that
-- the loops allocate when the result first differs from their input.
use civan.Common.{
  Chars, codes, ℕ, zero, suc, ◌+◌, ◌-◌, ◌*◌, ◌/◌, ◌%◌, [], ◌∷◌, ◌++◌, Option, none, some, Bool,
  ◌&&◌, ◌||◌, not, ◌==◌, leb, if◌then◌else◌, take, get_or, replicate,
}

-- The table has one row for each 32 characters here.
unfoldable pub uri_chars : Chars
uri_chars =
    codes "00000000000000000000000000000000"
    ++ codes "00000000000001101111111111000100"
    ++ codes "01111111111111111111111111100001"
    ++ codes "01111111111111111111111111100010"
    ++ replicate 128 b'0'

unfoldable pub char_is_unreserved : ℕ → Bool
unfolding uri_chars
char_is_unreserved c = get_or uri_chars c b'0' == b'1'

-- The value of a hexadecimal digit of either case, and 0 for all else.
unfoldable pub xdigit_chars : ℕ → ℕ
xdigit_chars c =
    if leb b'0' c && leb c b'9'
    then c - b'0'
    else if leb b'A' c && leb c b'F'
    then c - b'A' + 10
    else if leb b'a' c && leb c b'f'
    then c - b'a' + 10
    else 0

unfoldable pub isxdigit : ℕ → Bool
isxdigit c = (leb b'0' c && leb c b'9') || (leb b'A' c && leb c b'F') || (leb b'a' c && leb c b'f')

unfoldable pub hexdigits : ℕ → ℕ
hexdigits d = get_or (codes "0123456789ABCDEF") d 0

-- `ss`, allocated with the first `offset` characters of `str` if it is not there.
unfoldable pub started : Chars → ℕ → Option Chars → Chars
started str offset none = take offset str
started str offset (some ss) = ss

-- What the loop of `UrlEncode` appends for a character that is not unreserved.
unfoldable pub escape : Bool → ℕ → Chars
unfolding hexdigits
escape space_as_plus c =
    if c == b' ' && space_as_plus
    then b'+' ∷ []
    else b'%' ∷ hexdigits (c / 16) ∷ hexdigits (c % 16) ∷ []

-- `else if(ss) ss->append(1, *c)`.
unfoldable pub append_if : Option Chars → ℕ → Option Chars
append_if none c = none
append_if (some ss) c = some (ss ++ c ∷ [])

unfoldable pub encode_loop : Bool → Chars → ℕ → Chars → Option Chars → Option Chars
unfolding char_is_unreserved started escape append_if
encode_loop space_as_plus str offset [] ss = ss
encode_loop space_as_plus str offset (c ∷ rest) ss =
    encode_loop space_as_plus str (suc offset) rest (
      if not (char_is_unreserved c)
      then some (started str offset ss ++ escape space_as_plus c)
      else append_if ss c)

-- `if(!ss) return str; else return *ss`.
unfoldable pub finished : Chars → Option Chars → Chars
finished str none = str
finished str (some ss) = ss

unfoldable pub url_encode : Chars → Bool → Chars
unfolding encode_loop finished
url_encode str space_as_plus = finished str (encode_loop space_as_plus str 0 str none)

-- `*c == '%' && (c + 2) < end && isxdigit(*(c + 1)) && isxdigit(*(c + 2))`, where `rest` follows `c`.
-- It gives the byte of the escape.
unfoldable pub escaped : ℕ → Chars → Option ℕ
unfolding isxdigit xdigit_chars
escaped c (high ∷ low ∷ rest) =
    if c == b'%' && isxdigit high && isxdigit low
    then some (xdigit_chars high * 16 + xdigit_chars low)
    else none
escaped c (high ∷ []) = none
escaped c [] = none

-- The byte that is appended in place of an encoded character, and how many characters after the first
-- it takes (`c += 2`).
unfoldable pub decoded : Bool → ℕ → Chars → Option (ℕ × ℕ)
unfolding escaped
decoded space_as_plus c rest =
    if c == b'+' && space_as_plus
    then some (b' ', 0)
    else elim (escaped c rest) [ some byte ↦ some (byte, 2) | none ↦ none ]

-- `skip` is how many characters `c += 2` has still to step over.
unfoldable pub decode_loop : Bool → Chars → ℕ → ℕ → Chars → Option Chars → Option Chars
unfolding decoded started append_if
decode_loop space_as_plus str skip offset [] ss = ss
decode_loop space_as_plus str (suc skip) offset (c ∷ rest) ss =
    decode_loop space_as_plus str skip (suc offset) rest ss
decode_loop space_as_plus str zero offset (c ∷ rest) ss = elim (decoded space_as_plus c rest) [
  | some (byte, skip) ↦
      decode_loop space_as_plus str skip (suc offset) rest
        (some (started str offset ss ++ byte ∷ []))
  | none ↦ decode_loop space_as_plus str 0 (suc offset) rest (append_if ss c)
]

unfoldable pub url_decode : Chars → Bool → Chars
unfolding decode_loop finished
url_decode str space_as_plus = finished str (decode_loop space_as_plus str 0 0 str none)
