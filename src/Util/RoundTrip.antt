-- ===== src/Util/RoundTrip.antt =====
-- `UrlDecode` undoes `UrlEncode` (civan/util.cc).
use civan.Common.{
  Chars, ℕ, ◌<◌, ◌/◌, ◌%◌, [], ◌∷◌, ◌++◌, Option, none, some, Bool, true, false, ◌&&◌, ◌||◌, not,
  ◌==◌, ◌≡◌, refl, ap, sym, ◌∙◌, inl, inr, append_assoc, append-nil, Bool-cases, arith,
}
use civan.Words.{AllBytes}
use civan.Util.Url.{char_is_unreserved, hexdigits, escape, url_encode, escaped, decoded, url_decode}
use civan.Common.Table.{all_below, all_below_lem}
use civan.Util.Loops.{encoded, encode_all, decode_all, url_encode-encode_all, url_decode-decode_all}

-- What the tables say of one character.
plain_fits : ℕ → Bool
plain_fits c = not (char_is_unreserved c) || not (c == b'%') && not (c == b'+')

escape_fits : ℕ → Bool
escape_fits c = elim (escaped b'%' (hexdigits (c / 16) ∷ hexdigits (c % 16) ∷ [])) [
  | some byte ↦ byte == c
  | none ↦ false
]

plain_all : all_below plain_fits 256 ≡ true
unfolding all_below plain_fits char_is_unreserved
plain_all = refl

escape_all : all_below escape_fits 256 ≡ true
unfolding all_below escape_fits hexdigits escaped
escape_all = refl

module _ (c : ℕ) (h : c < 256) where
  plain_fits_byte : plain_fits c ≡ true
  plain_fits_byte = all_below_lem plain_fits 256 c plain_all h

  escape_fits_byte : escape_fits c ≡ true
  escape_fits_byte = all_below_lem escape_fits 256 c escape_all h

-- What follows an escape has no part in it.
escaped_front :
    (c high low : ℕ) (rest : Chars) → escaped c (high ∷ low ∷ rest) ≡ escaped c (high ∷ low ∷ [])
unfolding escaped
escaped_front c high low rest = refl

some_of_test :
    (o : Option ℕ) (c : ℕ)
    → elim o as (λ x. Bool) [ some byte ↦ byte == c | none ↦ false ] ≡ true
    → o ≡ some c
some_of_test none c h = cc
some_of_test (some byte) c h = ground arith

escape_back :
    (c : ℕ) (rest : Chars)
    → c < 256
    → escaped b'%' (hexdigits (c / 16) ∷ hexdigits (c % 16) ∷ rest) ≡ some c
unfolding escape_fits
escape_back c rest h =
    escaped_front b'%' (hexdigits (c / 16)) (hexdigits (c % 16)) rest
    ∙ some_of_test (escaped b'%' (hexdigits (c / 16) ∷ hexdigits (c % 16) ∷ [])) c
        (escape_fits_byte c h)

escaped_other : (c : ℕ) (rest : Chars) → (c == b'%') ≡ false → escaped c rest ≡ none
unfolding escaped
escaped_other c [] h = refl
escaped_other c (high ∷ []) h = refl
escaped_other c (high ∷ low ∷ rest) h = rw h refl

plain_cases : (u a b : Bool) → not u || not a && not b ≡ true → u ≡ true → (a ≡ false) × (b ≡ false)
plain_cases true true b h e = cc
plain_cases true false true h e = cc
plain_cases true false false h e = (refl, refl)
plain_cases false a b h e = cc

plain_tests :
    (c : ℕ) → c < 256 → char_is_unreserved c ≡ true → ((c == b'%') ≡ false) × ((c == b'+') ≡ false)
unfolding plain_fits
plain_tests c h e =
    plain_cases (char_is_unreserved c) (c == b'%') (c == b'+') (plain_fits_byte c h) e

decoded_plain :
    (plus : Bool) (c : ℕ) (rest : Chars)
    → c < 256
    → char_is_unreserved c ≡ true
    → decoded plus c rest ≡ none
unfolding decoded
decoded_plain plus c rest h e =
    rw ((plain_tests c h e).1, escaped_other c rest (plain_tests c h e).0) refl

decode_all_plus :
    (plus : Bool) (c : ℕ) (rest : Chars)
    → c == b' ' && plus ≡ true
    → decode_all plus 0 (b'+' ∷ rest) ≡ c ∷ decode_all plus 0 rest
unfolding decode_all decoded
decode_all_plus true c rest h = ap (λ d. d ∷ decode_all true 0 rest) (ground arith)
decode_all_plus false c rest h = ground arith

decode_all_hex :
    (plus : Bool) (c : ℕ) (rest : Chars)
    → c < 256
    → decode_all plus 0 (b'%' ∷ hexdigits (c / 16) ∷ hexdigits (c % 16) ∷ rest)
      ≡ c ∷ decode_all plus 0 rest
unfolding decode_all decoded
decode_all_hex plus c rest h = rw (decode_all, decoded, escape_back c rest h) refl

-- One encoded character is decoded to itself, whatever follows.
decode_all-encoded :
    (plus : Bool) (c : ℕ) (rest : Chars)
    → c < 256
    → decode_all plus 0 (encoded plus c ++ rest) ≡ c ∷ decode_all plus 0 rest
unfolding decode_all encoded escape
decode_all-encoded plus c rest h = elim (Bool-cases (char_is_unreserved c)) [
  | inl e ↦ rw (e, decode_all, decoded_plain plus c rest h e) refl
  | inr e ↦ elim (Bool-cases (c == b' ' && plus)) [
    | inl k ↦ rw (e, k) (decode_all_plus plus c rest k)
    | inr k ↦ rw (e, k) (decode_all_hex plus c rest h)
  ]
]

decode_all-encode_all :
    (plus : Bool) (str rest : Chars)
    → AllBytes str
    → decode_all plus 0 (encode_all plus str ++ rest) ≡ str ++ decode_all plus 0 rest
unfolding encode_all decode_all
decode_all-encode_all plus [] rest h = refl
decode_all-encode_all plus (c ∷ str) rest (b, h) = rw (
  append_assoc (encoded plus c) (encode_all plus str) rest,
  decode_all-encoded plus c (encode_all plus str ++ rest) b,
  decode_all-encode_all plus str rest h,
)

-- Any string of bytes that is encoded and decoded, with the same `space_as_plus`, comes back.
pub url_decode-url_encode :
    (str : Chars) (space_as_plus : Bool)
    → AllBytes str
    → url_decode (url_encode str space_as_plus) space_as_plus ≡ str
unfolding decode_all
url_decode-url_encode str plus h =
    url_decode-decode_all (url_encode str plus) plus
    ∙ rw (url_encode-encode_all str plus, sym (append-nil (encode_all plus str)))
        (decode_all-encode_all plus str [] h ∙ append-nil str)
