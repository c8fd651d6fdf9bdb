-- ===== src/Util/Loops.antt =====
-- `UrlEncode` and `UrlDecode` of civan/util.cc as maps of characters.
use civan.Common.{
  Chars, ℕ, zero, suc, [], ◌∷◌, ◌++◌, none, some, Bool, if◌then◌else◌, take, length, ◌≡◌, refl, ap,
  sym, ◌∙◌, inl, inr, append_assoc, append-nil, length-append, take_front, Bool-cases, Option-cases,
  arith,
}
use civan.Util.Url.{
  char_is_unreserved, started, escape, append_if, encode_loop, finished, url_encode, decoded,
  decode_loop, url_decode,
}

-- A string encoded character by character.
unfoldable pub encoded : Bool → ℕ → Chars
encoded space_as_plus c = if char_is_unreserved c then c ∷ [] else escape space_as_plus c

unfoldable pub encode_all : Bool → Chars → Chars
unfolding encoded
encode_all space_as_plus [] = []
encode_all space_as_plus (c ∷ rest) = encoded space_as_plus c ++ encode_all space_as_plus rest

-- A string decoded from the left; `skip` characters have no part in the result.
unfoldable pub decode_all : Bool → ℕ → Chars → Chars
decode_all space_as_plus skip [] = []
decode_all space_as_plus (suc skip) (c ∷ rest) = decode_all space_as_plus skip rest
decode_all space_as_plus zero (c ∷ rest) = elim (decoded space_as_plus c rest) [
  | some (byte, skip) ↦ byte ∷ decode_all space_as_plus skip rest
  | none ↦ c ∷ decode_all space_as_plus 0 rest
]

length_snoc : (xs : Chars) (x : ℕ) → length (xs ++ x ∷ []) ≡ suc (length xs)
length_snoc xs x = omega (arith, length-append xs (x ∷ []))

encode_loop-some :
    (plus : Bool) (str : Chars) (offset : ℕ) (rest ss : Chars)
    → encode_loop plus str offset rest (some ss) ≡ some (ss ++ encode_all plus rest)
unfolding encode_loop encode_all encoded started append_if
encode_loop-some plus str offset [] ss = ap some (sym (append-nil ss))
encode_loop-some plus str offset (c ∷ rest) ss = elim (Bool-cases (char_is_unreserved c)) [
  | inl e ↦ rw (
    e,
    encode_loop-some plus str (suc offset) rest (ss ++ c ∷ []),
    append_assoc ss (c ∷ []) (encode_all plus rest),
  )
  | inr e ↦ rw (
    e,
    encode_loop-some plus str (suc offset) rest (ss ++ escape plus c),
    append_assoc ss (escape plus c) (encode_all plus rest),
  )
]

take_started :
    (str done rest : Chars) (offset : ℕ)
    → str ≡ done ++ rest
    → offset ≡ length done
    → take offset str ≡ done
take_started str done rest offset h k = rw (h, k) (take_front done rest)

-- The front of `str` up to one character more.
module _ (str done rest : Chars) (offset : ℕ) (c : ℕ) where
  step_str : str ≡ done ++ c ∷ rest → str ≡ (done ++ c ∷ []) ++ rest
  step_str h = h ∙ sym (append_assoc done (c ∷ []) rest)

  step_offset : offset ≡ length done → suc offset ≡ length (done ++ c ∷ [])
  step_offset k = omega (arith, k, length_snoc done c)

encode_loop-none :
    (plus : Bool) (str done rest : Chars) (offset : ℕ)
    → str ≡ done ++ rest
    → offset ≡ length done
    → finished str (encode_loop plus str offset rest none) ≡ done ++ encode_all plus rest
unfolding encode_loop encode_all encoded started append_if finished
encode_loop-none plus str done [] offset h k = h
encode_loop-none plus str done (c ∷ rest) offset h k = elim (Bool-cases (char_is_unreserved c)) [
  | inl e ↦ rw (
    e,
    encode_loop-none plus str (done ++ c ∷ []) rest (suc offset) (step_str str done rest offset c h)
        (step_offset str done rest offset c k),
    append_assoc done (c ∷ []) (encode_all plus rest),
  )
  | inr e ↦ rw (
    e,
    take_started str done (c ∷ rest) offset h k,
    encode_loop-some plus str (suc offset) rest (done ++ escape plus c),
    append_assoc done (escape plus c) (encode_all plus rest),
  )
]

-- `UrlEncode` is the map that keeps the unreserved characters and escapes each of the others, though
-- it copies the string only from the first of those on.
pub url_encode-encode_all :
    (str : Chars) (space_as_plus : Bool)
    → url_encode str space_as_plus ≡ encode_all space_as_plus str
unfolding url_encode
url_encode-encode_all str plus = encode_loop-none plus str [] str 0 refl refl

decode_loop-some :
    (plus : Bool) (str : Chars) (skip offset : ℕ) (rest ss : Chars)
    → decode_loop plus str skip offset rest (some ss) ≡ some (ss ++ decode_all plus skip rest)
unfolding decode_loop decode_all started append_if
decode_loop-some plus str skip offset [] ss = ap some (sym (append-nil ss))
decode_loop-some plus str (suc skip) offset (c ∷ rest) ss =
    decode_loop-some plus str skip (suc offset) rest ss
decode_loop-some plus str zero offset (c ∷ rest) ss = elim (Option-cases (decoded plus c rest)) [
  | inl e ↦ rw (
    e,
    decode_loop,
    decode_all,
    decode_loop-some plus str 0 (suc offset) rest (ss ++ c ∷ []),
    append_assoc ss (c ∷ []) (decode_all plus 0 rest),
  )
  | inr ((byte, skip), e) ↦ rw (
    e,
    decode_loop,
    decode_all,
    decode_loop-some plus str skip (suc offset) rest (ss ++ byte ∷ []),
    append_assoc ss (byte ∷ []) (decode_all plus skip rest),
  )
]

decode_loop-none :
    (plus : Bool) (str done rest : Chars) (offset : ℕ)
    → str ≡ done ++ rest
    → offset ≡ length done
    → finished str (decode_loop plus str 0 offset rest none) ≡ done ++ decode_all plus 0 rest
unfolding decode_loop decode_all started append_if finished
decode_loop-none plus str done [] offset h k = h
decode_loop-none plus str done (c ∷ rest) offset h k = elim (Option-cases (decoded plus c rest)) [
  | inl e ↦ rw (
    e,
    decode_loop,
    decode_all,
    decode_loop-none plus str (done ++ c ∷ []) rest (suc offset) (step_str str done rest offset c h)
        (step_offset str done rest offset c k),
    append_assoc done (c ∷ []) (decode_all plus 0 rest),
  )
  | inr ((byte, skip), e) ↦ rw (
    e,
    decode_loop,
    decode_all,
    take_started str done (c ∷ rest) offset h k,
    decode_loop-some plus str skip (suc offset) rest (done ++ byte ∷ []),
    append_assoc done (byte ∷ []) (decode_all plus skip rest),
  )
]

-- `UrlDecode` decodes from the left, each character or escape on its own, though it copies the string
-- only from the first escape on.
pub url_decode-decode_all :
    (str : Chars) (space_as_plus : Bool)
    → url_decode str space_as_plus ≡ decode_all space_as_plus 0 str
unfolding url_decode
url_decode-decode_all str plus = decode_loop-none plus str [] str 0 refl refl
