-- ===== src/Http/Query.antt =====
-- Queries and cookies that are put together from keys and encoded values, read by the macro
-- `PARSE_PARAM` of civan/http/http.cc.
use civan.Common.{
  Chars, ℕ, List, [], ◌∷◌, ◌++◌, none, some, true, false, ◌==◌, ◌≡◌, refl, ◌∙◌, arith, append_assoc,
}
use civan.Words.{AllBytes}
use civan.Common.SortedMap.{insert}
use civan.Util.Url.{url_encode}
use civan.Util.Loops.{encode_all, url_encode-encode_all}
use civan.Util.RoundTrip.{url_decode-url_encode}
use civan.Util.Safe.{encode_all-AllSafe, AllSafe, is_safe}
use civan.Http.CaseInsensitive.{case_insensitive_less}
use civan.Http.Params.{MapType, split, parse_param}
use civan.Http.Scan.{scan, insert_all, parse_param-scan, scan_key, scan_last, scan_value}

-- `c` does not stand in the string.
abbrev pub Lacks : ℕ → Chars → Type 0
Lacks c [] = Unit {0}
Lacks c (d ∷ str) = (d == c ≡ false) × Lacks c str

split_found :
    (c : ℕ) (text rest : Chars) → Lacks c text → split c (text ++ c ∷ rest) ≡ some (text, rest)
unfolding split
split_found c [] rest h = ground arith
split_found c (d ∷ text) rest (k, h) = ground (arith, split_found c text rest h)

split-Lacks : (c : ℕ) (text : Chars) → Lacks c text → split c text ≡ none
unfolding split
split-Lacks c [] h = refl
split-Lacks c (d ∷ text) (k, h) = ground (arith, split-Lacks c text h)

AllSafe-Lacks : (c : ℕ) (str : Chars) → is_safe c ≡ false → AllSafe str → Lacks c str
AllSafe-Lacks c [] h s = tt
AllSafe-Lacks c (d ∷ str) h (k, s) = (ground arith, AllSafe-Lacks c str h s)

url_encode-Lacks :
    (c : ℕ) (str : Chars) → is_safe c ≡ false → AllBytes str → Lacks c (url_encode str true)
url_encode-Lacks c str h b =
    rw (url_encode-encode_all str true)
      (AllSafe-Lacks c (encode_all true str) h (encode_all-AllSafe true str b))

unfoldable pub format_pair : Chars × Chars → Chars
format_pair (key, val) = key ++ b'=' ∷ url_encode val true

-- The pairs with `flag` between them.
unfoldable pub format_params : ℕ → List (Chars × Chars) → Chars
unfolding format_pair
format_params flag [] = []
format_params flag (p ∷ []) = format_pair p
format_params flag (p ∷ q ∷ params) = format_pair p ++ flag ∷ format_params flag (q ∷ params)

unfoldable pub insert_params : (Chars → Chars) → List (Chars × Chars) → MapType → MapType
insert_params trim [] m = m
insert_params trim ((key, val) ∷ params) m =
    insert_params trim params (insert case_insensitive_less (trim key) val m)

-- Keys without `=`, and values of bytes.
abbrev pub AreParams : List (Chars × Chars) → Type 0
AreParams [] = Unit {0}
AreParams ((key, val) ∷ params) = Lacks b'=' key × AllBytes val × AreParams params

one_pair :
    (flag : ℕ) (key val : Chars)
    → is_safe flag ≡ false
    → Lacks b'=' key
    → AllBytes val
    → scan flag none [] (format_pair (key, val)) ≡ (key, url_encode val true) ∷ []
unfolding format_pair
one_pair flag key val h k b =
    scan_key flag [] (key ++ b'=' ∷ url_encode val true) key (url_encode val true)
      (split_found b'=' key (url_encode val true) k)
    ∙ scan_last flag key [] (url_encode val true)
        (split-Lacks flag (url_encode val true) (url_encode-Lacks flag val h b))

next_pair :
    (flag : ℕ) (key val rest : Chars)
    → is_safe flag ≡ false
    → Lacks b'=' key
    → AllBytes val
    → scan flag none [] (format_pair (key, val) ++ flag ∷ rest)
      ≡ (key, url_encode val true) ∷ scan flag none [] rest
unfolding format_pair
next_pair flag key val rest h k b =
    rw (append_assoc key (b'=' ∷ url_encode val true) (flag ∷ rest)) (
      scan_key flag [] (key ++ (b'=' ∷ (url_encode val true ++ flag ∷ rest))) key
        (url_encode val true ++ flag ∷ rest)
        (split_found b'=' key (url_encode val true ++ flag ∷ rest) k)
      ∙ scan_value flag key [] (url_encode val true ++ flag ∷ rest) (url_encode val true) rest
          (split_found flag (url_encode val true) rest (url_encode-Lacks flag val h b)))

pub insert_all-scan :
    (trim : Chars → Chars) (flag : ℕ) (params : List (Chars × Chars)) (m : MapType)
    → is_safe flag ≡ false
    → AreParams params
    → insert_all trim (scan flag none [] (format_params flag params)) m
      ≡ insert_params trim params m
unfolding insert_all insert_params format_params scan
insert_all-scan trim flag [] m h p = refl
insert_all-scan trim flag ((key, val) ∷ []) m h (k, b, p) =
    rw (one_pair flag key val h k b, insert_all, url_decode-url_encode val true b) refl
insert_all-scan trim flag ((key, val) ∷ q ∷ params) m h (k, b, p) =
    rw
      (
        insert_all,
        next_pair flag key val (format_params flag (q ∷ params)) h k b,
        url_decode-url_encode val true b,
      )
      (insert_all-scan trim flag (q ∷ params) (insert case_insensitive_less (trim key) val m) h p)

-- The macro gets back keys and values from a query or a cookie whose values went through `UrlEncode`,
-- if no key has a `=` and `flag` is a character that `UrlEncode` never writes.
pub parse_param-format_params :
    (trim : Chars → Chars) (flag : ℕ) (params : List (Chars × Chars)) (m : MapType)
    → is_safe flag ≡ false
    → AreParams params
    → parse_param trim flag (format_params flag params) m ≡ insert_params trim params m
parse_param-format_params trim flag params m h p =
    parse_param-scan trim flag (format_params flag params) m
    ∙ insert_all-scan trim flag params m h p
