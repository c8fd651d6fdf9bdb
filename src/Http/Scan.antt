-- ===== src/Http/Scan.antt =====
-- The macro `PARSE_PARAM` of civan/http/http.cc against a scanner that reads one character at a time.
use civan.Common.{
  Chars, ℕ, zero, suc, ◌<◌, List, [], ◌∷◌, ◌++◌, Option, none, some, true, ◌==◌, if◌then◌else◌,
  length, ◌≡◌, refl, ap, sym, arith, Option-cases, inl, inr, append_assoc, append-nil,
}
use civan.Common.SortedMap.{insert}
use civan.Util.Url.{url_decode}
use civan.Http.CaseInsensitive.{case_insensitive_less}
use civan.Http.Params.{MapType, split, parse_loop, parse_param}

-- The parameters of a string. With `none` the scanner is in a key, with `some key` in its value; `text`
-- is what it has read of that. A last key without `=` is no parameter.
unfoldable pub scan : ℕ → Option Chars → Chars → Chars → List (Chars × Chars)
scan flag none text [] = []
scan flag (some key) text [] = (key, text) ∷ []
scan flag none text (c ∷ str) =
    if c == b'=' then scan flag (some text) [] str else scan flag none (text ++ c ∷ []) str
scan flag (some key) text (c ∷ str) =
    if c == flag
    then (key, text) ∷ scan flag none [] str
    else scan flag (some key) (text ++ c ∷ []) str

-- The parameters go into the map in order, so the first one of a key stays.
unfoldable pub insert_all : (Chars → Chars) → List (Chars × Chars) → MapType → MapType
insert_all trim [] m = m
insert_all trim ((key, val) ∷ params) m =
    insert_all trim params (insert case_insensitive_less (trim key) (url_decode val true) m)

split_shorter :
    (c : ℕ) (str before behind : Chars)
    → split c str ≡ some (before, behind)
    → length behind < length str
unfolding split
split_shorter c [] before behind h = cc
split_shorter c (d ∷ str) before behind h = elim (Option-cases (split c str)) [
  | inl e ↦ ground arith
  | inr ((a, b), e) ↦ ground (arith, split_shorter c str a b e)
]

scan_no_key : (flag : ℕ) (text str : Chars) → split b'=' str ≡ none → scan flag none text str ≡ []
unfolding split scan
scan_no_key flag text [] h = refl
scan_no_key flag text (c ∷ str) h = elim (Option-cases (split b'=' str)) [
  | inl e ↦ ground (arith, scan_no_key flag (text ++ c ∷ []) str e)
  | inr e ↦ ground arith
]

pub scan_key :
    (flag : ℕ) (text str key behind : Chars)
    → split b'=' str ≡ some (key, behind)
    → scan flag none text str ≡ scan flag (some (text ++ key)) [] behind
unfolding split scan
scan_key flag text [] key behind h = cc
scan_key flag text (c ∷ str) key behind h = elim (Option-cases (split b'=' str)) [
  | inl e ↦ ground (arith, append-nil text)
  | inr ((a, b), e) ↦ ground (
    arith,
    append-nil text,
    scan_key flag (text ++ c ∷ []) str a b e,
    append_assoc text (c ∷ []) a,
  )
]

pub scan_last :
    (flag : ℕ) (key text str : Chars)
    → split flag str ≡ none
    → scan flag (some key) text str ≡ (key, text ++ str) ∷ []
unfolding split scan
scan_last flag key text [] h = ap (λ t. (key, t) ∷ []) (sym (append-nil text))
scan_last flag key text (c ∷ str) h = elim (Option-cases (split flag str)) [
  | inl e ↦
      ground (arith, scan_last flag key (text ++ c ∷ []) str e, append_assoc text (c ∷ []) str)
  | inr e ↦ ground arith
]

pub scan_value :
    (flag : ℕ) (key text str val rest : Chars)
    → split flag str ≡ some (val, rest)
    → scan flag (some key) text str ≡ (key, text ++ val) ∷ scan flag none [] rest
unfolding split scan
scan_value flag key text [] val rest h = cc
scan_value flag key text (c ∷ str) val rest h = elim (Option-cases (split flag str)) [
  | inl e ↦ ground (arith, append-nil text)
  | inr ((a, b), e) ↦ ground (
    arith,
    append-nil text,
    scan_value flag key (text ++ c ∷ []) str a b e,
    append_assoc text (c ∷ []) a,
  )
]

parse_loop-scan :
    (trim : Chars → Chars) (flag fuel : ℕ) (str : Chars) (m : MapType)
    → length str < fuel
    → parse_loop trim flag fuel str m ≡ insert_all trim (scan flag none [] str) m
unfolding parse_loop insert_all
parse_loop-scan trim flag zero str m h = absurd (omega arith)
parse_loop-scan trim flag (suc fuel) str m h = elim (Option-cases (split b'=' str)) [
  | inl e ↦ rw (parse_loop, e, scan_no_key flag [] str e) refl
  | inr ((key, behind), e) ↦ elim (Option-cases (split flag behind)) [
    | inl k ↦
        rw (parse_loop, e, k, scan_key flag [] str key behind e, scan_last flag key [] behind k)
          refl
    | inr ((val, rest), k) ↦
        rw
          (
            parse_loop,
            e,
            k,
            scan_key flag [] str key behind e,
            scan_value flag key [] behind val rest k,
          )
          (parse_loop-scan trim flag fuel rest
            (insert case_insensitive_less (trim key) (url_decode val true) m)
            (omega (
              arith,
              h,
              split_shorter b'=' str key behind e,
              split_shorter flag behind val rest k,
            )))
  ]
]

-- The macro inserts, in order, what the scanner reads, however many rounds that takes.
pub parse_param-scan :
    (trim : Chars → Chars) (flag : ℕ) (str : Chars) (m : MapType)
    → parse_param trim flag str m ≡ insert_all trim (scan flag none [] str) m
unfolding parse_param
parse_param-scan trim flag str m = parse_loop-scan trim flag (suc (length str)) str m (omega arith)
