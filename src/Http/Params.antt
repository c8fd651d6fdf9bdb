-- ===== src/Http/Params.antt =====
-- The macro `PARSE_PARAM` of civan/http/http.cc. `str` is what lies behind `pos` in the string of the
-- macro.
use civan.Common.{
  Chars, ℕ, zero, suc, List, [], ◌∷◌, Option, none, some, true, ◌==◌, if◌then◌else◌, length,
}
use civan.Common.SortedMap.{insert}
use civan.Util.Url.{url_decode}
use civan.Http.CaseInsensitive.{case_insensitive_less}

-- `std::map<std::string, std::string, CaseInsensitiveLess>`.
abbrev pub MapType : Type 0
MapType = List (Chars × Chars)

-- `str.find(c, pos)`, as what lies before the character and what lies behind it.
unfoldable pub split : ℕ → Chars → Option (Chars × Chars)
split c [] = none
split c (d ∷ str) =
    if d == c
    then some ([], str)
    else elim (split c str) [ some (before, behind) ↦ some (d ∷ before, behind) | none ↦ none ]

-- The rounds of the loop. At the `=`, `find(flag, pos)` looks behind it, since `flag` is another
-- character. Without a `flag`, the value is the rest.
unfoldable pub parse_loop : (Chars → Chars) → ℕ → ℕ → Chars → MapType → MapType
unfolding split
parse_loop trim flag zero str m = m
parse_loop trim flag (suc fuel) str m = elim (split b'=' str) [
  | none ↦ m
  | some (key, behind) ↦ elim (split flag behind) [
    | none ↦ insert case_insensitive_less (trim key) (url_decode behind true) m
    | some (val, rest) ↦
        parse_loop trim flag fuel rest
          (insert case_insensitive_less (trim key) (url_decode val true) m)
  ]
]

-- Each round but the last takes one character at least.
unfoldable pub parse_param : (Chars → Chars) → ℕ → Chars → MapType → MapType
unfolding parse_loop
parse_param trim flag str m = parse_loop trim flag (suc (length str)) str m
