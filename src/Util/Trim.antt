-- ===== src/Util/Trim.antt =====
-- `StringUtil::Trim`, `TrimLeft` and `TrimRight` of civan/util.cc. A position is `none` where the code
-- has `npos`.
use civan.Common.{
  Chars, ℕ, suc, ◌+◌, ◌-◌, [], ◌∷◌, Option, none, some, Bool, false, ◌||◌, ◌==◌, if◌then◌else◌,
  take, drop,
}

-- Whether `c` is one of `delimit`.
unfoldable pub is_delimit : Chars → ℕ → Bool
is_delimit [] c = false
is_delimit (d ∷ delimit) c = c == d || is_delimit delimit c

unfoldable pub find_first_not_of : Chars → Chars → Option ℕ
find_first_not_of delimit [] = none
find_first_not_of delimit (c ∷ str) =
    if is_delimit delimit c
    then elim (find_first_not_of delimit str) [ some i ↦ some (suc i) | none ↦ none ]
    else some 0

unfoldable pub find_last_not_of : Chars → Chars → Option ℕ
find_last_not_of delimit [] = none
find_last_not_of delimit (c ∷ str) = elim (find_last_not_of delimit str) [
  | some i ↦ some (suc i)
  | none ↦ if is_delimit delimit c then none else some 0
]

-- Where there is a first such character there is a last one: the last case does not occur.
unfoldable pub trim : Chars → Chars → Chars
unfolding find_first_not_of find_last_not_of
trim str delimit = elim (find_first_not_of delimit str) [
  | none ↦ []
  | some begin ↦ elim (find_last_not_of delimit str) [
    | some end ↦ take (end - begin + 1) (drop begin str)
    | none ↦ drop begin str
  ]
]

unfoldable pub trim_left : Chars → Chars → Chars
unfolding find_first_not_of
trim_left str delimit = elim (find_first_not_of delimit str) [
  | none ↦ []
  | some begin ↦ drop begin str
]

unfoldable pub trim_right : Chars → Chars → Chars
unfolding find_last_not_of
trim_right str delimit = elim (find_last_not_of delimit str) [ none ↦ [] | some end ↦ take end str ]

-- The default of `delimit`.
abbrev pub blanks : Chars
blanks = b' ' ∷ b'\t' ∷ b'\r' ∷ b'\n' ∷ []
