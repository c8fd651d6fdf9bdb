-- ===== src/Util/Ends.antt =====
-- What `Trim`, `TrimLeft` and `TrimRight` of civan/util.cc leave of a string.
use civan.Common.{
  Chars, ℕ, suc, [], ◌∷◌, ◌++◌, none, some, true, false, if◌then◌else◌, take, ◌≡◌, refl, Bool-cases,
  Option-cases, inl, inr, arith, ◌∙◌, length, take_front,
}
use civan.Util.Trim.{is_delimit, find_first_not_of, find_last_not_of, trim, trim_left, trim_right}

unfoldable pub drop_front : Chars → Chars → Chars
drop_front delimit [] = []
drop_front delimit (c ∷ str) = if is_delimit delimit c then drop_front delimit str else c ∷ str

unfoldable pub drop_back : Chars → Chars → Chars
drop_back delimit [] = []
drop_back delimit (c ∷ str) = elim (drop_back delimit str) [
  | [] ↦ if is_delimit delimit c then [] else c ∷ []
  | d ∷ rest ↦ c ∷ d ∷ rest
]

-- All of a string are delimiters.
abbrev pub AllDelimit : Chars → Chars → Type 0
AllDelimit delimit [] = Unit {0}
AllDelimit delimit (c ∷ str) = (is_delimit delimit c ≡ true) × AllDelimit delimit str

-- `TrimLeft` drops the delimiters at the front.
pub trim_left-drop_front : (str delimit : Chars) → trim_left str delimit ≡ drop_front delimit str
unfolding trim_left drop_front
trim_left-drop_front [] delimit = refl
trim_left-drop_front (c ∷ str) delimit = ground (arith, trim_left-drop_front str delimit)

drop_back-none :
    (str delimit : Chars) → find_last_not_of delimit str ≡ none → drop_back delimit str ≡ []
unfolding find_last_not_of drop_back
drop_back-none [] delimit h = refl
drop_back-none (c ∷ str) delimit h = ground (arith, drop_back-none str delimit)

drop_back-some :
    (str delimit : Chars) (i : ℕ)
    → find_last_not_of delimit str ≡ some i
    → drop_back delimit str ≡ take (suc i) str
unfolding find_last_not_of drop_back
drop_back-some [] delimit i h = cc
drop_back-some (c ∷ str) delimit i h = elim (Option-cases (find_last_not_of delimit str)) [
  | inl e ↦ ground (arith, drop_back-none str delimit e)
  | inr (j, e) ↦ ground (arith, drop_back-some str delimit j e)
]

trim_skip :
    (c : ℕ) (str delimit : Chars)
    → is_delimit delimit c ≡ true
    → trim (c ∷ str) delimit ≡ trim str delimit
unfolding trim
trim_skip c str delimit h = elim (Option-cases (find_first_not_of delimit str)) [
  | inl e ↦ ground arith
  | inr (i, e) ↦ elim (Option-cases (find_last_not_of delimit str)) [
    | inl k ↦ ground arith
    | inr k ↦ ground arith
  ]
]

find_first_start :
    (c : ℕ) (str delimit : Chars)
    → is_delimit delimit c ≡ false
    → find_first_not_of delimit (c ∷ str) ≡ some 0
unfolding find_first_not_of
find_first_start c str delimit h = rw h refl

find_last_start :
    (c : ℕ) (str delimit : Chars)
    → is_delimit delimit c ≡ false
    → (i : ℕ) × (find_last_not_of delimit (c ∷ str) ≡ some i)
unfolding find_last_not_of
find_last_start c str delimit h = elim (Option-cases (find_last_not_of delimit str)) [
  | inl e ↦ (0, ground arith)
  | inr (i, e) ↦ (suc i, ground arith)
]

trim_start :
    (c : ℕ) (str delimit : Chars)
    → is_delimit delimit c ≡ false
    → trim (c ∷ str) delimit ≡ drop_back delimit (c ∷ str)
unfolding trim
trim_start c str delimit h =
    let (i, e) = find_last_start c str delimit h in
    rw (trim, find_first_start c str delimit h, e, drop_back-some (c ∷ str) delimit i e)
      (ground arith)

-- `Trim` drops the delimiters at the front and those at the back.
pub trim-drop_back :
    (str delimit : Chars) → trim str delimit ≡ drop_back delimit (drop_front delimit str)
unfolding drop_front drop_back trim
trim-drop_back [] delimit = refl
trim-drop_back (c ∷ str) delimit = elim (Bool-cases (is_delimit delimit c)) [
  | inl e ↦ rw e (trim_skip c str delimit e ∙ trim-drop_back str delimit)
  | inr e ↦ rw e (trim_start c str delimit e)
]

find_last_delimits :
    (delimit blank : Chars) → AllDelimit delimit blank → find_last_not_of delimit blank ≡ none
unfolding find_last_not_of
find_last_delimits delimit [] h = refl
find_last_delimits delimit (c ∷ blank) (d, h) = ground (arith, find_last_delimits delimit blank h)

find_last_length :
    (delimit text : Chars) (c : ℕ) (blank : Chars)
    → is_delimit delimit c ≡ false
    → AllDelimit delimit blank
    → find_last_not_of delimit (text ++ c ∷ blank) ≡ some (length text)
unfolding find_last_not_of
find_last_length delimit [] c blank h k = ground (arith, find_last_delimits delimit blank k)
find_last_length delimit (d ∷ text) c blank h k =
    ground (arith, find_last_length delimit text c blank h k)

-- `TrimRight` drops the delimiters at the back and the last character before them, whatever it is.
pub trim_right_lem :
    (delimit text : Chars) (c : ℕ) (blank : Chars)
    → is_delimit delimit c ≡ false
    → AllDelimit delimit blank
    → trim_right (text ++ c ∷ blank) delimit ≡ text
unfolding trim_right
trim_right_lem delimit text c blank h k =
    rw (trim_right, find_last_length delimit text c blank h k) (take_front text (c ∷ blank))
