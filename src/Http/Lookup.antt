-- ===== src/Http/Lookup.antt =====
-- The header map of `HttpRequest` (civan/http/http.cc), and what its other maps find after the macro
-- `PARSE_PARAM`.
use civan.Common.{
  Chars, List, [], ◌∷◌, none, some, Bool, true, false, if◌then◌else◌, ◌≡◌, refl, ap, sym, ◌∙◌, ◌++◌,
  Bool-cases, inl, inr,
}
use civan.Common.SortedMap.{
  find, assign, insert, erase, equivalent, find-assign, find-insert, find-erase, Sorted, found_or,
  IsStrictOrder,
}
use civan.Http.CaseInsensitive.{case_insensitive_less, case_insensitive_less-IsStrictOrder}
use civan.Util.Url.{url_decode}
use civan.Util.Trim.{trim}
use civan.Http.Params.{MapType}
use civan.Http.Scan.{insert_all}
use civan.Http.Request.{HttpRequest, value_or, find_case, get_header, set_header, del_header}

-- Keys that `CaseInsensitiveLess` does not tell apart.
abbrev pub same_key : Chars → Chars → Bool
same_key = equivalent case_insensitive_less

abbrev pub order : IsStrictOrder case_insensitive_less
order = case_insensitive_less-IsStrictOrder

abbrev put : Chars → Chars → MapType → MapType
put = insert case_insensitive_less

pub if_apart {ℓ κ} :
    {A : Type ℓ} {B : Type κ} (b : Bool) (f : A → B) (x y : A)
    → f (if b then x else y) ≡ (if b then f x else f y)
if_apart true f x y = refl
if_apart false f x y = refl

pub value_assigned :
    (j k val def : Chars) (m : MapType)
    → value_or (find_case j (assign case_insensitive_less k val m)) def
      ≡ (if same_key k j then val else value_or (find_case j m) def)
value_assigned j k val def m =
    rw (find-assign case_insensitive_less order j k val m)
      (if_apart (same_key k j) (λ found. value_or found def) (some val) (find_case j m))

-- `getHeader` after `setHeader` gives the new value for each spelling of the key, and what it gave
-- before for all other keys.
pub get_header-set_header :
    (j k val def : Chars) (r : HttpRequest)
    → get_header j def (set_header k val r) ≡ (if same_key k j then val else get_header j def r)
unfolding get_header set_header
get_header-set_header j k val def r = value_assigned j k val def r.headers

-- `getHeader` after `delHeader` gives the default for each spelling of the key, and what it gave before
-- for all other keys.
pub get_header-del_header :
    (j k def : Chars) (r : HttpRequest)
    → Sorted case_insensitive_less r.headers
    → get_header j def (del_header k r) ≡ (if same_key k j then def else get_header j def r)
unfolding get_header del_header
get_header-del_header j k def r s =
    rw (find-erase case_insensitive_less order j k r.headers s)
      (if_apart (same_key k j) (λ found. value_or found def) none (find_case j r.headers))

-- What is not found is put in, what is found stays.
pub find_insert_all :
    (trim : Chars → Chars) (ps : List (Chars × Chars)) (j : Chars) (m n : MapType)
    → find_case j m ≡ find_case j n
    → find_case j (insert_all trim ps m) ≡ find_case j (insert_all trim ps n)
unfolding insert_all
find_insert_all trim [] j m n h = h
find_insert_all trim ((k, v) ∷ ps) j m n h =
    find_insert_all trim ps j (put (trim k) (url_decode v true) m)
      (put (trim k) (url_decode v true) n)
      (find-insert case_insensitive_less order j (trim k) (url_decode v true) m
        ∙ ap (λ found. found_or found (same_key (trim k) j) (url_decode v true)) h
        ∙ sym (find-insert case_insensitive_less order j (trim k) (url_decode v true) n))

pub find_insert_all-some :
    (trim : Chars → Chars) (ps : List (Chars × Chars)) (j val : Chars) (m : MapType)
    → find_case j m ≡ some val
    → find_case j (insert_all trim ps m) ≡ some val
unfolding insert_all
find_insert_all-some trim [] j val m h = h
find_insert_all-some trim ((k, v) ∷ ps) j val m h =
    find_insert_all-some trim ps j val (put (trim k) (url_decode v true) m) (
      find-insert case_insensitive_less order j (trim k) (url_decode v true) m
      ∙ ap (λ found. found_or found (same_key (trim k) j) (url_decode v true)) h)

pub insert_all-append :
    (trim : Chars → Chars) (ps qs : List (Chars × Chars)) (m : MapType)
    → insert_all trim (ps ++ qs) m ≡ insert_all trim qs (insert_all trim ps m)
unfolding insert_all
insert_all-append trim [] qs m = refl
insert_all-append trim ((k, v) ∷ ps) qs m =
    insert_all-append trim ps qs (put (trim k) (url_decode v true) m)

find_nil : (j : Chars) → none ≡ find_case j []
unfolding find
find_nil j = refl

pub find_assigned :
    (trim : Chars → Chars) (ps : List (Chars × Chars)) (j k val : Chars) (m : MapType)
    → find_case j (insert_all trim ps (assign case_insensitive_less k val m))
      ≡ (if same_key k j then some val else find_case j (insert_all trim ps m))
find_assigned trim ps j k val m =
    let found = find-assign case_insensitive_less order j k val m in
    elim (Bool-cases (same_key k j)) [
      | inl e ↦ rw e (
          find_insert_all-some trim ps j val (assign case_insensitive_less k val m)
            (found ∙ rw e refl))
      | inr e ↦
          rw e
            (find_insert_all trim ps j (assign case_insensitive_less k val m) m (found ∙ rw e refl))
    ]

pub find_erased :
    (trim : Chars → Chars) (ps : List (Chars × Chars)) (j k : Chars) (m : MapType)
    → Sorted case_insensitive_less m
    → find_case j (insert_all trim ps (erase case_insensitive_less k m)) ≡ (
        if same_key k j
        then find_case j (insert_all trim ps [])
        else find_case j (insert_all trim ps m))
find_erased trim ps j k m s =
    let found = find-erase case_insensitive_less order j k m s in
    elim (Bool-cases (same_key k j)) [
      | inl e ↦ rw e (
          find_insert_all trim ps j (erase case_insensitive_less k m) []
            (found ∙ rw e (find_nil j)))
      | inr e ↦
          rw e (find_insert_all trim ps j (erase case_insensitive_less k m) m (found ∙ rw e refl))
    ]
