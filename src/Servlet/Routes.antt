-- ===== src/Servlet/Routes.antt =====
-- What the routes of civan/http/servlet.cc answer after each operation.
use civan.Common.{
  ◌≡◌, refl, ap, sym, ◌∙◌, ◌⊎◌, inl, inr, [], ◌∷◌, ◌++◌, Option, none, some, Bool, true, false,
  ◌&&◌, ◌==◌, if◌then◌else◌, arith, Bool-cases,
}
use civan.Servlet.Dispatch.{
  Uri, same_uri, ServletPtr, Routes, ServletDispatch, find, put, erase_first, add_servlet,
  find_glob, get_matched_servlet,
}

same_uri_refl : (u : Uri) → same_uri u u ≡ true
same_uri_refl [] = refl
same_uri_refl (c ∷ u) = ground (arith, same_uri_refl u)

pub same_uri→≡ : (u v : Uri) → same_uri u v ≡ true → u ≡ v
same_uri→≡ [] [] h = refl
same_uri→≡ [] (d ∷ v) h = cc
same_uri→≡ (c ∷ u) [] h = cc
same_uri→≡ (c ∷ u) (d ∷ v) h = elim (Bool-cases (c == d)) [
  | inl same ↦
      ap (λ x. x ∷ u) (ground (arith, same))
      ∙ ap (λ w. d ∷ w) (same_uri→≡ u v (sym (ap (λ b. b && same_uri u v) same) ∙ h))
  | inr other ↦ absurd (false_or_true (sym (ap (λ b. b && same_uri u v) other) ∙ h))
]
  where
    false_or_true : false ≡ true → ⊥
    false_or_true e = cc

-- A test of two URIs, by the URIs.
pub data Compared (u v : Uri) : Type 0 where
  equal : u ≡ v → same_uri u v ≡ true → Compared u v
  other : same_uri u v ≡ false → same_uri v u ≡ false → Compared u v

pub compared : (u v : Uri) → Compared u v
compared u v = go (Bool-cases (same_uri u v)) (Bool-cases (same_uri v u))
  where
    go :
        (same_uri u v ≡ true) ⊎ (same_uri u v ≡ false)
        → (same_uri v u ≡ true) ⊎ (same_uri v u ≡ false)
        → Compared u v
    go (inl h) k = equal (same_uri→≡ u v h) h
    go (inr h) (inr k) = other h k
    go (inr h) (inl k) =
        equal (sym (same_uri→≡ v u k)) (ap (same_uri u) (same_uri→≡ v u k) ∙ same_uri_refl u)

same_uri_sym : (u v : Uri) → same_uri u v ≡ false → same_uri v u ≡ false
same_uri_sym u v ne = go (compared u v)
  where
    go : Compared u v → same_uri v u ≡ false
    go (equal e h) = absurd (false_or_true (sym ne ∙ h))
      where
        false_or_true : false ≡ true → ⊥
        false_or_true k = cc
    go (other h k) = k

-- The route of a URI after a route is put into the map.
find-put :
    (u v : Uri) (s : ServletPtr) (rs : Routes)
    → find v (put u s rs) ≡ (if same_uri u v then some s else find v rs)
unfolding find put
find-put u v s [] = refl
find-put u v s ((w, t) ∷ rs) = go (compared w u) (compared w v) (find-put u v s rs)
  where
    go :
        Compared w u
        → Compared w v
        → find v (put u s rs) ≡ (if same_uri u v then some s else find v rs)
        → find v (if same_uri w u then (w, s) ∷ rs else (w, t) ∷ put u s rs)
          ≡ (if same_uri u v then some s else if same_uri w v then some t else find v rs)
    go (equal e h) (equal e' h') ih = rw (h, h') (rw (sym (ap (λ x. same_uri x v) e) ∙ h') refl)
    go (equal e h) (other h' k') ih = rw (h, h') (rw (sym (ap (λ x. same_uri x v) e) ∙ h') refl)
    go (other h k) (equal e' h') ih = rw (h, h') (rw (sym (ap (same_uri u) e') ∙ k) refl)
    go (other h k) (other h' k') ih = rw (h, h') (ih)

-- `addServlet` sets the servlet of its URI, which is then matched whatever the patterns are, and leaves
-- what every other URI matches.
pub get_matched_servlet-add_servlet :
    (fnmatch : Uri → Uri → Bool) (u v : Uri) (s : ServletPtr) (d : ServletDispatch)
    → get_matched_servlet fnmatch v (add_servlet u s d)
      ≡ (if same_uri u v then s else get_matched_servlet fnmatch v d)
unfolding get_matched_servlet add_servlet
get_matched_servlet-add_servlet fnmatch u v s d =
    ap chosen (find-put u v s d.datas) ∙ go (same_uri u v)
  where
    chosen : Option ServletPtr → ServletPtr
    chosen o = elim o [
      | some t ↦ t
      | none ↦ (elim (find_glob fnmatch v d.globs) [ some t ↦ t | none ↦ d.default ])
    ]

    go :
        (b : Bool)
        → chosen (if b then some s else find v d.datas) ≡ (if b then s else chosen (find v d.datas))
    go true = refl
    go false = refl

-- Each URI stands once.
abbrev pub IsUnique : Routes → Type 0
IsUnique [] = Unit {0}
IsUnique ((u, s) ∷ rs) = (find u rs ≡ none) × IsUnique rs

pub erase-other :
    (u v : Uri) (rs : Routes) → same_uri u v ≡ false → find v (erase_first u rs) ≡ find v rs
unfolding find erase_first
erase-other u v [] ne = refl
erase-other u v ((w, t) ∷ rs) ne = go (compared w u) (erase-other u v rs ne)
  where
    go :
        Compared w u
        → find v (erase_first u rs) ≡ find v rs
        → find v (if same_uri w u then rs else (w, t) ∷ erase_first u rs)
          ≡ (if same_uri w v then some t else find v rs)
    go (equal e h) ih = rw h (rw (ap (λ x. same_uri x v) e ∙ ne) refl)
    go (other h k) ih = rw h (rw (ih) refl)

pub erase-same : (u : Uri) (rs : Routes) → IsUnique rs → find u (erase_first u rs) ≡ none
unfolding find erase_first
erase-same u [] k = refl
erase-same u ((w, t) ∷ rs) k = go (compared w u) (erase-same u rs k.1)
  where
    go :
        Compared w u
        → find u (erase_first u rs) ≡ none
        → find u (if same_uri w u then rs else (w, t) ∷ erase_first u rs) ≡ none
    go (equal e h) ih = rw h (sym (ap (λ x. find x rs) e) ∙ k.0)
    go (other h k') ih = rw h (rw h (ih))

pub erase-IsUnique : (u : Uri) (rs : Routes) → IsUnique rs → IsUnique (erase_first u rs)
unfolding erase_first
erase-IsUnique u [] k = tt
erase-IsUnique u ((w, t) ∷ rs) k = go (compared w u) (erase-IsUnique u rs k.1)
  where
    go :
        Compared w u
        → IsUnique (erase_first u rs)
        → IsUnique (if same_uri w u then rs else (w, t) ∷ erase_first u rs)
    go (equal e h) ih = rw h k.1
    go (other h k') ih = rw h (erase-other u w rs k' ∙ k.0, ih)

pub put-IsUnique : (u : Uri) (s : ServletPtr) (rs : Routes) → IsUnique rs → IsUnique (put u s rs)
unfolding put
put-IsUnique u s [] k = (unfold find in refl, tt)
put-IsUnique u s ((w, t) ∷ rs) k = go (compared w u) (put-IsUnique u s rs k.1)
  where
    go :
        Compared w u
        → IsUnique (put u s rs)
        → IsUnique (if same_uri w u then (w, s) ∷ rs else (w, t) ∷ put u s rs)
    go (equal e h) ih = rw h k
    go (other h k') ih = rw h (find-put u w s rs ∙ rw k' k.0, ih)

pub find-append :
    (v u : Uri) (s : ServletPtr) (rs : Routes)
    → find v (rs ++ (u, s) ∷ [])
      ≡ (elim (find v rs) [ some t ↦ some t | none ↦ if same_uri u v then some s else none ])
unfolding find
find-append v u s [] = refl
find-append v u s ((w, t) ∷ rs) = go (same_uri w v) (find-append v u s rs)
  where
    go :
        (b : Bool)
        → find v (rs ++ (u, s) ∷ [])
          ≡ (elim (find v rs) [ some x ↦ some x | none ↦ if same_uri u v then some s else none ])
        → (if b then some t else find v (rs ++ (u, s) ∷ []))
          ≡ (elim (if b then some t else find v rs) [
            | some x ↦ some x
            | none ↦ if same_uri u v then some s else none
          ])
    go true ih = refl
    go false ih = ih

find_rest :
    (w u : Uri) (t : ServletPtr) (rs : Routes)
    → find u ((w, t) ∷ rs) ≡ none
    → (same_uri w u ≡ false) × (find u rs ≡ none)
unfolding find
find_rest w u t rs h = go (same_uri w u) h
  where
    go : (b : Bool) → (if b then some t else find u rs) ≡ none → (b ≡ false) × (find u rs ≡ none)
    go true e = cc
    go false e = (refl, e)

pub append-IsUnique :
    (u : Uri) (s : ServletPtr) (rs : Routes)
    → find u rs ≡ none
    → IsUnique rs
    → IsUnique (rs ++ (u, s) ∷ [])
append-IsUnique u s [] h k = (unfold find in refl, tt)
append-IsUnique u s ((w, t) ∷ rs) h k =
    let (differ, rest) = find_rest w u t rs h in
    (find-append w u s rs ∙ rw (k.0, same_uri_sym w u differ) refl, append-IsUnique u s rs rest k.1)
