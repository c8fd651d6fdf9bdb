-- ===== src/Servlet/Globs.antt =====
-- The servlets for patterns of civan/http/servlet.cc, and removal.
use civan.Common.{
  ◌≡◌, refl, ap, subst, ◌∙◌, [], ◌∷◌, ◌++◌, Option, none, some, Bool, true, false, if◌then◌else◌,
}
use civan.Servlet.Dispatch.{
  Uri, same_uri, ServletPtr, Routes, ServletDispatch, new_dispatch, set_default, find, erase_first,
  add_servlet, del_servlet, add_glob_servlet, del_glob_servlet, or_null, get_servlet,
  get_glob_servlet, find_glob, get_matched_servlet,
}
use civan.Servlet.Routes.{
  IsUnique, Compared, compared, equal, other, erase-other, erase-same, erase-IsUnique, put-IsUnique,
  append-IsUnique, find-append,
}

-- The dispatchers that calls can lead to, in any order.
pub data Reached : ServletDispatch → Type 0 where
  started : (not_found : ServletPtr) → Reached (new_dispatch not_found)
  adds : (u : Uri) (s : ServletPtr) (d : ServletDispatch) → Reached d → Reached (add_servlet u s d)
  deletes : (u : Uri) (d : ServletDispatch) → Reached d → Reached (del_servlet u d)
  adds_glob :
      (u : Uri) (s : ServletPtr) (d : ServletDispatch)
      → Reached d
      → Reached (add_glob_servlet u s d)
  deletes_glob : (u : Uri) (d : ServletDispatch) → Reached d → Reached (del_glob_servlet u d)
  sets_default : (s : ServletPtr) (d : ServletDispatch) → Reached d → Reached (set_default s d)

-- Whatever calls are made, each URI stands at most once in the map, and each pattern at most once in
-- the list of patterns.
pub Reached-IsUnique : (d : ServletDispatch) → Reached d → IsUnique d.datas × IsUnique d.globs
unfolding new_dispatch add_servlet del_servlet add_glob_servlet del_glob_servlet set_default
Reached-IsUnique _ (started not_found) = (tt, tt)
Reached-IsUnique _ (adds u s d r) =
    let k = Reached-IsUnique d r in (put-IsUnique u s d.datas k.0, k.1)
Reached-IsUnique _ (deletes u d r) =
    let k = Reached-IsUnique d r in (erase-IsUnique u d.datas k.0, k.1)
Reached-IsUnique _ (adds_glob u s d r) =
    let k = Reached-IsUnique d r in
    (
      k.0,
      append-IsUnique u s (erase_first u d.globs) (erase-same u d.globs k.1)
          (erase-IsUnique u d.globs k.1),
    )
Reached-IsUnique _ (deletes_glob u d r) =
    let k = Reached-IsUnique d r in (k.0, erase-IsUnique u d.globs k.1)
Reached-IsUnique _ (sets_default s d r) = Reached-IsUnique d r

find-erase_first :
    (u v : Uri) (rs : Routes)
    → IsUnique rs
    → find v (erase_first u rs) ≡ (if same_uri u v then none else find v rs)
find-erase_first u v rs k = go (compared u v)
  where
    go : Compared u v → find v (erase_first u rs) ≡ (if same_uri u v then none else find v rs)
    go (equal e h) = subst (λ w. find w (erase_first u rs) ≡ none) e (erase-same u rs k) ∙ rw h refl
    go (other h k') = erase-other u v rs h ∙ rw h refl

-- In every dispatcher that calls lead to, `delServlet` leaves no servlet for its URI, and those of the
-- others.
pub get_servlet-del_servlet :
    (u v : Uri) (d : ServletDispatch)
    → Reached d
    → get_servlet v (del_servlet u d) ≡ (if same_uri u v then none else get_servlet v d)
unfolding get_servlet del_servlet
get_servlet-del_servlet u v d r =
    ap or_null (find-erase_first u v d.datas (Reached-IsUnique d r).0) ∙ go (same_uri u v)
  where
    go :
        (b : Bool)
        → or_null (if b then none else find v d.datas)
          ≡ (if b then none else or_null (find v d.datas))
    go true = refl
    go false = refl

-- In every dispatcher that calls lead to, `addGlobServlet` sets the servlet of its pattern, and leaves
-- those of the others.
pub get_glob_servlet-add_glob_servlet :
    (u v : Uri) (s : ServletPtr) (d : ServletDispatch)
    → Reached d
    → get_glob_servlet v (add_glob_servlet u s d)
      ≡ (if same_uri u v then s else get_glob_servlet v d)
unfolding get_glob_servlet add_glob_servlet
get_glob_servlet-add_glob_servlet u v s d r =
    ap or_null (find-append v u s (erase_first u d.globs))
    ∙ go (same_uri u v) (find v (erase_first u d.globs))
        (find-erase_first u v d.globs (Reached-IsUnique d r).1)
  where
    go :
        (b : Bool) (o : Option ServletPtr)
        → o ≡ (if b then none else find v d.globs)
        → or_null (elim o [ some t ↦ some t | none ↦ if b then some s else none ])
          ≡ (if b then s else or_null (find v d.globs))
    go true none e = refl
    go true (some t) e = cc
    go false none e = ap or_null e
    go false (some t) e = ap or_null e

module _ (fnmatch : Uri → Uri → Bool) where
  find_glob-append :
      (v u : Uri) (s : ServletPtr) (rs : Routes)
      → find_glob fnmatch v (rs ++ (u, s) ∷ []) ≡ (elim (find_glob fnmatch v rs) [
        | some t ↦ some t
        | none ↦ if fnmatch u v then some s else none
      ])
  unfolding find_glob
  find_glob-append v u s [] = refl
  find_glob-append v u s ((w, t) ∷ rs) = go (fnmatch w v) (find_glob-append v u s rs)
    where
      go :
          (b : Bool)
          → find_glob fnmatch v (rs ++ (u, s) ∷ []) ≡ (elim (find_glob fnmatch v rs) [
            | some x ↦ some x
            | none ↦ if fnmatch u v then some s else none
          ])
          → (if b then some t else find_glob fnmatch v (rs ++ (u, s) ∷ []))
            ≡ (elim (if b then some t else find_glob fnmatch v rs) [
              | some x ↦ some x
              | none ↦ if fnmatch u v then some s else none
            ])
      go true ih = refl
      go false ih = ih

-- Where a URI has no servlet of its own, what it matches after `addGlobServlet`, for any `fnmatch`: an
-- older pattern comes first, then the new one, and then the default.
pub get_matched_servlet-add_glob_servlet :
    (fnmatch : Uri → Uri → Bool) (u v : Uri) (s : ServletPtr) (d : ServletDispatch)
    → find v d.datas ≡ none
    → get_matched_servlet fnmatch v (add_glob_servlet u s d)
      ≡ (elim (find_glob fnmatch v (erase_first u d.globs)) [
        | some t ↦ t
        | none ↦ if fnmatch u v then s else d.default
      ])
unfolding get_matched_servlet add_glob_servlet
get_matched_servlet-add_glob_servlet fnmatch u v s d exact =
    rw (exact, find_glob-append fnmatch v u s (erase_first u d.globs), get_matched_servlet)
      (go (find_glob fnmatch v (erase_first u d.globs)) (fnmatch u v))
  where
    settled : Option ServletPtr → ServletPtr
    settled o = elim o [ some t ↦ t | none ↦ d.default ]

    go :
        (o : Option ServletPtr) (b : Bool)
        → settled (elim o [ some t ↦ some t | none ↦ if b then some s else none ])
          ≡ (elim o [ some t ↦ t | none ↦ if b then s else d.default ])
    go none true = refl
    go none false = refl
    go (some t) b = refl
