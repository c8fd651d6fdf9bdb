-- ===== src/Servlet/Dispatch.antt =====
-- `ServletDispatch` of civan/http/servlet.cc. The locks make each operation one step. A URI is the
-- list of its characters, and a servlet a number; a null pointer to one is `none`. `fnmatch`, on a
-- pattern and a URI, is a parameter: whether it returns 0.
use civan.Common.{
  ℕ, List, [], ◌∷◌, ◌++◌, Option, none, some, Bool, true, false, ◌&&◌, ◌==◌, if◌then◌else◌,
}

abbrev pub Uri : Type 0
Uri = List ℕ

-- `==` on strings.
abbrev pub same_uri : Uri → Uri → Bool
same_uri [] [] = true
same_uri [] (d ∷ v) = false
same_uri (c ∷ u) [] = false
same_uri (c ∷ u) (d ∷ v) = c == d && same_uri u v

-- A pointer to a servlet.
abbrev pub ServletPtr : Type 0
ServletPtr = Option ℕ

abbrev pub Routes : Type 0
Routes = List (Uri × ServletPtr)

pub record ServletDispatch : Type 0 where
  pub datas : Routes
  pub globs : Routes
  pub default : ServletPtr

-- The constructor, with the pointer to its `NotFoundServlet`.
unfoldable pub new_dispatch : ServletPtr → ServletDispatch
new_dispatch not_found = record { datas = []; globs = []; default = not_found }

unfoldable pub set_default : ServletPtr → ServletDispatch → ServletDispatch
set_default v d = record d { default = v }

-- `find` in the map, and the loops over `m_globs` that look for a URI.
unfoldable pub find : Uri → Routes → Option ServletPtr
find u [] = none
find u ((v, s) ∷ rs) = if same_uri v u then some s else find u rs

-- `m_datas[uri] = slt`: each key stands in the map once.
unfoldable pub put : Uri → ServletPtr → Routes → Routes
put u s [] = (u, s) ∷ []
put u s ((v, t) ∷ rs) = if same_uri v u then (v, s) ∷ rs else (v, t) ∷ put u s rs

-- The loop that erases the first entry of a URI.
unfoldable pub erase_first : Uri → Routes → Routes
erase_first u [] = []
erase_first u ((v, t) ∷ rs) = if same_uri v u then rs else (v, t) ∷ erase_first u rs

-- `addServlet` and `delServlet`. With a callback `slt` is the `FunctionServlet` made of it.
unfoldable pub add_servlet : Uri → ServletPtr → ServletDispatch → ServletDispatch
add_servlet uri slt d = record d { datas = put uri slt d.datas }

unfoldable pub del_servlet : Uri → ServletDispatch → ServletDispatch
del_servlet uri d = record d { datas = erase_first uri d.datas }

-- `addGlobServlet` and `delGlobServlet`.
unfoldable pub add_glob_servlet : Uri → ServletPtr → ServletDispatch → ServletDispatch
add_glob_servlet uri slt d = record d { globs = erase_first uri d.globs ++ (uri, slt) ∷ [] }

unfoldable pub del_glob_servlet : Uri → ServletDispatch → ServletDispatch
del_glob_servlet uri d = record d { globs = erase_first uri d.globs }

abbrev pub or_null : Option ServletPtr → ServletPtr
or_null none = none
or_null (some s) = s

-- `getServlet` and `getGlobServlet`.
unfoldable pub get_servlet : Uri → ServletDispatch → ServletPtr
get_servlet uri d = or_null (find uri d.datas)

unfoldable pub get_glob_servlet : Uri → ServletDispatch → ServletPtr
get_glob_servlet uri d = or_null (find uri d.globs)

module _ (fnmatch : Uri → Uri → Bool) where
  -- The loop of `getMatchedServlet` over `m_globs`.
  unfoldable pub find_glob : Uri → Routes → Option ServletPtr
  find_glob u [] = none
  find_glob u ((v, s) ∷ rs) = if fnmatch v u then some s else find_glob u rs

  unfoldable pub get_matched_servlet : Uri → ServletDispatch → ServletPtr
  get_matched_servlet uri d = elim (find uri d.datas) [
    | some s ↦ s
    | none ↦ (elim (find_glob uri d.globs) [ some s ↦ s | none ↦ d.default ])
  ]

  -- `handle`, for the path of the request: the servlet that it calls, if there is one, and its result.
  unfoldable pub handle : Uri → ServletDispatch → ServletPtr × ℕ
  unfolding get_matched_servlet
  handle path d = (get_matched_servlet path d, 0)
