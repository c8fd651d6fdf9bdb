-- ===== src/Servlet/Tests.antt =====
-- Runs of civan/http/servlet.cc.
use civan.Common.{◌≡◌, refl, [], ◌∷◌, none, some, Bool}
use civan.Servlet.Dispatch.{
  Uri, same_uri, ServletDispatch, new_dispatch, add_servlet, add_glob_servlet, del_servlet,
  get_servlet, get_glob_servlet, get_matched_servlet, find, find_glob, erase_first, put,
}
use civan.Servlet.Routes.{IsUnique, get_matched_servlet-add_servlet}
use civan.Servlet.Globs.{
  Reached, started, adds, adds_glob, Reached-IsUnique, get_servlet-del_servlet,
  get_glob_servlet-add_glob_servlet, get_matched_servlet-add_glob_servlet,
}

abbrev home : Uri
home = 47 ∷ []

abbrev star : Uri
star = 47 ∷ 42 ∷ []

abbrev page : Uri
page = 47 ∷ 97 ∷ []

-- A matcher for which `star` matches everything.
abbrev starred : Uri → Uri → Bool
starred pattern uri = same_uri pattern star

abbrev two_routes : ServletDispatch
two_routes = add_glob_servlet star (some 2) (add_servlet home (some 1) (new_dispatch (some 0)))

two_routes-Reached : Reached two_routes
two_routes-Reached = adds_glob star (some 2) _ (adds home (some 1) _ (started (some 0)))

page_is_starred : get_matched_servlet starred page two_routes ≡ some 2
unfolding get_matched_servlet add_glob_servlet add_servlet new_dispatch find find_glob erase_first
    put
page_is_starred = refl

Reached-IsUnique_example : IsUnique two_routes.datas × IsUnique two_routes.globs
Reached-IsUnique_example = Reached-IsUnique two_routes two_routes-Reached

get_matched_servlet-add_servlet_run :
    get_matched_servlet starred page (add_servlet page (some 3) two_routes) ≡ some 3
get_matched_servlet-add_servlet_run =
    get_matched_servlet-add_servlet starred page page (some 3) two_routes

get_servlet-del_servlet_run : get_servlet home (del_servlet home two_routes) ≡ none
get_servlet-del_servlet_run = get_servlet-del_servlet home home two_routes two_routes-Reached

get_glob_servlet-add_glob_servlet_run :
    get_glob_servlet star (add_glob_servlet star (some 5) two_routes) ≡ some 5
get_glob_servlet-add_glob_servlet_run =
    get_glob_servlet-add_glob_servlet star star (some 5) two_routes two_routes-Reached

get_matched_servlet-add_glob_servlet_run :
    get_matched_servlet starred page (add_glob_servlet star (some 5) two_routes) ≡ some 5
unfolding find find_glob erase_first add_glob_servlet add_servlet new_dispatch put
get_matched_servlet-add_glob_servlet_run =
    get_matched_servlet-add_glob_servlet starred star page (some 5) two_routes refl
