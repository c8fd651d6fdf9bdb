-- ===== src/Http/Names.antt =====
-- The names of the methods of civan/http/http.cc and the methods, both ways.
use civan.Common.{
  Chars, equal_chars, equal_chars→≡, Bool-cases, ◌≡◌, ◌≢◌, refl, ◌∙◌, ◌⊎◌, inl, inr, List, [], ◌∷◌,
  ◌++◌, true, false, if◌then◌else◌, Bool-cases,
}
use civan.Http.Method.{
  HttpMethod, delete, get, head, post, put, connect, options, trace, copy, lock, mkcol, move,
  propfind, proppatch, search, unlock, bind, rebind, unbind, acl, report, mkactivity, checkout,
  merge, msearch, notify, subscribe, unsubscribe, patch, purge, mkcalendar, link, unlink, source,
  invalid_method, number, method_map, first_method, string_to_http_method, chars_to_http_method,
  http_method_to_string,
}

-- `CharsToHttpMethod` finds every method from its name, whatever characters follow: no name is the
-- start of another.
pub chars_to_http_method-http_method_to_string :
    (m : HttpMethod) (rest : Chars)
    → m ≢ invalid_method
    → chars_to_http_method (http_method_to_string m ++ rest) ≡ m
unfolding chars_to_http_method http_method_to_string first_method method_map number
chars_to_http_method-http_method_to_string delete rest h = refl
chars_to_http_method-http_method_to_string get rest h = refl
chars_to_http_method-http_method_to_string head rest h = refl
chars_to_http_method-http_method_to_string post rest h = refl
chars_to_http_method-http_method_to_string put rest h = refl
chars_to_http_method-http_method_to_string connect rest h = refl
chars_to_http_method-http_method_to_string options rest h = refl
chars_to_http_method-http_method_to_string trace rest h = refl
chars_to_http_method-http_method_to_string copy rest h = refl
chars_to_http_method-http_method_to_string lock rest h = refl
chars_to_http_method-http_method_to_string mkcol rest h = refl
chars_to_http_method-http_method_to_string move rest h = refl
chars_to_http_method-http_method_to_string propfind rest h = refl
chars_to_http_method-http_method_to_string proppatch rest h = refl
chars_to_http_method-http_method_to_string search rest h = refl
chars_to_http_method-http_method_to_string unlock rest h = refl
chars_to_http_method-http_method_to_string bind rest h = refl
chars_to_http_method-http_method_to_string rebind rest h = refl
chars_to_http_method-http_method_to_string unbind rest h = refl
chars_to_http_method-http_method_to_string acl rest h = refl
chars_to_http_method-http_method_to_string report rest h = refl
chars_to_http_method-http_method_to_string mkactivity rest h = refl
chars_to_http_method-http_method_to_string checkout rest h = refl
chars_to_http_method-http_method_to_string merge rest h = refl
chars_to_http_method-http_method_to_string msearch rest h = refl
chars_to_http_method-http_method_to_string notify rest h = refl
chars_to_http_method-http_method_to_string subscribe rest h = refl
chars_to_http_method-http_method_to_string unsubscribe rest h = refl
chars_to_http_method-http_method_to_string patch rest h = refl
chars_to_http_method-http_method_to_string purge rest h = refl
chars_to_http_method-http_method_to_string mkcalendar rest h = refl
chars_to_http_method-http_method_to_string link rest h = refl
chars_to_http_method-http_method_to_string unlink rest h = refl
chars_to_http_method-http_method_to_string source rest h = refl
chars_to_http_method-http_method_to_string invalid_method rest h = absurd (h refl)

string_to_name :
    (m : HttpMethod) → m ≢ invalid_method → string_to_http_method (http_method_to_string m) ≡ m
unfolding string_to_http_method http_method_to_string first_method method_map number
string_to_name delete h = refl
string_to_name get h = refl
string_to_name head h = refl
string_to_name post h = refl
string_to_name put h = refl
string_to_name connect h = refl
string_to_name options h = refl
string_to_name trace h = refl
string_to_name copy h = refl
string_to_name lock h = refl
string_to_name mkcol h = refl
string_to_name move h = refl
string_to_name propfind h = refl
string_to_name proppatch h = refl
string_to_name search h = refl
string_to_name unlock h = refl
string_to_name bind h = refl
string_to_name rebind h = refl
string_to_name unbind h = refl
string_to_name acl h = refl
string_to_name report h = refl
string_to_name mkactivity h = refl
string_to_name checkout h = refl
string_to_name merge h = refl
string_to_name msearch h = refl
string_to_name notify h = refl
string_to_name subscribe h = refl
string_to_name unsubscribe h = refl
string_to_name patch h = refl
string_to_name purge h = refl
string_to_name mkcalendar h = refl
string_to_name link h = refl
string_to_name unlink h = refl
string_to_name source h = refl
string_to_name invalid_method h = absurd (h refl)

-- The entries of a table name their methods.
abbrev AllNamed : List (HttpMethod × Chars) → Type 0
AllNamed [] = Unit {0}
AllNamed ((m, str) ∷ rest) = (http_method_to_string m ≡ str) × AllNamed rest

method_map-AllNamed : AllNamed method_map
unfolding http_method_to_string method_map number
method_map-AllNamed = (
  refl,
  (
    refl,
    (
      refl,
      (
        refl,
        (
          refl,
          (
            refl,
            (
              refl,
              (
                refl,
                (
                  refl,
                  (
                    refl,
                    (
                      refl,
                      (
                        refl,
                        (
                          refl,
                          (
                            refl,
                            (
                              refl,
                              (
                                refl,
                                (
                                  refl,
                                  (
                                    refl,
                                    (
                                      refl,
                                      (
                                        refl,
                                        (
                                          refl,
                                          (
                                            refl,
                                            (
                                              refl,
                                              (
                                                refl,
                                                (
                                                  refl,
                                                  (
                                                    refl,
                                                    (
                                                      refl,
                                                      (
                                                        refl,
                                                        (
                                                          refl,
                                                          (
                                                            refl,
                                                            (refl, (refl, (refl, (refl, tt)))),
                                                          ),
                                                        ),
                                                      ),
                                                    ),
                                                  ),
                                                ),
                                              ),
                                            ),
                                          ),
                                        ),
                                      ),
                                    ),
                                  ),
                                ),
                              ),
                            ),
                          ),
                        ),
                      ),
                    ),
                  ),
                ),
              ),
            ),
          ),
        ),
      ),
    ),
  ),
)

first_method-named :
    (s : Chars) (table : List (HttpMethod × Chars))
    → AllNamed table
    → first_method (λ str. equal_chars str s) table ≢ invalid_method
    → http_method_to_string (first_method (λ str. equal_chars str s) table) ≡ s
unfolding first_method
first_method-named s [] k h = absurd (h refl)
first_method-named s ((m, str) ∷ rest) k h =
    go (Bool-cases (equal_chars str s)) (first_method-named s rest k.1)
  where
    later : HttpMethod
    later = first_method (λ x. equal_chars x s) rest

    go :
        (equal_chars str s ≡ true) ⊎ (equal_chars str s ≡ false)
        → (later ≢ invalid_method → http_method_to_string later ≡ s)
        → http_method_to_string (if equal_chars str s then m else later) ≡ s
    go (inl e) ih = rw e (k.0 ∙ equal_chars→≡ str s e)
    go (inr e) ih = rw e (ih (λ bad. h (rw e bad)))

-- `StringToHttpMethod` and `HttpMethodToString` are inverse: a method is got back from its name, and a
-- string for which there is a method is the name of that method.
pub string_to_http_method-http_method_to_string :
    (m : HttpMethod) (s : Chars)
    → (m ≢ invalid_method → string_to_http_method (http_method_to_string m) ≡ m)
      × (string_to_http_method s ≢ invalid_method
          → http_method_to_string (string_to_http_method s) ≡ s)
unfolding string_to_http_method
string_to_http_method-http_method_to_string m s =
    (string_to_name m, first_method-named s method_map method_map-AllNamed)
