-- ===== src/Http/Order.antt =====
-- The maps of an `HttpRequest` (civan/http/http.cc) stay in the order of `CaseInsensitiveLess`, whatever
-- is called.
use civan.Common.{Chars, codes, ℕ, List, [], ◌∷◌, Bool, true, if_both, not, sym, subst, none}
use civan.Common.SortedMap.{Sorted, assign-Sorted, insert-Sorted, erase-Sorted}
use civan.Util.Url.{url_decode}
use civan.Util.Trim.{trim, blanks}
use civan.Http.CaseInsensitive.{case_insensitive_less}
use civan.Http.Params.{MapType, parse_param}
use civan.Http.Scan.{insert_all, scan, parse_param-scan}
use civan.Http.Request.{
  HttpRequest, new_request, set_header, set_param, set_cookie, del_header, del_param, del_cookie,
  init, init_query_param, init_body_param, init_cookies, get_header, same_case, is_form,
}
use civan.Http.Lookup.{order}

abbrev pub InOrder : MapType → Type 0
InOrder = Sorted case_insensitive_less

pub record IsOrdered (r : HttpRequest) : Type 0 where
  pub headers_order : InOrder r.headers
  pub params_order : InOrder r.params
  pub cookies_order : InOrder r.cookies

-- The operations that change a request. The getters and `has` do the same as the `init` that they
-- begin with; the setters of single fields change none of the maps (`set_query` stands for them).
pub data Step : HttpRequest → HttpRequest → Type 0 where
  header_set : (k v : Chars) (r : HttpRequest) → Step r (set_header k v r)
  param_set : (k v : Chars) (r : HttpRequest) → Step r (set_param k v r)
  cookie_set : (k v : Chars) (r : HttpRequest) → Step r (set_cookie k v r)
  header_deleted : (k : Chars) (r : HttpRequest) → Step r (del_header k r)
  param_deleted : (k : Chars) (r : HttpRequest) → Step r (del_param k r)
  cookie_deleted : (k : Chars) (r : HttpRequest) → Step r (del_cookie k r)
  initialized : (r : HttpRequest) → Step r (init r)
  query_parsed : (r : HttpRequest) → Step r (init_query_param r)
  body_parsed : (r : HttpRequest) → Step r (init_body_param r)
  cookies_parsed : (r : HttpRequest) → Step r (init_cookies r)
  query_set : (query : Chars) (r : HttpRequest) → Step r (record r { query = query })
  body_set : (body : Chars) (r : HttpRequest) → Step r (record r { body = body })

pub data Reached : HttpRequest → Type 0 where
  made : (version : ℕ) (close : Bool) → Reached (new_request version close)
  called : (r r' : HttpRequest) → Reached r → Step r r' → Reached r'

insert_all-InOrder :
    (trim : Chars → Chars) (ps : List (Chars × Chars)) (m : MapType)
    → InOrder m
    → InOrder (insert_all trim ps m)
unfolding insert_all
insert_all-InOrder trim [] m s = s
insert_all-InOrder trim ((k, v) ∷ ps) m s =
    insert_all-InOrder trim ps _
      (insert-Sorted case_insensitive_less order (trim k) (url_decode v true) m s)

parse_param-InOrder :
    (trim : Chars → Chars) (flag : ℕ) (str : Chars) (m : MapType)
    → InOrder m
    → InOrder (parse_param trim flag str m)
parse_param-InOrder trim flag str m s =
    subst InOrder (sym (parse_param-scan trim flag str m))
      (insert_all-InOrder trim (scan flag none [] str) m s)

init-IsOrdered : (r : HttpRequest) → IsOrdered r → IsOrdered (init r)
unfolding init
init-IsOrdered r o =
    elim (get_header (codes "connection") [] r)
      as (λ conn. IsOrdered (elim conn as (λ x. HttpRequest) [
        | [] ↦ r
        | c ∷ rest ↦ record r { close = not (same_case (c ∷ rest) (codes "keep-alive")) }
      ])) [
        | [] ↦ o
        | c ∷ rest ↦ record {
          headers_order = o.headers_order;
          params_order = o.params_order;
          cookies_order = o.cookies_order;
        }
      ]

init_query_param-IsOrdered : (r : HttpRequest) → IsOrdered r → IsOrdered (init_query_param r)
unfolding init_query_param
init_query_param-IsOrdered r o = if_both IsOrdered r.parser_param_flag.query r _ o record {
  headers_order = o.headers_order;
  params_order = parse_param-InOrder (λ key. key) b'&' r.query r.params o.params_order;
  cookies_order = o.cookies_order;
}

init_body_param-IsOrdered : (r : HttpRequest) → IsOrdered r → IsOrdered (init_body_param r)
unfolding init_body_param
init_body_param-IsOrdered r o = if_both IsOrdered r.parser_param_flag.body r _ o record {
  headers_order = o.headers_order;
  params_order =
      if_both InOrder (is_form r) (parse_param (λ key. key) b'&' r.body r.params) r.params
        (parse_param-InOrder (λ key. key) b'&' r.body r.params o.params_order) o.params_order;
  cookies_order = o.cookies_order;
}

init_cookies-IsOrdered : (r : HttpRequest) → IsOrdered r → IsOrdered (init_cookies r)
unfolding init_cookies
init_cookies-IsOrdered r o = if_both IsOrdered r.parser_param_flag.cookies r _ o record {
  headers_order = o.headers_order;
  params_order = o.params_order;
  cookies_order =
      elim (get_header (codes "cookie") [] r)
        as (λ cookie. InOrder (elim cookie as (λ x. MapType) [
          | [] ↦ r.cookies
          | c ∷ rest ↦ parse_param (λ key. trim key blanks) b';' (c ∷ rest) r.cookies
        ])) [
          | [] ↦ o.cookies_order
          | c ∷ rest ↦
              parse_param-InOrder (λ key. trim key blanks) b';' (c ∷ rest) r.cookies o.cookies_order
        ];
}

Step-IsOrdered : (r r' : HttpRequest) → Step r r' → IsOrdered r → IsOrdered r'
unfolding set_header set_param set_cookie del_header del_param del_cookie
Step-IsOrdered _ _ (header_set k v r) o = record {
  headers_order = assign-Sorted case_insensitive_less order k v r.headers o.headers_order;
  params_order = o.params_order;
  cookies_order = o.cookies_order;
}
Step-IsOrdered _ _ (param_set k v r) o = record {
  headers_order = o.headers_order;
  params_order = assign-Sorted case_insensitive_less order k v r.params o.params_order;
  cookies_order = o.cookies_order;
}
Step-IsOrdered _ _ (cookie_set k v r) o = record {
  headers_order = o.headers_order;
  params_order = o.params_order;
  cookies_order = assign-Sorted case_insensitive_less order k v r.cookies o.cookies_order;
}
Step-IsOrdered _ _ (header_deleted k r) o = record {
  headers_order = erase-Sorted case_insensitive_less order k r.headers o.headers_order;
  params_order = o.params_order;
  cookies_order = o.cookies_order;
}
Step-IsOrdered _ _ (param_deleted k r) o = record {
  headers_order = o.headers_order;
  params_order = erase-Sorted case_insensitive_less order k r.params o.params_order;
  cookies_order = o.cookies_order;
}
Step-IsOrdered _ _ (cookie_deleted k r) o = record {
  headers_order = o.headers_order;
  params_order = o.params_order;
  cookies_order = erase-Sorted case_insensitive_less order k r.cookies o.cookies_order;
}
Step-IsOrdered _ _ (initialized r) o = init-IsOrdered r o
Step-IsOrdered _ _ (query_parsed r) o = init_query_param-IsOrdered r o
Step-IsOrdered _ _ (body_parsed r) o = init_body_param-IsOrdered r o
Step-IsOrdered _ _ (cookies_parsed r) o = init_cookies-IsOrdered r o
Step-IsOrdered _ _ (query_set query r) o = record {
  headers_order = o.headers_order;
  params_order = o.params_order;
  cookies_order = o.cookies_order;
}
Step-IsOrdered _ _ (body_set body r) o = record {
  headers_order = o.headers_order;
  params_order = o.params_order;
  cookies_order = o.cookies_order;
}

-- Whatever is called: the headers, the parameters and the cookies of every request that the calls lead
-- to are in order, each key once in whatever spelling.
pub Reached-IsOrdered : (r : HttpRequest) → Reached r → IsOrdered r
unfolding new_request
Reached-IsOrdered _ (made version close) = record {
  headers_order = tt;
  params_order = tt;
  cookies_order = tt;
}
Reached-IsOrdered _ (called r r' reached step) =
    Step-IsOrdered r r' step (Reached-IsOrdered r reached)
