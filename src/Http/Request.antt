-- ===== src/Http/Request.antt =====
-- `HttpRequest` of civan/http/http.h and civan/http/http.cc. The operations that parse first give the
-- request that they leave.
use civan.Common.{
  Chars, codes, ℕ, [], ◌∷◌, Option, none, some, Bool, true, false, not, if◌then◌else◌,
}
use civan.Common.SortedMap.{find, assign, erase}
use civan.Util.Trim.{trim, blanks}
use civan.Http.Method.{HttpMethod, get}
use civan.Http.CaseInsensitive.{case_insensitive_less, strcasecmp, strcasestr, c_str, is_eq}
use civan.Http.Params.{MapType, parse_param}

-- The bits 0x1, 0x2 and 0x4 of `m_parserParamFlag`.
pub record ParserParamFlag : Type 0 where
  pub query : Bool
  pub body : Bool
  pub cookies : Bool

pub record HttpRequest : Type 0 where
  pub method : HttpMethod
  pub version : ℕ
  pub close : Bool
  pub websocket : Bool
  pub parser_param_flag : ParserParamFlag
  pub path : Chars
  pub query : Chars
  pub fragment : Chars
  pub body : Chars
  pub headers : MapType
  pub params : MapType
  pub cookies : MapType

unfoldable pub new_request : ℕ → Bool → HttpRequest
new_request version close = record {
  method = get;
  version = version;
  close = close;
  websocket = false;
  parser_param_flag = record { query = false; body = false; cookies = false };
  path = codes "/";
  query = [];
  fragment = [];
  body = [];
  headers = [];
  params = [];
  cookies = [];
}

-- `it == m.end() ? def : it->second` after `find`.
abbrev pub value_or : Option Chars → Chars → Chars
value_or none def = def
value_or (some val) def = val

abbrev pub find_case : Chars → MapType → Option Chars
find_case = find case_insensitive_less

unfoldable pub get_header : Chars → Chars → HttpRequest → Chars
get_header key def r = value_or (find_case key r.headers) def

-- `strcasecmp(a.c_str(), b.c_str()) == 0`.
unfoldable pub same_case : Chars → Chars → Bool
unfolding c_str strcasecmp is_eq
same_case a b = is_eq (strcasecmp (c_str a) (c_str b))

unfoldable pub init : HttpRequest → HttpRequest
unfolding get_header same_case
init r = elim (get_header (codes "connection") [] r) [
  | [] ↦ r
  | c ∷ conn ↦ record r { close = not (same_case (c ∷ conn) (codes "keep-alive")) }
]

unfoldable pub init_query_param : HttpRequest → HttpRequest
unfolding parse_param
init_query_param r = if r.parser_param_flag.query then r else record r {
  params = parse_param (λ key. key) b'&' r.query r.params;
  parser_param_flag = record r.parser_param_flag { query = true };
}

-- The test of `initBodyParam` for a form.
unfoldable pub is_form : HttpRequest → Bool
unfolding get_header strcasestr c_str
is_form r =
    strcasestr (c_str (get_header (codes "content-type") [] r))
      (codes "application/x-www-form-urlencoded")

unfoldable pub init_body_param : HttpRequest → HttpRequest
unfolding parse_param is_form
init_body_param r = if r.parser_param_flag.body then r else record r {
  params = if is_form r then parse_param (λ key. key) b'&' r.body r.params else r.params;
  parser_param_flag = record r.parser_param_flag { body = true };
}

-- An empty cookie has no `=`, but the code returns before it is parsed.
unfoldable pub init_cookies : HttpRequest → HttpRequest
unfolding parse_param get_header trim
init_cookies r = if r.parser_param_flag.cookies then r else record r {
  cookies = elim (get_header (codes "cookie") [] r) [
    | [] ↦ r.cookies
    | c ∷ cookie ↦ parse_param (λ key. trim key blanks) b';' (c ∷ cookie) r.cookies
  ];
  parser_param_flag = record r.parser_param_flag { cookies = true };
}

unfoldable pub init_param : HttpRequest → HttpRequest
unfolding init_query_param init_body_param init_cookies
init_param r = init_cookies (init_body_param (init_query_param r))

unfoldable pub get_param : Chars → Chars → HttpRequest → Chars × HttpRequest
unfolding init_query_param init_body_param
get_param key def r =
    let r' = init_body_param (init_query_param r) in (value_or (find_case key r'.params) def, r')

unfoldable pub get_cookie : Chars → Chars → HttpRequest → Chars × HttpRequest
unfolding init_cookies
get_cookie key def r = let r' = init_cookies r in (value_or (find_case key r'.cookies) def, r')

unfoldable pub set_header : Chars → Chars → HttpRequest → HttpRequest
set_header key val r = record r { headers = assign case_insensitive_less key val r.headers }

unfoldable pub set_param : Chars → Chars → HttpRequest → HttpRequest
set_param key val r = record r { params = assign case_insensitive_less key val r.params }

unfoldable pub set_cookie : Chars → Chars → HttpRequest → HttpRequest
set_cookie key val r = record r { cookies = assign case_insensitive_less key val r.cookies }

unfoldable pub del_header : Chars → HttpRequest → HttpRequest
del_header key r = record r { headers = erase case_insensitive_less key r.headers }

unfoldable pub del_param : Chars → HttpRequest → HttpRequest
del_param key r = record r { params = erase case_insensitive_less key r.params }

unfoldable pub del_cookie : Chars → HttpRequest → HttpRequest
del_cookie key r = record r { cookies = erase case_insensitive_less key r.cookies }

-- The answer, and what `*val` holds after the call.
unfoldable pub has_in : MapType → Chars → Chars → Bool × Chars
has_in m key val = elim (find_case key m) [ none ↦ (false, val) | some found ↦ (true, found) ]

unfoldable pub has_header : Chars → Chars → HttpRequest → Bool × Chars
unfolding has_in
has_header key val r = has_in r.headers key val

unfoldable pub has_param : Chars → Chars → HttpRequest → (Bool × Chars) × HttpRequest
unfolding has_in init_query_param init_body_param
has_param key val r =
    let r' = init_body_param (init_query_param r) in (has_in r'.params key val, r')

unfoldable pub has_cookie : Chars → Chars → HttpRequest → (Bool × Chars) × HttpRequest
unfolding has_in init_cookies
has_cookie key val r = let r' = init_cookies r in (has_in r'.cookies key val, r')

-- `boost::lexical_cast` is the parameter `cast`; it is `none` where that throws.
module _ {ℓ} {T : Type ℓ} (cast : Chars → Option T) where
  unfoldable pub check_get_as : MapType → Chars → T → Bool × T
  check_get_as m key def = elim (find_case key m) [
    | none ↦ (false, def)
    | some val ↦ elim (cast val) [ some t ↦ (true, t) | none ↦ (false, def) ]
  ]

  unfoldable pub get_as : MapType → Chars → T → T
  get_as m key def = elim (find_case key m) [
    | none ↦ def
    | some val ↦ elim (cast val) [ some t ↦ t | none ↦ def ]
  ]
