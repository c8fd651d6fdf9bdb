-- ===== src/Log/Formatter.antt =====
-- `LogFormatter::init` of civan/log.cc: how a pattern is taken apart.
use civan.Common.{
  Chars, codes, equal_chars, ℕ, zero, suc, ◌+◌, List, [], ◌∷◌, ◌++◌, Option, none, some, Bool, true,
  false, not, ◌&&◌, ◌||◌, ◌==◌, leb, if◌then◌else◌, length,
}

-- `isalpha` in the C locale.
unfoldable pub isalpha : ℕ → Bool
isalpha c = (leb b'A' c && leb c b'Z') || (leb b'a' c && leb c b'z')

-- What the inner loop makes of the characters behind a `%`: the three values of `fmt_status` at its
-- end. `plain` has the name, and `braced` the name and the format.
pub data Scanned : Type 0 where
  plain : Chars → Scanned
  unclosed : Scanned
  braced : Chars → Chars → Scanned

-- `fmt_status == 1`: up to the `}`.
unfoldable pub scan_format : Chars → Option Chars
scan_format [] = none
scan_format (c ∷ rest) =
    if c == b'}'
    then some []
    else elim (scan_format rest) [ some fmt ↦ some (c ∷ fmt) | none ↦ none ]

abbrev pub longer : ℕ → Scanned → Scanned
longer c (plain str) = plain (c ∷ str)
longer c unclosed = unclosed
longer c (braced str fmt) = braced (c ∷ str) fmt

abbrev pub with_format : Option Chars → Scanned
with_format none = unclosed
with_format (some fmt) = braced [] fmt

-- `fmt_status == 0`: a name goes on over letters and `}`.
unfoldable pub scan_item : Chars → Scanned
unfolding scan_format isalpha
scan_item [] = plain []
scan_item (c ∷ rest) =
    if not (isalpha c) && not (c == b'{') && not (c == b'}')
    then plain []
    else if c == b'{'
    then with_format (scan_format rest)
    else longer c (scan_item rest)

-- An entry of `vec`: a text, or a name with its format.
pub data Entry : Type 0 where
  text : Chars → Entry
  format : Chars → Chars → Entry

-- `if (!nstr.empty())`.
abbrev pub flush : Chars → List Entry
flush [] = []
flush (c ∷ nstr) = text (c ∷ nstr) ∷ []

-- The entries and `m_error`.
abbrev pub put : List Entry → Bool → List Entry × Bool → List Entry × Bool
put entries error (later, e) = (entries ++ later, error || e)

-- Whether `m_pattern[i + 1]` is there and a `%`.
abbrev pub percent_next : Chars → Bool
percent_next [] = false
percent_next (c ∷ rest) = c == b'%'

-- What is in `nstr`, how many characters to step over and what to put into `vec` for a `%`.
unfoldable pub percent : Chars → Scanned → Chars × ℕ × List Entry × Bool
percent nstr (plain str) = ([], length str, flush nstr ++ format str [] ∷ [], false)
percent nstr unclosed = (nstr, 0, format (codes "<<pattern_error>>") [] ∷ [], true)
percent nstr (braced str fmt) =
    ([], length str + (2 + length fmt), flush nstr ++ format str fmt ∷ [], false)

-- The outer loop, with `skip` characters that `i` has still to step over. After `%%` it goes on at the
-- second `%`.
unfoldable pub init_loop : ℕ → Chars → Chars → List Entry × Bool
unfolding scan_item percent
init_loop skip nstr [] = (flush nstr, false)
init_loop (suc skip) nstr (c ∷ rest) = init_loop skip nstr rest
init_loop zero nstr (c ∷ rest) =
    if not (c == b'%')
    then init_loop 0 (nstr ++ c ∷ []) rest
    else if percent_next rest
    then init_loop 0 (nstr ++ b'%' ∷ []) rest
    else let (nstr', skip, entries, error) = percent nstr (scan_item rest) in
      put entries error (init_loop skip nstr' rest)

-- The items: a text, or the formatter of a letter.
pub data FormatItem : Type 0 where
  string_item : Chars → FormatItem
  letter_item : ℕ → Chars → FormatItem

-- The names in `s_format_items`.
abbrev pub letters : Chars
letters = codes "mprctndflTFN"

unfoldable pub find_letter : Chars → Chars → Option ℕ
find_letter str [] = none
find_letter str (c ∷ rest) = if equal_chars str (c ∷ []) then some c else find_letter str rest

unfoldable pub make_items : List Entry → List FormatItem × Bool
unfolding find_letter
make_items [] = ([], false)
make_items (text str ∷ rest) = let (items, e) = make_items rest in (string_item str ∷ items, e)
make_items (format str fmt ∷ rest) =
    let (items, e) = make_items rest in
    elim (find_letter str letters) [
      | some c ↦ (letter_item c fmt ∷ items, e)
      | none ↦ (string_item (codes "<<error_format %" ++ str ++ codes ">>") ∷ items, true)
    ]

-- `init`: the items, and `m_error`.
unfoldable pub format_items : Chars → List FormatItem × Bool
unfolding init_loop make_items
format_items pattern =
    let (entries, e) = init_loop 0 [] pattern in
    let (items, e') = make_items entries in (items, e || e')
