-- ===== src/Log/Pattern.antt =====
-- Patterns that are put together from texts and items, read back by `LogFormatter::init` (civan/log.cc).
use civan.Common.{
  Chars, ℕ, ◌+◌, List, [], ◌∷◌, ◌++◌, some, Bool, true, false, not, ◌&&◌, ◌==◌, length, ◌≡◌, ◌≢◌,
  refl, ap, sym, ◌∙◌, append_assoc, append-nil, arith, length-append,
}
use civan.Log.Formatter.{
  isalpha, Scanned, plain, braced, scan_format, scan_item, Entry, text, format, flush, put,
  percent_next, percent, init_loop,
}

abbrev pub AllAlpha : Chars → Type 0
AllAlpha [] = Unit {0}
AllAlpha (c ∷ s) = (isalpha c ≡ true) × AllAlpha s

-- `c` does not stand in the string.
abbrev pub LacksChar : ℕ → Chars → Type 0
LacksChar c [] = Unit {0}
LacksChar c (d ∷ s) = (d == c ≡ false) × LacksChar c s

-- A name ends before the rest.
abbrev pub EndsName : Chars → Type 0
EndsName [] = Unit {0}
EndsName (c ∷ rest) = (not (isalpha c) && not (c == b'{') && not (c == b'}')) ≡ true

alpha_not : (c : ℕ) → isalpha c ≡ true → (c == b'{' ≡ false) × (c == b'%' ≡ false)
unfolding isalpha
alpha_not c h = (ground arith, ground arith)

scan_plain : (str rest : Chars) → AllAlpha str → EndsName rest → scan_item (str ++ rest) ≡ plain str
unfolding scan_item
scan_plain [] [] a e = refl
scan_plain [] (c ∷ rest) a e = rw (scan_item, e) refl
scan_plain (c ∷ str) rest (h, a) e =
    rw (scan_item, h, (alpha_not c h).0, scan_plain str rest a e) refl

scan_format_lem :
    (fmt rest : Chars) → LacksChar b'}' fmt → scan_format (fmt ++ b'}' ∷ rest) ≡ some fmt
unfolding scan_format
scan_format_lem [] rest l = refl
scan_format_lem (c ∷ fmt) rest (h, l) = rw (scan_format, h, scan_format_lem fmt rest l) refl

scan_braced :
    (str fmt rest : Chars)
    → AllAlpha str
    → LacksChar b'}' fmt
    → scan_item (str ++ (b'{' ∷ (fmt ++ (b'}' ∷ rest)))) ≡ braced str fmt
unfolding scan_item isalpha
scan_braced [] fmt rest a l = rw (scan_format_lem fmt rest l) refl
scan_braced (c ∷ str) fmt rest (h, a) l =
    rw (scan_item, h, (alpha_not c h).0, scan_braced str fmt rest a l) refl

init_loop-text :
    (nstr str rest : Chars)
    → LacksChar b'%' str
    → init_loop 0 nstr (str ++ rest) ≡ init_loop 0 (nstr ++ str) rest
unfolding init_loop
init_loop-text nstr [] rest l = rw (append-nil nstr) refl
init_loop-text nstr (c ∷ str) rest (h, l) =
    rw (init_loop, h, init_loop-text (nstr ++ c ∷ []) str rest l, append_assoc nstr (c ∷ []) str)
      refl

init_loop-skip :
    (nstr str rest : Chars) → init_loop (length str) nstr (str ++ rest) ≡ init_loop 0 nstr rest
unfolding init_loop
init_loop-skip nstr [] rest = refl
init_loop-skip nstr (c ∷ str) rest = init_loop-skip nstr str rest

-- A part of a pattern: a text, an item, or an item with a format.
pub data Piece : Type 0 where
  words item : Chars → Piece
  formatted : Chars → Chars → Piece

unfoldable pub print_piece : Piece → Chars
print_piece (words str) = str
print_piece (item str) = b'%' ∷ str
print_piece (formatted str fmt) = b'%' ∷ (str ++ (b'{' ∷ (fmt ++ b'}' ∷ [])))

unfoldable pub print_all : List Piece → Chars
unfolding print_piece
print_all [] = []
print_all (p ∷ ps) = print_piece p ++ print_all ps

unfoldable pub entry_of : Piece → Entry
entry_of (words str) = text str
entry_of (item str) = format str []
entry_of (formatted str fmt) = format str fmt

unfoldable pub entries_of : List Piece → List Entry
unfolding entry_of
entries_of [] = []
entries_of (p ∷ ps) = entry_of p ∷ entries_of ps

abbrev pub begins_words : List Piece → Bool
begins_words [] = false
begins_words (words str ∷ ps) = true
begins_words (item str ∷ ps) = false
begins_words (formatted str fmt ∷ ps) = false

-- Texts are not empty, have no `%` and do not follow each other; names are letters, and that of an item
-- is not empty and ends before what follows; formats have no `}`.
abbrev pub AllGood : List Piece → Type 0
AllGood [] = Unit {0}
AllGood (words str ∷ ps) = (str ≢ []) × LacksChar b'%' str × (begins_words ps ≡ false) × AllGood ps
AllGood (item str ∷ ps) = (str ≢ []) × AllAlpha str × EndsName (print_all ps) × AllGood ps
AllGood (formatted str fmt ∷ ps) = AllAlpha str × LacksChar b'}' fmt × AllGood ps

abbrev is_filled : Chars → Bool
is_filled [] = false
is_filled (c ∷ s) = true

flush_filled : (s : Chars) → s ≢ [] → flush s ≡ text s ∷ []
flush_filled [] h = absurd (h refl)
flush_filled (c ∷ s) h = refl

percent_name : (str rest : Chars) → str ≢ [] → AllAlpha str → percent_next (str ++ rest) ≡ false
percent_name [] rest h a = absurd (h refl)
percent_name (c ∷ str) rest h (k, a) = (alpha_not c k).1

percent_braced : (str rest : Chars) → AllAlpha str → percent_next (str ++ b'{' ∷ rest) ≡ false
percent_braced [] rest a = refl
percent_braced (c ∷ str) rest (k, a) = (alpha_not c k).1

abbrev braces : Chars → Chars → Chars
braces str fmt = str ++ (b'{' ∷ (fmt ++ b'}' ∷ []))

braces_append :
    (str fmt rest : Chars) → braces str fmt ++ rest ≡ str ++ (b'{' ∷ (fmt ++ (b'}' ∷ rest)))
braces_append str fmt rest =
    append_assoc str (b'{' ∷ (fmt ++ b'}' ∷ [])) rest
    ∙ ap (λ t. str ++ (b'{' ∷ t)) (append_assoc fmt (b'}' ∷ []) rest)

length-braces : (str fmt : Chars) → length (braces str fmt) ≡ length str + (2 + length fmt)
length-braces str fmt =
    omega (arith, length-append str (b'{' ∷ (fmt ++ b'}' ∷ [])), length-append fmt (b'}' ∷ []))

-- One step of the loop at a `%`.
init_loop-percent :
    (nstr rest : Chars) (found : Scanned)
    → percent_next rest ≡ false
    → scan_item rest ≡ found
    → init_loop 0 nstr (b'%' ∷ rest)
      ≡ put
          (percent nstr found).2
          (percent nstr found).3
          (init_loop (percent nstr found).1 (percent nstr found).0 rest)
unfolding init_loop
init_loop-percent nstr rest found h k = rw (init_loop, h, k) refl

none_filled : (b : Bool) → (b && false) ≡ false
none_filled true = refl
none_filled false = refl

parse_pieces :
    (nstr : Chars) (ps : List Piece)
    → AllGood ps
    → (begins_words ps && is_filled nstr) ≡ false
    → init_loop 0 nstr (print_all ps) ≡ (flush nstr ++ entries_of ps, false)
unfolding init_loop print_all entries_of percent
parse_pieces nstr [] g h = ap (λ x. (x, false)) (sym (append-nil (flush nstr)))
parse_pieces [] (words str ∷ ps) (f, l, b, g) h =
    init_loop-text [] str (print_all ps) l
    ∙ parse_pieces str ps g (rw b refl)
    ∙ rw (flush_filled str f) refl
parse_pieces (c ∷ nstr) (words str ∷ ps) (f, l, b, g) h = absurd cc
parse_pieces nstr (item str ∷ ps) (f, a, e, g) h =
    init_loop-percent nstr (str ++ print_all ps) (plain str) (percent_name str (print_all ps) f a)
      (scan_plain str (print_all ps) a e)
    ∙ rw
        (
          init_loop-skip [] str (print_all ps),
          parse_pieces [] ps g (none_filled (begins_words ps)),
          append_assoc (flush nstr) (format str [] ∷ []) (entries_of ps),
        )
        refl
parse_pieces nstr (formatted str fmt ∷ ps) (a, l, g) h =
    init_loop-percent nstr (braces str fmt ++ print_all ps) (braced str fmt)
      (rw (braces_append str fmt (print_all ps))
        (percent_braced str (fmt ++ (b'}' ∷ print_all ps)) a))
      (rw (braces_append str fmt (print_all ps)) (scan_braced str fmt (print_all ps) a l))
    ∙ rw
        (
          sym (length-braces str fmt),
          init_loop-skip [] (braces str fmt) (print_all ps),
          parse_pieces [] ps g (none_filled (begins_words ps)),
          append_assoc (flush nstr) (format str fmt ∷ []) (entries_of ps),
        )
        refl

-- A pattern that is put together from texts and items, as `AllGood` says, is taken apart into them in
-- order, with no error.
pub init_loop-print_all :
    (ps : List Piece) → AllGood ps → init_loop 0 [] (print_all ps) ≡ (entries_of ps, false)
init_loop-print_all ps g = parse_pieces [] ps g (none_filled (begins_words ps))
