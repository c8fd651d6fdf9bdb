-- ===== src/Log/Tests.antt =====
-- Runs of `LogFormatter::init` (civan/log.cc).
use civan.Common.{codes, List, [], ◌∷◌, true, false, ◌≡◌, refl}
use civan.Log.Pattern.{words, item, formatted, print_all, entries_of, init_loop-print_all, Piece}
use civan.Log.Formatter.{init_loop, isalpha, format_items, string_item, letter_item}

format_items_run : format_items (codes "%d{%Y}%T[%p]%x") ≡ (
  letter_item b'd' (codes "%Y")
      ∷ letter_item b'T' []
      ∷ string_item (codes "[")
      ∷ letter_item b'p' []
      ∷ string_item (codes "]")
      ∷ string_item (codes "<<error_format %x>>")
      ∷ [],
  true,
)
unfolding format_items
format_items_run = refl

-- The second `%` of `%%` begins an item all the same.
double_percent_run :
    format_items (codes "%%m") ≡ (string_item (codes "%") ∷ letter_item b'm' [] ∷ [], false)
unfolding format_items
double_percent_run = refl

abbrev three_pieces : List Piece
three_pieces = formatted (codes "d") (codes "%Y") ∷ words (codes "[") ∷ item (codes "p") ∷ []

init_loop-print_all_example :
    init_loop 0 [] (print_all three_pieces) ≡ (entries_of three_pieces, false)
unfolding isalpha print_all
init_loop-print_all_example =
    init_loop-print_all three_pieces (
      (refl, tt),
      (refl, (refl, tt)),
      ((λ e. cc), (refl, tt), refl, ((λ e. cc), (refl, tt), tt, tt)),
    )
