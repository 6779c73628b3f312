-- ===== src/PgDriver/Tests.antt =====
-- Queries and their arguments as the driver formats them.
use shilohcommunityenterpris.Common.{
  List, [], ◌∷◌, ◌++◌, Option, none, some, Bytes, codes, ◌≡◌, ◌≢◌, refl, arith,
}
use shilohcommunityenterpris.Common.Decimal.{pos, negsuc, atoi, append_int}
use shilohcommunityenterpris.Common.Utf8.{runes}
use shilohcommunityenterpris.Common.Result.{Result, ok, err}
use shilohcommunityenterpris.Literal.{clean, read_literal}
use shilohcommunityenterpris.PgDriver.Format.{
  Arg, int64, string, FormatError, too_few, format_query, append_arg,
}
use shilohcommunityenterpris.PgDriver.Queries.{
  Piece, plain, literal, mark, print_pieces, fill, append_arg-literal, format_query-print_pieces,
}
use shilohcommunityenterpris.PgDriver.Progress.{format_query-ne-none}

abbrev show_unit : Unit {0} → Bytes
show_unit x = []

abbrev two_args : List (Arg (Unit {0}))
two_args = int64 (pos 7) ∷ string (codes "it's") ∷ []

abbrev formatted : Bytes → Option (Result FormatError Bytes)
unfolding format_query
formatted q = format_query show_unit two_args q

two_marks : formatted (codes "f($2, '$1', $1)") ≡ some (ok (codes "f('it''s', '$1', 7)"))
unfolding formatted atoi append_int runes
two_marks = refl

third_arg : formatted (codes "f($3)") ≡ some (err (too_few 2 3))
unfolding formatted atoi
third_arg = refl

-- The literal is taken to end at its doubled apostrophe.
inside_literal : formatted (codes "'a''b $1'") ≡ some (ok (codes "'a''b 7'"))
unfolding formatted atoi append_int
inside_literal = refl

abbrev minus_one : List (Arg (Unit {0}))
minus_one = int64 (negsuc 0) ∷ []

-- Two minus signs begin a comment.
minus_minus : format_query show_unit minus_one (codes "1-$1") ≡ some (ok (codes "1--1"))
unfolding format_query atoi append_int
minus_minus = refl

abbrev pieces : List Piece
pieces = plain b'f' ∷ mark (codes "2") ∷ plain b',' ∷ literal (codes "$1") ∷ mark (codes "1") ∷ []

format_query-print_pieces_example :
    format_query show_unit two_args (print_pieces pieces) ≡ some (fill show_unit two_args [] pieces)
unfolding print_pieces
format_query-print_pieces_example = format_query-print_pieces show_unit two_args pieces refl (
  omega arith,
  omega arith,
  (
    (refl, tt),
    refl,
    (
      omega arith,
      omega arith,
      ((omega arith, (omega arith, tt)), omega arith, ((refl, tt), tt, tt)),
    ),
  ),
)

format_query-ne-none_example : format_query show_unit two_args (codes "'$1 $$2") ≢ none
format_query-ne-none_example = format_query-ne-none show_unit two_args (codes "'$1 $$2")

append_arg-literal_example :
    (w : Bytes) × (append_arg show_unit (codes "f(") (string (codes "it's")) ≡ ok (codes "f(" ++ w))
    × (read_literal (w ++ codes ")") ≡ some (clean (codes "it's"), codes ")"))
append_arg-literal_example =
    append_arg-literal show_unit (codes "f(") (codes "it's") (codes ")") (omega arith)
