-- ===== src/Schema/Tests.antt =====
-- Witnesses and tests for schema/dialect.go and schema/formatter.go.
use shilohcommunityenterpris.Common.{
  [], ◌∷◌, ◌++◌, List, Bytes, false, some, none, ◌≡◌, ◌≢◌, refl, arith, codes,
}
use shilohcommunityenterpris.Common.Hex.{hex_decode}
use shilohcommunityenterpris.Literal.{clean, read_literal}
use shilohcommunityenterpris.Schema.BaseDialect.{append_string, append_bytes, append_json}
use shilohcommunityenterpris.Schema.Formatter.{
  Arg, value, Formatter, append_query, format_query, ends_in_backslash, has_question,
}
use shilohcommunityenterpris.Schema.Literals.{append_string-literal, append_bytes-literal}
use shilohcommunityenterpris.Schema.Placeholders.{append_query-print}
use shilohcommunityenterpris.Schema.Progress.{append_query-ne-none}
use shilohcommunityenterpris.Schema.Template.{
  Template, end, part, escaped, next, word, paren, print, fill, IsTemplate,
}

append_string-literal_example :
    (w : Bytes) × (append_string (codes "a = ") (codes "it's") ≡ codes "a = " ++ w)
    × (read_literal (w ++ codes " OR 1") ≡ some (clean (codes "it's"), codes " OR 1"))
append_string-literal_example =
    append_string-literal (codes "a = ") (codes "it's") (codes " OR 1") (omega arith)

append_bytes-literal_example :
    (w h : Bytes) × (append_bytes [] (some (0 ∷ 255 ∷ [])) ≡ [] ++ w)
    × (read_literal (w ++ codes ")") ≡ some (codes "\\x" ++ h, codes ")"))
    × (hex_decode h ≡ some (0 ∷ 255 ∷ []))
append_bytes-literal_example =
    append_bytes-literal [] (0 ∷ 255 ∷ []) (codes ")") (omega arith) (omega arith)

abbrev json_text : Bytes
json_text = codes "{\"it's\":\"\\u0000\\\"\"}"

json_nul : append_json [] (codes "\"\\u0000'\"") ≡ codes "'\"\\\\u0000''\"'"
unfolding append_json
json_nul = refl

-- A value that is written as the given text.
abbrev printed : Bytes → Arg
printed t = record { body = value (λ b. b ++ t); named = none }

abbrev formatter : Formatter
formatter = record { is_nop = false; args = [] }

abbrev query : Template
query = part (codes "a = ") next (
    part (codes " AND b = ") (word (codes "1"))
      (part (codes " AND c ") escaped (part (codes " x = ") (paren (codes "n")) (end (codes ";")))))

abbrev two_args : List Arg
two_args = printed (codes "'x'") ∷ printed (codes "2") ∷ []

query-IsTemplate : IsTemplate query
unfolding has_question ends_in_backslash print
query-IsTemplate = (
  refl,
  (refl, refl),
  (refl, (refl, cc, (refl, tt), refl), (refl, tt, (refl, (refl, cc, (omega arith)), refl))),
)

append_query-print_example :
    append_query formatter (codes "SQL: ") (print query) (some two_args)
    ≡ some (fill formatter two_args (codes "SQL: ") 0 query)
append_query-print_example =
    append_query-print formatter two_args (codes "SQL: ") query refl query-IsTemplate

append_query-ne-none_example :
    (append_query formatter [] (codes "?(?") (some []) ≢ none)
    × (format_query formatter (codes "?(?") (some []) ≢ none)
append_query-ne-none_example = append_query-ne-none formatter [] (codes "?(?") (some [])

formatted :
    format_query formatter (codes "a = ? AND b = ?1 AND c \\? ?n ?") (some two_args)
    ≡ some (codes "a = 'x' AND b = 2 AND c ? ?n 2")
unfolding format_query
formatted = refl

-- Parentheses with nothing between them are dropped.
empty_parens : format_query formatter (codes "f(?())") (some two_args) ≡ some (codes "f('x')")
unfolding format_query
empty_parens = refl
