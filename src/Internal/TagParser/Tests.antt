-- ===== src/Internal/TagParser/Tests.antt =====
-- Tags of struct fields, parsed.
use shilohcommunityenterpris.Common.{[], ◌∷◌, none, some, codes, ◌≡◌, ◌≢◌, refl, arith}
use shilohcommunityenterpris.Internal.TagParser.{Tag, find_option, parse, option}
use shilohcommunityenterpris.Internal.TagParser.Progress.{parse-ne-none}
use shilohcommunityenterpris.Internal.TagParser.Options.{with_values}
use shilohcommunityenterpris.Internal.TagParser.RoundTrip.{
  Pairs, print_tag, values_of, parse-print_tag,
}

parsed :
    parse (codes "id,pk,type:decimal(10,2),default:\"a,b\"")
    ≡ some (record {
      name = codes "id";
      options =
          (codes "pk", [] ∷ [])
          ∷ (codes "type", codes "decimal(10,2)" ∷ [])
          ∷ (codes "default", codes "a,b" ∷ [])
          ∷ [];
    })
unfolding parse
parsed = refl

abbrev joins : Pairs
joins = (b'j' ∷ [], b'1' ∷ []) ∷ (b'j' ∷ [], []) ∷ []

last_join :
    option
      (b'j' ∷ [])
      (record { name = []; options = (b'j' ∷ [], (b'1' ∷ []) ∷ (b'2' ∷ []) ∷ []) ∷ [] })
    ≡ some (b'2' ∷ [])
unfolding option
last_join = refl

parse-ne-none_example : parse (codes "a:((\"") ≢ none
parse-ne-none_example = parse-ne-none (codes "a:((\"")

parse-print_tag_example :
    (t : Tag) × (parse (print_tag (b'a' ∷ []) joins) ≡ some t)
    × (t.name ≡ b'a' ∷ [])
    × (find_option (b'j' ∷ []) t.options ≡ with_values none (values_of (b'j' ∷ []) joins))
parse-print_tag_example =
    parse-print_tag (b'a' ∷ []) joins (b'j' ∷ [])
      ((omega arith, omega arith, omega arith, omega arith), tt)
      (
        omega arith,
        ((omega arith, omega arith, omega arith, omega arith), tt),
        ((omega arith, omega arith, omega arith, omega arith), tt),
        (omega arith, ((omega arith, omega arith, omega arith, omega arith), tt), tt, tt),
      )
