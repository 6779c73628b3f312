-- ===== src/PgDialect/Tests.antt =====
-- Witnesses and tests for dialect/pgdialect.
use shilohcommunityenterpris.Common.{[], ◌∷◌, ◌++◌, Bytes, some, none, ◌≡◌, ◌≢◌, refl, arith, codes}
use shilohcommunityenterpris.Common.Decimal.{pos, negsuc}
use shilohcommunityenterpris.Common.Result.{ok}
use shilohcommunityenterpris.Common.Utf8.{runes, encode_rune, encode_runes}
use shilohcommunityenterpris.Literal.{IsClean, keep, read_literal}
use shilohcommunityenterpris.PgDialect.Append.{
  append_string_slice, append_int_slice, append_map_string_string,
}
use shilohcommunityenterpris.PgDialect.Escape.{has_pair}
use shilohcommunityenterpris.PgDialect.Hstore.{decode_map_string_string}
use shilohcommunityenterpris.PgDialect.HstoreProgress.{decode_map-ne-none}
use shilohcommunityenterpris.PgDialect.HstoreRoundTrip.{map_round_trip}
use shilohcommunityenterpris.PgDialect.Progress.{decode_slices-ne-none}
use shilohcommunityenterpris.PgDialect.RoundTrip.{IsPlain, string_slice_round_trip}
use shilohcommunityenterpris.PgDialect.Scan.{
  text, decode_string_slice, decode_int_slice, decode_int64_slice,
}

abbrev word : Bytes
word = codes "it's \"\\"

-- A letter of two bytes and one of three.
abbrev wide : Bytes
wide = 0xC3 ∷ 0xA9 ∷ 0xE2 ∷ 0x82 ∷ 0xAC ∷ []

word-IsClean : IsClean word
unfolding runes encode_runes encode_rune keep
word-IsClean = record { utf8 = refl; no_nul = refl }

wide-IsClean : IsClean wide
unfolding runes encode_runes encode_rune keep
wide-IsClean = record { utf8 = refl; no_nul = refl }

word-IsPlain : IsPlain word
unfolding runes has_pair
word-IsPlain = record { clean = word-IsClean; apart = refl; not_hex = refl }

wide-IsPlain : IsPlain wide
unfolding runes has_pair
wide-IsPlain = record { clean = wide-IsClean; apart = refl; not_hex = refl }

string_slice_round_trip_example :
    (w t : Bytes) × (append_string_slice (codes "IN ") (some (word ∷ wide ∷ [])) ≡ codes "IN " ++ w)
    × (read_literal (w ++ codes ")") ≡ some (t, codes ")"))
    × (decode_string_slice (text t) ≡ some (ok (some (word ∷ wide ∷ []))))
string_slice_round_trip_example =
    string_slice_round_trip (codes "IN ") (codes ")") (word ∷ wide ∷ []) (omega arith)
      (word-IsPlain, (wide-IsPlain, tt))

map_round_trip_example :
    (w t : Bytes) × (append_map_string_string [] (some ((word, wide) ∷ (wide, word) ∷ [])) ≡ w)
    × (read_literal (w ++ codes ",") ≡ some (t, codes ","))
    × (decode_map_string_string t ≡ some (ok ((word, wide) ∷ (wide, word) ∷ [])))
map_round_trip_example =
    map_round_trip [] (codes ",") ((word, wide) ∷ (wide, word) ∷ []) (omega arith)
      ((word-IsClean, wide-IsClean), ((wide-IsClean, word-IsClean), tt)) ((refl, tt), (tt, tt))

decode_slices-ne-none_example :
    (decode_string_slice (text (codes "{a,\"b")) ≢ none)
    × (decode_int_slice (text (codes "{a,\"b")) ≢ none)
    × (decode_int64_slice (text (codes "{a,\"b")) ≢ none)
decode_slices-ne-none_example = decode_slices-ne-none (text (codes "{a,\"b"))

decode_map-ne-none_example : decode_map_string_string (codes "\"a\"=>") ≢ none
decode_map-ne-none_example = decode_map-ne-none (codes "\"a\"=>")

-- The cases of array_parser_test.go.
array_cases :
    (decode_string_slice (text (codes "{}")) ≡ some (ok (some [])))
    × (decode_string_slice (text (codes "{\"\"}")) ≡ some (ok (some ([] ∷ []))))
    × (decode_string_slice (text (codes "{\"\\\\\"}")) ≡ some (ok (some (codes "\\" ∷ []))))
    × (decode_string_slice (text (codes "{\"''\"}")) ≡ some (ok (some (codes "'" ∷ []))))
    × (decode_string_slice (text (codes "{{\"'\\\"{}\"}}"))
        ≡ some (ok (some (codes "{\"'\\\"{}\"}" ∷ []))))
    × (decode_string_slice (text (codes "{1,NULL}")) ≡ some (ok (some (codes "1" ∷ [] ∷ []))))
unfolding decode_string_slice
array_cases = (refl, refl, refl, refl, refl, refl)

-- The cases of hstore_parser_test.go.
hstore_cases :
    (decode_map_string_string (codes "\"\"=>\"\"") ≡ some (ok (([], []) ∷ [])))
    × (decode_map_string_string (codes "\"1\"=>\"2\", \"3\"=>\"4\"")
        ≡ some (ok ((codes "1", codes "2") ∷ (codes "3", codes "4") ∷ [])))
    × (decode_map_string_string (codes "\"1\"=>NULL") ≡ some (ok ((codes "1", []) ∷ [])))
unfolding decode_map_string_string
hstore_cases = (refl, refl, refl)

int_slices :
    (append_int_slice [] (some (pos 12 ∷ negsuc 2 ∷ [])) ≡ codes "'{12,-3}'")
    × (decode_int_slice (text (codes "{12,-3,NULL}"))
        ≡ some (ok (some (pos 12 ∷ negsuc 2 ∷ pos 0 ∷ []))))
unfolding append_int_slice decode_int_slice
int_slices = (refl, refl)
