-- ===== src/PgDialect/Hstore.antt =====
-- dialect/pgdialect/hstore_parser.go, and the loop of `decodeMapStringString`.
use shilohcommunityenterpris.Common.{
  ℕ, zero, suc, Bool, false, not, ◌||◌, List, [], ◌∷◌, Option, none, some, ltb, ◌==◌, if◌then◌else◌,
  Bytes, bytes_eq, codes, length,
}
use shilohcommunityenterpris.Common.Result.{Result, ok, err, ◌>>=◌}
use shilohcommunityenterpris.PgDialect.Parser.{
  Error, eof, malformed, skip_byte, skip_if, substring_loop, cut_comma,
}

pub record HstoreParser : Type 0 where
  pub unread : Bytes
  pub failure : Option Error

unfoldable pub first_is : ℕ → Bytes → Bool
first_is x [] = false
first_is x (c ∷ s) = c == x

-- `len(b) < 6 || b[0] != '"'` sets the error
unfoldable pub new_hstore_parser : Bytes → HstoreParser
unfolding first_is
new_hstore_parser b = record {
  unread = b;
  failure = if ltb (length b) 6 || not (first_is b'"' b) then some (malformed b) else none;
}

-- `(*hstoreParser).readSubstring`
unfoldable pub hstore_substring : Bytes → Result Error (Bytes × Bytes)
unfolding substring_loop
hstore_substring s = substring_loop false none [] s

abbrev pub cut_or_all : Bytes → Option (Bytes × Bytes) → Bytes × Bytes
cut_or_all s none = (s, [])
cut_or_all s (some r) = r

-- `(*hstoreParser).readSimple`, behind its `unreadByte`
unfoldable pub hstore_simple : Bytes → Bytes × Bytes
unfolding cut_comma
hstore_simple s = cut_or_all s (cut_comma s)

-- `(*hstoreParser).NextKey`: a quoted text and the separator "=>"
unfoldable pub next_key : HstoreParser → Result Error (Bytes × HstoreParser)
unfolding skip_byte hstore_substring
next_key p = elim p.failure [
  | some e ↦ err e
  | none ↦ do
    s ← skip_byte b'"' p.unread
    (key, behind) ← hstore_substring s
    after_eq ← skip_byte b'=' behind
    rest ← skip_byte b'>' after_eq
    ok (key, record p { unread = rest })
]

unfoldable pub value_in : Bytes → Result Error (Bytes × Bytes)
unfolding hstore_simple hstore_substring skip_if
value_in [] = err eof
value_in (c ∷ s) =
    if c == b'"'
    then hstore_substring s >>= (λ r. ok (r.0, skip_if b' ' (skip_if b',' r.1)))
    else (let r = hstore_simple (c ∷ s) in
        ok ((if bytes_eq r.0 (codes "NULL") then [] else r.0), skip_if b',' r.1))

-- `(*hstoreParser).NextValue`; a `nil` value reads as the empty string
unfoldable pub next_value : HstoreParser → Result Error (Bytes × HstoreParser)
unfolding value_in
next_value p = elim p.failure [
  | some e ↦ err e
  | none ↦ value_in p.unread >>= (λ r. ok (r.0, record p { unread = r.1 }))
]

-- `m[key] = value`
unfoldable pub put : Bytes → Bytes → List (Bytes × Bytes) → List (Bytes × Bytes)
put k v [] = (k, v) ∷ []
put k v ((j, w) ∷ m) = if bytes_eq j k then (k, v) ∷ m else (j, w) ∷ put k v m

abbrev pub ended : Error → List (Bytes × Bytes) → Result Error (List (Bytes × Bytes))
ended eof m = ok m
ended e m = err e

-- The loop of `decodeMapStringString`; `none` says that the fuel ran out.
unfoldable pub decode_entries :
    ℕ → HstoreParser → List (Bytes × Bytes) → Option (Result Error (List (Bytes × Bytes)))
decode_entries zero p m = none
decode_entries (suc fuel) p m = elim (next_key p) [
  | err e ↦ some (ended e m)
  | ok (key, q) ↦ elim (next_value q) [
    | err e ↦ some (ended e m)
    | ok (value, r) ↦ decode_entries fuel r (put key value m)
  ]
]

-- `decodeMapStringString` of a text
unfoldable pub decode_map_string_string : Bytes → Option (Result Error (List (Bytes × Bytes)))
unfolding decode_entries new_hstore_parser next_key next_value put
decode_map_string_string b = decode_entries (suc (length b)) (new_hstore_parser b) []
