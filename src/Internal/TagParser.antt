-- ===== src/Internal/TagParser.antt =====
-- internal/tagparser/parser.go: the tags of struct fields. A parser is the bytes that it has not
-- read; where the source cuts a text out by its indices, `before` does by what is left.
pub mod Progress
pub mod Options
pub mod RoundTrip
mod Tests
use shilohcommunityenterpris.Common.{
  ℕ, zero, suc, ◌-◌, Bool, true, false, List, [], ◌∷◌, ◌++◌, Option, none, some, ◌==◌,
  if◌then◌else◌, Bytes, bytes_eq, length, take,
}
use shilohcommunityenterpris.Internal.Parser.{cut_at}

abbrev pub Options : Type 0
Options = List (Bytes × List Bytes)

pub record Tag : Type 0 where
  pub name : Bytes
  pub options : Options

abbrev pub State : Type 0
State = Tag × Bool

unfoldable pub find_option : Bytes → Options → Option (List Bytes)
find_option n [] = none
find_option n ((k, vs) ∷ os) = if bytes_eq k n then some vs else find_option n os

unfoldable pub has_option : Bytes → Tag → Bool
unfolding find_option
has_option n t = elim (find_option n t.options) [ none ↦ false | some vs ↦ true ]

abbrev pub last_of : Bytes → List Bytes → Bytes
last_of v [] = v
last_of v (w ∷ vs) = last_of w vs

-- `Option`; a list of values is never empty
unfoldable pub option : Bytes → Tag → Option Bytes
unfolding find_option
option n t = elim (find_option n t.options) [
  | none ↦ none
  | some vs ↦ elim vs [ [] ↦ none | v ∷ ws ↦ some (last_of v ws) ]
]

unfoldable pub add_value : Bytes → Bytes → Options → Options
add_value k v [] = (k, v ∷ []) ∷ []
add_value k v ((n, vs) ∷ os) =
    if bytes_eq n k then (n, vs ++ v ∷ []) ∷ os else (n, vs) ∷ add_value k v os

-- `addOption`
unfoldable pub add_option : Bytes → Bytes → State → State
unfolding add_value
add_option [] v (t, seen) = (t, true)
add_option (c ∷ k) v (t, seen) = (record t { options = add_value (c ∷ k) v t.options }, true)

-- `setName`
unfoldable pub set_name : Bytes → State → State
unfolding add_option
set_name n (t, true) = add_option n [] (t, true)
set_name n (t, false) = (record t { name = n }, true)

-- What has been read of `whole` when `rest` is left.
unfoldable pub before : Bytes → Bytes → Bytes
before whole rest = take (length whole - length rest) whole

-- The loop of `parseQuotedValue`: at the end of the text the value is empty.
unfoldable pub unescape : Bytes → Bytes → Bytes × Bytes
unescape out [] = ([], [])
unescape out (c ∷ []) = if c == b'"' then (out, []) else ([], [])
unescape out (c ∷ d ∷ s) =
    let escaped = unescape (out ++ d ∷ []) s in
    let byte = unescape (out ++ c ∷ []) (d ∷ s) in
    if c == b'\\' then escaped else if c == b'"' then (out, d ∷ s) else byte

-- Whether the byte before the closing quote is a backslash; before the first byte of the value
-- stands the opening quote.
unfoldable pub ends_escaped : ℕ → Bytes → Bool
ends_escaped c [] = c == b'\\'
ends_escaped c (d ∷ s) = ends_escaped d s

unfoldable pub quoted_or : Bytes → Option (Bytes × Bytes) → Bytes × Bytes
unfolding unescape ends_escaped
quoted_or s none = unescape [] s
quoted_or s (some (b, r)) = if ends_escaped b'"' b then unescape [] s else (b, r)

-- `parseQuotedValue`: the value, and what is left
unfoldable pub parse_quoted_value : Bytes → Bytes × Bytes
unfolding quoted_or cut_at
parse_quoted_value s = quoted_or s (cut_at b'"' s)

unfoldable pub close_pair : (ℕ → Bytes → Option Bytes) → ℕ → Bytes → Option Bytes
close_pair rec zero s = some s
close_pair rec (suc lvl) s = rec lvl s

-- The loop of `skipPairs('(', ')')`; `none` says that the fuel ran out.
unfoldable pub skip_pairs : ℕ → ℕ → Bytes → Option Bytes
unfolding close_pair parse_quoted_value
skip_pairs fuel lvl [] = some []
skip_pairs zero lvl (c ∷ s) = none
skip_pairs (suc fuel) lvl (c ∷ s) =
    let quoted = skip_pairs fuel lvl (parse_quoted_value s).1 in
    let deeper = skip_pairs fuel (suc lvl) s in
    let on = skip_pairs fuel lvl s in
    if c == b'"'
    then quoted
    else if c == b'('
    then deeper
    else if c == b')'
    then close_pair (skip_pairs fuel) lvl s
    else on

abbrev pub after_pairs : (Bytes → Option (Bytes × Bytes)) → Option Bytes → Option (Bytes × Bytes)
after_pairs rec none = none
after_pairs rec (some r) = rec r

-- The loop of `parseValue`, which has begun at `whole`.
unfoldable pub value_from : ℕ → Bytes → Bytes → Option (Bytes × Bytes)
unfolding skip_pairs before
value_from fuel whole [] = some (whole, [])
value_from zero whole (c ∷ s) = none
value_from (suc fuel) whole (c ∷ s) =
    let on = value_from fuel whole s in
    if c == b'"'
    then some (parse_quoted_value s)
    else if c == b','
    then some (before whole (c ∷ s), s)
    else if c == b'('
    then after_pairs (value_from fuel whole) (skip_pairs (length s) 0 s)
    else on

unfoldable pub parse_value : Bytes → Option (Bytes × Bytes)
unfolding value_from
parse_value s = value_from (length s) s s

abbrev pub with_value : State → Bytes → Option (Bytes × Bytes) → Option (State × Bytes)
with_value st k none = none
with_value st k (some (v, r)) = some (add_option k v st, r)

-- The loop of `parseKeyValue`, which has begun at `whole`.
unfoldable pub key_from : State → Bytes → Bytes → Option (State × Bytes)
unfolding parse_value set_name before
key_from st whole [] = some (set_name whole st, [])
key_from st whole (c ∷ s) =
    let on = key_from st whole s in
    if c == b','
    then some (set_name (before whole (c ∷ s)) st, s)
    else if c == b':'
    then with_value st (before whole (c ∷ s)) (parse_value s)
    else if c == b'"'
    then some (set_name (parse_quoted_value s).0 st, (parse_quoted_value s).1)
    else on

unfoldable pub skip_comma : Bytes → Bytes
skip_comma [] = []
skip_comma (c ∷ s) = if c == b',' then s else c ∷ s

abbrev pub go_on : (State → Bytes → Option Tag) → Option (State × Bytes) → Option Tag
go_on rec none = none
go_on rec (some (st, r)) = rec st (skip_comma r)

-- The loop of `parse`.
unfoldable pub parse_loop : ℕ → State → Bytes → Option Tag
unfolding key_from skip_comma
parse_loop fuel st [] = some st.0
parse_loop zero st (c ∷ s) = none
parse_loop (suc fuel) st (c ∷ s) = go_on (parse_loop fuel) (key_from st (c ∷ s) (c ∷ s))

abbrev pub start : State
start = (record { name = []; options = [] }, false)

-- `Parse`
unfoldable pub parse : Bytes → Option Tag
unfolding parse_loop
parse s = parse_loop (length s) start s
