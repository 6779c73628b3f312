-- ===== src/Schema/Formatter.antt =====
-- schema/formatter.go: a query's placeholders.
use shilohcommunityenterpris.Common.{
  ℕ, zero, suc, ◌+◌, Bool, true, false, not, ◌&&◌, ◌||◌, List, [], ◌∷◌, ◌++◌, Option, none, some,
  ◌==◌, if◌then◌else◌, Bytes, bytes_eq, length, get_elem?,
}
use shilohcommunityenterpris.Common.Decimal.{atoi}
use shilohcommunityenterpris.Common.Result.{Result, ok, err}
use shilohcommunityenterpris.Dialect.{append_error}
use shilohcommunityenterpris.Internal.Parser.{read_sep, read_identifier}

-- A `NamedArgAppender`: the bytes so far and a name to the bytes behind, and whether it knows the name.
abbrev pub Named : Type 0
Named = Bytes → Bytes → Bytes × Bool

-- An argument of a query: what it appends, as a `QueryAppender` that may fail or as a value that
-- `Append` prints, and what it is as a `NamedArgAppender` or a struct.
pub data Body : Type 0 where
  query_appender : (Bytes → Result Bytes Bytes) → Body
  value : (Bytes → Bytes) → Body

pub record Arg : Type 0 where
  pub body : Body
  pub named : Option Named

-- `IsNop`, and the named arguments added by `WithArg`; `none` is a `nil` argument, which ends the search.
pub record Formatter : Type 0 where
  pub is_nop : Bool
  pub args : List (Option Named)

unfoldable pub appended : Bytes → Result Bytes Bytes → Bytes
appended b (ok bb) = bb
appended b (err e) = append_error b e

unfoldable pub append_body : Bytes → Body → Bytes
append_body b (query_appender q) = appended b (q b)
append_body b (value v) = v b

-- `appendArg`
unfoldable pub append_arg : Bytes → Arg → Bytes
unfolding append_body appended
append_arg b a = append_body b a.body

-- `(*namedArgList).AppendNamedArg`
unfoldable pub append_named_list : List (Option Named) → Bytes → Bytes → Bytes × Bool
append_named_list [] b name = (b, false)
append_named_list (none ∷ l) b name = (b, false)
append_named_list (some arg ∷ l) b name =
    let r = arg b name in if r.1 then (r.0, true) else append_named_list l b name

-- `WithArg` and `WithNamedArg`
unfoldable pub with_arg : Formatter → Option Named → Formatter
with_arg f arg = record f { args = arg ∷ f.args }

-- `(*namedArg).AppendNamedArg`
unfoldable pub named_arg : Bytes → Arg → Named
named_arg key v b name = if bytes_eq key name then (append_arg b v, true) else (b, false)

unfoldable pub with_named_arg : Formatter → Bytes → Arg → Formatter
unfolding with_arg named_arg
with_named_arg f name v = with_arg f (some (named_arg name v))

-- `namedArgs`: the only argument, where it has names
unfoldable pub only_named : List Arg → Option Named
only_named (a ∷ []) = a.named
only_named _ = none

-- The label `restore_arg`.
abbrev pub restore : Bytes → Bytes → Bytes
restore dst name = (dst ++ b'?' ∷ []) ++ name

unfoldable pub nth_or_restore : List Arg → Bytes → Bytes → Option ℕ → Bytes
nth_or_restore args dst name none = restore dst name
nth_or_restore args dst name (some idx) = elim (get_elem? args idx) [
  | none ↦ restore dst name
  | some a ↦ append_arg dst a
]

unfoldable pub try_list : Formatter → Bytes → Bytes → Bytes
try_list f dst name =
    let r = append_named_list f.args dst name in if r.1 then r.0 else restore r.0 name

unfoldable pub try_named : Formatter → Option Named → Bytes → Bytes → Bytes
unfolding try_list
try_named f none dst name = try_list f dst name
try_named f (some n) dst name = let r = n dst name in if r.1 then r.0 else try_list f r.0 name

-- The branch `name != ""`.
unfoldable pub put_name : Formatter → List Arg → Bytes → Bytes → Bool → Bytes
unfolding nth_or_restore try_named
put_name f args dst name numeric =
    if numeric
    then nth_or_restore args dst name (atoi name)
    else try_named f (only_named args) dst name

-- The branch of an argument by position: the output and the next position.
unfoldable pub put_next : List Arg → Bytes → ℕ → Bytes × ℕ
put_next args dst i = elim (get_elem? args i) [
  | none ↦ (dst ++ b'?' ∷ [], i)
  | some a ↦ (append_arg dst a, i + 1)
]

-- Whether `len(b) > 0 && b[len(b)-1] == '\\'`, and `b[:len(b)-1]`.
unfoldable pub ends_in_backslash : Bytes → Bool
ends_in_backslash [] = false
ends_in_backslash (c ∷ []) = c == b'\\'
ends_in_backslash (c ∷ d ∷ s) = ends_in_backslash (d ∷ s)

unfoldable pub all_but_last : Bytes → Bytes
all_but_last [] = []
all_but_last (c ∷ []) = []
all_but_last (c ∷ d ∷ s) = c ∷ all_but_last (d ∷ s)

abbrev pub put_either : Formatter → List Arg → Bytes → ℕ → Bytes → Bool → Bytes × ℕ
put_either f args dst i [] numeric = put_next args dst i
put_either f args dst i (c ∷ name) numeric = (put_name f args dst (c ∷ name) numeric, i)

-- One round of the loop, on what `ReadSep` has read: the bytes, whether a question mark followed,
-- and the rest. `rec` goes on from an output, a position and the bytes left.
unfoldable pub append_round :
    Formatter
    → List Arg
    → (Bytes → ℕ → Bytes → Option Bytes)
    → Bytes
    → ℕ
    → Bytes × Bool × Bytes
    → Option Bytes
append_round f args rec dst i (b, false, r) = rec (dst ++ b) i r
append_round f args rec dst i (b, true, r) =
    if ends_in_backslash b
    then rec ((dst ++ all_but_last b) ++ b'?' ∷ []) i r
    else (let id = read_identifier r in
        let out = put_either f args (dst ++ b) i id.0 id.1 in rec out.0 out.1 id.2)

-- The loop of `append`; `none` says that the fuel ran out.
unfoldable pub append_loop : Formatter → List Arg → ℕ → Bytes → ℕ → Bytes → Option Bytes
unfolding append_round
append_loop f args fuel dst i [] = some dst
append_loop f args zero dst i (c ∷ s) = none
append_loop f args (suc fuel) dst i (c ∷ s) =
    append_round f args (append_loop f args fuel) dst i (read_sep b'?' (c ∷ s))

unfoldable pub has_question : Bytes → Bool
has_question [] = false
has_question (c ∷ s) = c == b'?' || has_question s

unfoldable pub is_none : {A : Type 0} → Option A → Bool
is_none none = true
is_none (some a) = false

unfoldable pub is_nil : {A : Type 0} → List A → Bool
is_nil [] = true
is_nil (x ∷ xs) = false

abbrev pub list_or_nil : Option (List Arg) → List Arg
list_or_nil none = []
list_or_nil (some l) = l

-- `AppendQuery`; `none` for the arguments is a `nil` slice, and the fuel is the query's length
unfoldable pub append_query : Formatter → Bytes → Bytes → Option (List Arg) → Option Bytes
unfolding append_loop has_question is_none is_nil
append_query f dst query args =
    if f.is_nop || (is_none args && is_nil f.args) || not (has_question query)
    then some (dst ++ query)
    else append_loop f (list_or_nil args) (length query) dst 0 query

unfoldable pub format_query : Formatter → Bytes → Option (List Arg) → Option Bytes
unfolding has_question is_none is_nil append_query read_sep read_identifier put_next put_name
    append_arg only_named append_named_list atoi all_but_last ends_in_backslash
format_query f query args =
    if f.is_nop || (is_none args && is_nil f.args) || not (has_question query)
    then some query
    else append_query f [] query args
