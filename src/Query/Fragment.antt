-- ===== src/Query/Fragment.antt =====
-- schema/sqlfmt.go: the pieces of a query, and how a builder writes them one after the other.
use shilohcommunityenterpris.Common.{
  ℕ, Bool, true, false, List, [], ◌∷◌, ◌++◌, Option, none, some, if◌then◌else◌, Bytes, codes,
}
use shilohcommunityenterpris.Common.Result.{Result, ok, err, ◌>>=◌}
use shilohcommunityenterpris.Dialect.{append_ident}
use shilohcommunityenterpris.Schema.Formatter.{Arg, Formatter, append_query}

-- The errors of the builders; `failed` holds the text of an error from elsewhere, and `stuck` says
-- that the formatter ran out of fuel. `nil_table` and `nil_struct` are the panics of reads through a nil
-- `*Table` and a nil struct.
pub data QueryError : Type 0 where
  failed : Bytes → QueryError
  nil_table nil_struct nil_model no_soft_delete no_table no_where no_column no_pks called_twice
        empty_slice no_map_rows unsupported_model not_one_column stuck :
      QueryError

abbrev pub Appender : Type 0
Appender = Bytes → Result QueryError Bytes

-- The features that the builders ask for.
pub data Feature : Type 0 where
  cte with_values output offset_fetch table_cascade identity table_identity table_truncate : Feature
  delete_table_alias update_multi_table insert_table_alias update_table_alias : Feature
  auto_increment generated_identity table_not_exists insert_ignore insert_on_conflict
        insert_on_duplicate_key insert_returning returning :
      Feature
  default_placeholder double_colon_cast values_row select_exists : Feature

-- A formatter with its dialect: the quote of identifiers, the features, and the zero time as
-- `AppendTime` writes it.
pub record Fmter : Type 0 where
  pub formatter : Formatter
  pub ident_quote : ℕ
  pub has_feature : Feature → Bool
  pub append_zero_time : Bytes → Bytes

-- `QueryWithArgs`; `none` is the `nil` slice of an identifier.
pub record QueryWithArgs : Type 0 where
  pub query : Bytes
  pub args : Option (List Arg)

pub record QueryWithSep : Type 0 where
  pub query : QueryWithArgs
  pub sep : Bytes

abbrev pub safe_args : Option (List Arg) → List Arg
safe_args none = []
safe_args (some l) = l

-- `SafeQuery`
unfoldable pub safe_query : Bytes → Option (List Arg) → QueryWithArgs
safe_query q args = record { query = q; args = some (safe_args args) }

-- `UnsafeIdent`
unfoldable pub unsafe_ident : Bytes → QueryWithArgs
unsafe_ident i = record { query = i; args = none }

unfoldable pub safe_query_with_sep : Bytes → Option (List Arg) → Bytes → QueryWithSep
unfolding safe_query
safe_query_with_sep q args sep = record { query = safe_query q args; sep = sep }

abbrev pub is_empty : Bytes → Bool
is_empty [] = true
is_empty (c ∷ s) = false

abbrev pub is_empty_list : {A : Type 0} → List A → Bool
is_empty_list [] = true
is_empty_list (x ∷ xs) = false

-- `IsZero`
unfoldable pub is_zero : QueryWithArgs → Bool
is_zero q = elim q.args [ none ↦ is_empty q.query | some l ↦ false ]

-- The result of the formatter, whose fuel is always enough.
abbrev pub done : Option Bytes → Result QueryError Bytes
done none = err stuck
done (some b) = ok b

abbrev pub append_args : Fmter → Bytes → Option (List Arg) → Appender
append_args fm q none b = ok (append_ident b q fm.ident_quote)
append_args fm q (some l) b = done (append_query fm.formatter b q (some l))

-- `QueryWithArgs.AppendQuery`
unfoldable pub append_query_with_args : Fmter → QueryWithArgs → Appender
append_query_with_args fm q = append_args fm q.query q.args

-- The loop of the builders over a list of pieces: `sep` stands before each but the first.
unfoldable pub each : {A : Type 0} → Bytes → (A → Appender) → Bool → List A → Appender
each sep f first [] b = ok b
each sep f first (x ∷ xs) b = f x (if first then b else b ++ sep) >>= λ b'. each sep f false xs b'

abbrev pub comma : Bytes
comma = codes ", "

-- `appender` between two texts.
abbrev pub within_text : Bytes → Appender → Bytes → Appender
within_text before f after b = f (b ++ before) >>= λ b'. ok (b' ++ after)
