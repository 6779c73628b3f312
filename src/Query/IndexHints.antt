-- ===== src/Query/IndexHints.antt =====
-- query_base.go: index hints.
pub mod Balance
use shilohcommunityenterpris.Common.{
  Bool, true, false, List, [], ◌∷◌, ◌++◌, map, Option, none, some, Bytes, codes,
}
use shilohcommunityenterpris.Common.Result.{Result, ok, err, ◌>>=◌}
use shilohcommunityenterpris.Query.Fragment.{
  Appender, Fmter, QueryWithArgs, unsafe_ident, append_query_with_args, each, comma,
}

pub record IndexHints : Type 0 where
  pub names : List QueryWithArgs
  pub for_join : List QueryWithArgs
  pub for_order_by : List QueryWithArgs
  pub for_group_by : List QueryWithArgs

-- `idxHintsQuery`
pub record Hints : Type 0 where
  pub use_hints : Option IndexHints
  pub ignore_hints : Option IndexHints
  pub force_hints : Option IndexHints

abbrev pub no_hints : IndexHints
no_hints = record { names = []; for_join = []; for_order_by = []; for_group_by = [] }

-- `lazyUse`, `lazyIgnore` and `lazyForce`
unfoldable pub lazy : Option IndexHints → IndexHints
lazy none = no_hints
lazy (some h) = h

-- `appendIndexes`
unfoldable pub append_indexes : List QueryWithArgs → List Bytes → List QueryWithArgs
unfolding unsafe_ident
append_indexes hints indexes = hints ++ map unsafe_ident indexes

-- The four kinds of hints, and the three lists that a kind is added to.
pub data HintKind : Type 0 where
  names for_join for_order_by for_group_by : HintKind

pub data HintVerb : Type 0 where
  use_index ignore_index force_index : HintVerb

abbrev pub add_kind : HintKind → List Bytes → IndexHints → IndexHints
add_kind HintKind.names is h = record h { names = append_indexes h.names is }
add_kind HintKind.for_join is h = record h { for_join = append_indexes h.for_join is }
add_kind HintKind.for_order_by is h = record h { for_order_by = append_indexes h.for_order_by is }
add_kind HintKind.for_group_by is h = record h { for_group_by = append_indexes h.for_group_by is }

-- `addUseIndex`, `addIgnoreIndexForJoin`, and the others; nothing for no indexes
unfoldable pub add_index : HintVerb → HintKind → List Bytes → Hints → Hints
unfolding lazy append_indexes
add_index v k [] h = h
add_index use_index k (i ∷ is) h = record h {
  use_hints = some (add_kind k (i ∷ is) (lazy h.use_hints));
}
add_index ignore_index k (i ∷ is) h = record h {
  ignore_hints = some (add_kind k (i ∷ is) (lazy h.ignore_hints));
}
add_index force_index k (i ∷ is) h = record h {
  force_hints = some (add_kind k (i ∷ is) (lazy h.force_hints));
}

-- `bufIndexHint`
unfoldable pub append_index_hint : Fmter → Bytes → List QueryWithArgs → Appender
unfolding each
append_index_hint fm name [] b = ok b
append_index_hint fm name (q ∷ qs) b =
    each comma (append_query_with_args fm) true (q ∷ qs) (b ++ b' ' ∷ (name ++ codes " ("))
    >>= λ b'. ok (b' ++ codes ")")

-- The four hints of one verb.
unfoldable pub append_verb : Fmter → Bytes → Option IndexHints → Appender
unfolding append_index_hint
append_verb fm verb none b = ok b
append_verb fm verb (some h) b = do
  b1 ← append_index_hint fm verb h.names b
  b2 ← append_index_hint fm (verb ++ codes " FOR JOIN") h.for_join b1
  b3 ← append_index_hint fm (verb ++ codes " FOR ORDER BY") h.for_order_by b2
  append_index_hint fm (verb ++ codes " FOR GROUP BY") h.for_group_by b3

-- `appendIndexHints`
unfoldable pub append_index_hints : Fmter → Hints → Appender
unfolding append_verb
append_index_hints fm h b = do
  b1 ← append_verb fm (codes "USE INDEX") h.use_hints b
  b2 ← append_verb fm (codes "IGNORE INDEX") h.ignore_hints b1
  append_verb fm (codes "FORCE INDEX") h.force_hints b2
