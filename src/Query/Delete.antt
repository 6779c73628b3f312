-- ===== src/Query/Delete.antt =====
-- query_delete.go: the text of a `DELETE`, which is an `UPDATE` where the table has a soft delete.
use shilohcommunityenterpris.Common.{
  Bool, true, false, not, ◌&&◌, [], ◌∷◌, ◌++◌, Option, none, some, if◌then◌else◌, Bytes, codes,
}
use shilohcommunityenterpris.Common.Result.{Result, ok, err, ◌>>=◌}
use shilohcommunityenterpris.Query.Fragment.{
  QueryError, Appender, Feature, delete_table_alias, update_multi_table, Fmter, safe_query,
}
use shilohcommunityenterpris.Query.Base.{
  Field, Table, BaseQuery, soft_field, is_some, where_deleted, append_with, append_first_table,
  has_multi_tables, append_other_tables, formatter_with_model,
}
use shilohcommunityenterpris.Query.Update.{UpdateQuery, append_update, append_returned}
use shilohcommunityenterpris.Query.Values.{Returning}
use shilohcommunityenterpris.Query.Where.{WhereQuery, must_append_where}

pub record DeleteQuery : Type 0 where
  pub wheres : WhereQuery
  pub returning : Returning

-- `ForceDelete`
unfoldable pub force_delete : DeleteQuery → DeleteQuery
force_delete q =
    let w = q.wheres in
    record q {
      wheres = record w {
        base = record w.base { flags = record w.base.flags { force_delete = true } };
      };
    }

-- `DeleteQuery.isSoftDelete`
unfoldable pub deletes_softly : BaseQuery → Bool
deletes_softly q = is_some q.model && is_some (soft_field q.table) && not q.flags.force_delete

abbrev pub soft_set_text : Fmter → (Bytes → Bytes) → Option Table → Option Field → Bytes
soft_set_text fm append_now (some t) (some f) = append_now (
    ((if fm.has_feature update_multi_table then t.sql_alias ++ b'.' ∷ [] else []) ++ f.sql_name)
    ++ codes " = ")
soft_set_text fm append_now t f = []

-- `softDeleteSet`; `append_now` appends the time of the deletion
unfoldable pub soft_delete_set : Fmter → (Bytes → Bytes) → BaseQuery → Bytes
soft_delete_set fm append_now q = soft_set_text fm append_now q.table (soft_field q.table)

-- The `UPDATE` that stands for the deletion.
unfoldable pub soft_update : Fmter → (Bytes → Bytes) → DeleteQuery → UpdateQuery
unfolding safe_query soft_delete_set
soft_update fm append_now q = record {
  wheres = q.wheres;
  returning = q.returning;
  values = record { model_values = []; extra_values = [] };
  set = safe_query (soft_delete_set fm append_now q.wheres.base) none ∷ [];
  hints = record { use_hints = none; ignore_hints = none; force_hints = none };
  omit_zero = false;
}

unfoldable pub append_delete_body : Fmter → (Feature → Bool) → DeleteQuery → Appender
unfolding append_with append_first_table has_multi_tables append_other_tables must_append_where
    append_returned
append_delete_body fm has_db q b = do
  b1 ← append_with fm q.wheres.base.withs b
  b2 ← append_first_table fm (has_db delete_table_alias) q.wheres.base (b1 ++ codes "DELETE FROM ")
  b3 ←
      (if has_multi_tables q.wheres.base
        then append_other_tables fm q.wheres.base (b2 ++ codes " USING ")
        else ok b2)
  b4 ← must_append_where fm (has_db delete_table_alias) q.wheres b3
  append_returned fm has_db q.returning b4

abbrev pub with_base : DeleteQuery → BaseQuery → DeleteQuery
with_base q base = record q { wheres = record q.wheres { base = base } }

unfoldable pub softly :
    Fmter → (Feature → Bool) → (Bytes → Bytes) → Option QueryError → DeleteQuery → Appender
unfolding append_update soft_update
softly fm has_db append_now (some e) q b = err e
softly fm has_db append_now none q b = append_update fm has_db (soft_update fm append_now q) b

unfoldable pub delete_by :
    Bool
    → Fmter
    → (Feature → Bool)
    → (Bytes → Bytes)
    → Option QueryError
    → DeleteQuery
    → Bytes
    → DeleteQuery × Result QueryError Bytes
unfolding softly append_delete_body where_deleted
delete_by true fm has_db append_now updated q b = (q, softly fm has_db append_now updated q b)
delete_by false fm has_db append_now updated q b =
    let q' = with_base q (where_deleted q.wheres.base) in (q', append_delete_body fm has_db q' b)

unfoldable pub delete_unless :
    Option QueryError
    → Fmter
    → (Feature → Bool)
    → (Bytes → Bytes)
    → Option QueryError
    → DeleteQuery
    → Bytes
    → DeleteQuery × Result QueryError Bytes
unfolding delete_by deletes_softly formatter_with_model
delete_unless (some e) fm has_db append_now updated q b = (q, err e)
delete_unless none fm has_db append_now updated q b =
    delete_by (deletes_softly q.wheres.base) (formatter_with_model fm q.wheres.base) has_db
      append_now updated q b

-- `DeleteQuery.AppendQuery`, which changes the query; `updated` is the error of writing the time into
-- the model, and `has_db` are the database's features.
unfoldable pub append_delete :
    Fmter
    → (Feature → Bool)
    → (Bytes → Bytes)
    → Option QueryError
    → DeleteQuery
    → Bytes
    → DeleteQuery × Result QueryError Bytes
unfolding delete_unless formatter_with_model deletes_softly
append_delete fm has_db append_now updated q b =
    delete_unless q.wheres.base.error fm has_db append_now updated q b
