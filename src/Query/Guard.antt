-- ===== src/Query/Guard.antt =====
-- `UPDATE` and `DELETE` without a `Where`, and a `DELETE` that is written twice.
use shilohcommunityenterpris.Common.{
  Bool, true, false, not, List, [], ◌∷◌, ◌++◌, Option, none, some, if◌then◌else◌, Bytes, codes, ◌≡◌,
  refl, ap, ◌∙◌, arith,
}
use shilohcommunityenterpris.Common.Result.{Result, ok, err, ◌>>=◌}
use shilohcommunityenterpris.Query.Fragment.{
  QueryError, no_soft_delete, update_multi_table, delete_table_alias, Appender, Feature, Fmter,
}
use shilohcommunityenterpris.Query.Base.{
  BaseQuery, is_soft_delete, set_err, can_soft_delete, where_deleted, soft_field,
  formatter_with_model, append_with, append_first_table, has_multi_tables, append_other_tables,
}
use shilohcommunityenterpris.Query.Delete
use shilohcommunityenterpris.Query.Delete.{
  DeleteQuery, deletes_softly, soft_update, delete_by, append_delete_body, append_delete, softly,
  with_base,
}
use shilohcommunityenterpris.Query.IndexHints.{append_index_hints}
use shilohcommunityenterpris.Query.Select.{unless}
use shilohcommunityenterpris.Query.Update.{
  UpdateQuery, append_updated, must_append_set, append_returned, append_from, append_update_body,
  append_update,
}
use shilohcommunityenterpris.Query.Where.{WhereQuery, no_conditions, must_append_where}

-- Whether a builder gave an error.
abbrev pub is_refused : {A : Type 0} → Result QueryError A → Bool
is_refused (ok a) = false
is_refused (err e) = true

bind-refused :
    (r : Result QueryError Bytes) (f : Appender)
    → ((b : Bytes) → is_refused (f b) ≡ true)
    → is_refused (r >>= f) ≡ true
bind-refused (ok b) f h = h b
bind-refused (err e) f h = refl

if-refused :
    (c : Bool) (r s : Result QueryError Bytes)
    → is_refused r ≡ true
    → is_refused s ≡ true
    → is_refused (if c then r else s) ≡ true
if-refused true r s h g = h
if-refused false r s h g = g

must-refused :
    (fm : Fmter) (alias : Bool) (w : WhereQuery) (f : Appender) (b : Bytes)
    → no_conditions w ≡ true
    → is_refused (must_append_where fm alias w b >>= f) ≡ true
unfolding must_append_where
must-refused fm alias w f b h = rw h refl

unless-refused :
    (e : Option QueryError) (r : Result QueryError Bytes)
    → is_refused r ≡ true
    → is_refused (unless e r) ≡ true
unless-refused none r h = h
unless-refused (some e) r h = refl

module _ (fm : Fmter) (has_db : Feature → Bool) where
  pub append_update-refused :
      (q : UpdateQuery) (b : Bytes)
      → no_conditions q.wheres ≡ true
      → is_refused (append_update fm has_db q b) ≡ true
  unfolding append_update append_update_body
  append_update-refused q b h = unless-refused q.wheres.base.error _ (
      bind-refused (append_with (formatter_with_model fm q.wheres.base) q.wheres.base.withs b) _
        (λ b1.
          bind-refused
            (append_updated (formatter_with_model fm q.wheres.base) q.wheres.base
              (b1 ++ codes "UPDATE "))
            _
            (λ b2.
              bind-refused (append_index_hints (formatter_with_model fm q.wheres.base) q.hints b2) _
                (λ b3.
                  bind-refused (must_append_set (formatter_with_model fm q.wheres.base) q b3) _
                    (λ b4.
                      bind-refused
                        (if not
                            ((formatter_with_model fm q.wheres.base).has_feature update_multi_table)
                          then append_from (formatter_with_model fm q.wheres.base) q.wheres.base b4
                          else ok b4)
                        _ (λ b5. must-refused _ _ q.wheres _ b5 h))))))

  body-refused :
      (q : DeleteQuery) (b : Bytes)
      → no_conditions q.wheres ≡ true
      → is_refused (append_delete_body fm has_db q b) ≡ true
  unfolding append_delete_body
  body-refused q b h = bind-refused (append_with fm q.wheres.base.withs b) _ (λ b1.
      bind-refused
        (append_first_table fm (has_db delete_table_alias) q.wheres.base
          (b1 ++ codes "DELETE FROM "))
        _
        (λ b2.
          bind-refused
            (if has_multi_tables q.wheres.base
              then append_other_tables fm q.wheres.base (b2 ++ codes " USING ")
              else ok b2)
            _ (λ b3. must-refused fm _ q.wheres _ b3 h)))

  softly-refused :
      (now : Bytes → Bytes) (updated : Option QueryError) (q : DeleteQuery) (b : Bytes)
      → no_conditions q.wheres ≡ true
      → is_refused (softly fm has_db now updated q b) ≡ true
  unfolding softly soft_update
  softly-refused now (some e) q b h = refl
  softly-refused now none q b h = append_update-refused (soft_update fm now q) b h

module _ (fm : Fmter) (has_db : Feature → Bool) (now : Bytes → Bytes)
    (updated : Option QueryError) where
  delete_by-refused :
      (soft : Bool) (f : Fmter) (q : DeleteQuery) (b : Bytes)
      → no_conditions q.wheres ≡ true
      → is_refused (delete_by soft f has_db now updated q b).1 ≡ true
  unfolding delete_by
  delete_by-refused true f q b h = softly-refused f has_db now updated q b h
  delete_by-refused false f q b h =
      body-refused f has_db (with_base q (where_deleted q.wheres.base)) b h

  delete_unless-refused :
      (e : Option QueryError) (q : DeleteQuery) (b : Bytes)
      → no_conditions q.wheres ≡ true
      → is_refused (Delete.delete_unless e fm has_db now updated q b).1 ≡ true
  unfolding Delete.delete_unless deletes_softly
  delete_unless-refused none q b h =
      delete_by-refused (deletes_softly q.wheres.base) (formatter_with_model fm q.wheres.base) q b h
  delete_unless-refused (some e) q b h = refl

  -- A DELETE without Where and WherePK is an error, whatever else the query holds, also where it is
  -- written as an UPDATE because the table has a soft delete.
  pub append_delete-is_refused :
      (q : DeleteQuery) (b : Bytes)
      → no_conditions q.wheres ≡ true
      → is_refused (append_delete fm has_db now updated q b).1 ≡ true
  unfolding append_delete Delete.delete_unless delete_by
  append_delete-is_refused q b h = delete_unless-refused q.wheres.base.error q b h

  where_deleted-error :
      (q : BaseQuery)
      → q.error ≡ none
      → soft_field q.table ≡ none
      → (where_deleted q).error ≡ some no_soft_delete
  unfolding where_deleted can_soft_delete set_err
  where_deleted-error q h g = rw (g, h) refl

  hard_by :
      (q : DeleteQuery) (b : Bytes)
      → delete_by false (formatter_with_model fm q.wheres.base) has_db now updated q b ≡ (
        with_base q (where_deleted q.wheres.base),
        append_delete_body
            (formatter_with_model fm q.wheres.base)
            has_db
            (with_base q (where_deleted q.wheres.base))
            b,
      )
  unfolding delete_by
  hard_by q b = refl

  hard : (q : BaseQuery) → soft_field q.table ≡ none → deletes_softly q ≡ false
  unfolding deletes_softly
  hard q g = rw g (ground arith)

  hard-state :
      (q : DeleteQuery) (b : Bytes)
      → q.wheres.base.error ≡ none
      → soft_field q.wheres.base.table ≡ none
      → append_delete fm has_db now updated q b ≡ (
        with_base q (where_deleted q.wheres.base),
        append_delete_body
            (formatter_with_model fm q.wheres.base)
            has_db
            (with_base q (where_deleted q.wheres.base))
            b,
      )
  unfolding append_delete Delete.delete_unless
  hard-state q b h g =
      ap (λ e. Delete.delete_unless e fm has_db now updated q b) h
      ∙ ap (λ c. delete_by c (formatter_with_model fm q.wheres.base) has_db now updated q b)
          (hard q.wheres.base g)
      ∙ hard_by q b

  erred :
      (q : DeleteQuery) (b : Bytes) (e : QueryError)
      → q.wheres.base.error ≡ some e
      → (append_delete fm has_db now updated q b).1 ≡ err e
  unfolding append_delete Delete.delete_unless
  erred q b e h = ap (λ x. (Delete.delete_unless x fm has_db now updated q b).1) h

  -- The query with its error, and all else as it was.
  abbrev pub with_error : QueryError → DeleteQuery → DeleteQuery
  with_error e q = with_base q (record q.wheres.base { error = some e })

  where_deleted-hard :
      (q : BaseQuery)
      → q.error ≡ none
      → soft_field q.table ≡ none
      → where_deleted q ≡ record q { error = some no_soft_delete }
  unfolding where_deleted can_soft_delete set_err
  where_deleted-hard q h g = rw (g, h) refl

  -- The error is not one of the things that the text is made of.
  body-error :
      (f : Fmter) (q : DeleteQuery) (e : QueryError) (b : Bytes)
      → append_delete_body f has_db (with_error e q) b ≡ append_delete_body f has_db q b
  unfolding append_delete_body append_with append_first_table has_multi_tables append_other_tables
      must_append_where append_returned is_soft_delete
  body-error f q e b = refl

  -- The query that is left when it has been written behind each of the texts.
  unfoldable pub written : List Bytes → DeleteQuery → DeleteQuery
  written [] q = q
  written (b ∷ bs) q = written bs (append_delete fm has_db now updated q b).0

  error-written :
      (bs : List Bytes) (q : DeleteQuery) (e : QueryError)
      → q.wheres.base.error ≡ some e
      → (written bs q).wheres.base.error ≡ some e
  unfolding written append_delete Delete.delete_unless
  error-written [] q e h = h
  error-written (b ∷ bs) q e h =
      error-written bs (append_delete fm has_db now updated q b).0 e
        (ap (λ x. (Delete.delete_unless x fm has_db now updated q b).0.wheres.base.error) h ∙ h)

  -- A DELETE without an error, from a table that has no soft delete, cannot be written twice: the
  -- first time its text is that of the clauses of the query, in which no error shows, but an error
  -- is left in the query, and every later time that error is all there is.
  pub append_delete-twice :
      (q : DeleteQuery) (b b' : Bytes) (bs : List Bytes)
      → q.wheres.base.error ≡ none
      → soft_field q.wheres.base.table ≡ none
      → ((append_delete fm has_db now updated q b).1
          ≡ append_delete_body (formatter_with_model fm q.wheres.base) has_db q b)
        × ((append_delete fm has_db now updated (written (b ∷ bs) q) b').1 ≡ err no_soft_delete)
  unfolding written
  append_delete-twice q b b' bs h g =
      let e = hard-state q b h g in
      let k = formatter_with_model fm q.wheres.base in
      (
        ap (λ p. p.1) e
            ∙ ap (λ x. append_delete_body k has_db (with_base q x) b)
                (where_deleted-hard q.wheres.base h g)
            ∙ body-error k q no_soft_delete b,
        erred (written (b ∷ bs) q) b' no_soft_delete (
            error-written bs (append_delete fm has_db now updated q b).0 no_soft_delete
              (ap (λ p. p.0.wheres.base.error) e ∙ where_deleted-error q.wheres.base h g)),
      )
