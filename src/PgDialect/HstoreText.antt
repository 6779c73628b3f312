-- ===== src/PgDialect/HstoreText.antt =====
-- The text of an hstore value, and the literal that `appendMapStringString` writes.
use shilohcommunityenterpris.Common.{
  ℕ, List, [], ◌∷◌, ◌++◌, append_assoc, some, ◌≡◌, refl, ap, Bytes,
}
use shilohcommunityenterpris.Literal.{double, double-append}
use shilohcommunityenterpris.PgDialect.Append.{
  array_append_string, entries, drop_last, append_map_string_string,
}
use shilohcommunityenterpris.PgDialect.ArrayText.{quoted, array_append_string-double}

-- The text of an hstore value, as PostgreSQL documents it: quoted keys and values.
unfoldable pub pair_text : Bytes × Bytes → Bytes
pair_text (k, v) = quoted k ++ (b'=' ∷ b'>' ∷ quoted v)

unfoldable pub hstore_tail : Bytes × Bytes → List (Bytes × Bytes) → Bytes
hstore_tail e [] = pair_text e
hstore_tail e (d ∷ m) = pair_text e ++ b',' ∷ hstore_tail d m

unfoldable pub hstore_text : List (Bytes × Bytes) → Bytes
unfolding hstore_tail pair_text
hstore_text [] = []
hstore_text (e ∷ m) = hstore_tail e m

drop_last-concat : (s : Bytes) (c : ℕ) → drop_last (s ++ c ∷ []) ≡ s
unfolding drop_last
drop_last-concat [] c = refl
drop_last-concat (x ∷ []) c = refl
drop_last-concat (x ∷ y ∷ s) c = ap (◌∷◌ x) (drop_last-concat (y ∷ s) c)

entry-double :
    (b k v : Bytes)
    → array_append_string (array_append_string b k ++ b'=' ∷ b'>' ∷ []) v
      ≡ b ++ double (pair_text (k, v))
unfolding pair_text double
entry-double b k v =
    rw (array_append_string-double, array_append_string-double) (simp (double-append, append_assoc))

entries-hstore_tail :
    (b k v : Bytes) (m : List (Bytes × Bytes))
    → drop_last (entries b ((k, v) ∷ m)) ≡ b ++ double (hstore_tail (k, v) m)
unfolding entries hstore_tail
entries-hstore_tail b k v [] = rw (drop_last-concat, entry-double)
entries-hstore_tail b k v ((j, w) ∷ m) =
    rw
      (
        entries-hstore_tail
            (array_append_string (array_append_string b k ++ b'=' ∷ b'>' ∷ []) v ++ b',' ∷ []) j w
            m,
        entry-double b k v,
      )
      (simp (double-append, append_assoc, double_comma))
  where
    double_comma : (s : Bytes) → double (b',' ∷ s) ≡ b',' ∷ double s
    double_comma s = unfold double in refl

-- `appendMapStringString` writes one string literal, whose text is the hstore value.
pub append_map-literal :
    (b : Bytes) (m : List (Bytes × Bytes))
    → append_map_string_string b (some m) ≡ b ++ b'\'' ∷ (double (hstore_text m) ++ b'\'' ∷ [])
unfolding append_map_string_string hstore_text
append_map-literal b [] = unfold double in rw append_assoc
append_map-literal b ((k, v) ∷ m) =
    rw (entries-hstore_tail (b ++ b'\'' ∷ []) k v m) (simp append_assoc)
