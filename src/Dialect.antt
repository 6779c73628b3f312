-- ===== src/Dialect.antt =====
-- dialect/append.go: the SQL words that every dialect writes alike, and quoted identifiers.
pub mod Ident
mod Tests
use shilohcommunityenterpris.Common.{
  ℕ, Bool, true, false, not, ◌&&◌, List, [], ◌∷◌, ◌++◌, ◌==◌, if◌then◌else◌, Bytes, codes,
}

-- A `float64`: NaN, the two infinities, and the finite numbers `F`.
pub data Float (F : Type 0) : Type 0 where
  nan : Float F
  inf : Bool → Float F
  finite : F → Float F

-- `AppendError`; the text is `err.Error()`.
unfoldable pub append_error : Bytes → Bytes → Bytes
append_error b err = b ++ (codes "?!(" ++ (err ++ b')' ∷ []))

unfoldable pub append_null : Bytes → Bytes
append_null b = b ++ codes "NULL"

unfoldable pub append_bool : Bytes → Bool → Bytes
append_bool b v = if v then b ++ codes "TRUE" else b ++ codes "FALSE"

-- `appendFloat`; `print` is `strconv.AppendFloat` at its bit size.
unfoldable pub append_float : {F : Type 0} → (F → Bytes) → Bytes → Float F → Bytes
append_float print b nan = b ++ codes "'NaN'"
append_float print b (inf true) = b ++ codes "'Infinity'"
append_float print b (inf false) = b ++ codes "'-Infinity'"
append_float print b (finite x) = b ++ print x

-- One round of the loop of `appendIdent`: what it appends, and `quoted` behind it.
ident_byte : ℕ → Bool → ℕ → Bytes × Bool
ident_byte quote quoted c =
    if c == b'*' && not quoted
    then (b'*' ∷ [], quoted)
    else if c == b'.'
    then ((if quoted then quote ∷ b'.' ∷ [] else b'.' ∷ []), false)
    else (
      (if quoted then [] else quote ∷ []) ++ (if c == quote then quote ∷ quote ∷ [] else c ∷ []),
      true,
    )

ident_loop : ℕ → Bytes → Bool → Bytes → Bytes
ident_loop quote b quoted [] = if quoted then b ++ quote ∷ [] else b
ident_loop quote b quoted (c ∷ src) =
    let r = ident_byte quote quoted c in ident_loop quote (b ++ r.0) r.1 src

unfoldable pub append_ident : Bytes → Bytes → ℕ → Bytes
unfolding ident_loop ident_byte
append_ident b field quote = ident_loop quote b false field
