-- ===== src/Query/Select/Limit.antt =====
-- query_select.go: the numbers of `LIMIT` and `OFFSET`, which are kept in 32 bits.
use shilohcommunityenterpris.Common.{
  ℕ, ◌-◌, ◌%◌, ◌^◌, Bool, true, false, ◌++◌, if◌then◌else◌, Bytes, codes, ltb, ◌≡◌, refl, ap, ◌∙◌,
}
use shilohcommunityenterpris.Common.Decimal.{ℤ, pos, negsuc, append_uint, append_int}
use shilohcommunityenterpris.Query.Fragment.{Fmter, offset_fetch}
use shilohcommunityenterpris.Query.Select.{SelectQuery, append_limit}

abbrev pub wrapped : ℕ → ℤ
wrapped m = if ltb m (2 ^ 31) then pos m else negsuc (2 ^ 32 - 1 - m)

-- `int32(n)`: the low 32 bits, in two's complement
unfoldable pub to_int32 : ℤ → ℤ
to_int32 (pos n) = wrapped (n % 2 ^ 32)
to_int32 (negsuc n) = wrapped (2 ^ 32 - 1 - n % 2 ^ 32)

-- `Limit` and `Offset`
unfoldable pub set_limit : ℤ → SelectQuery → SelectQuery
unfolding to_int32
set_limit n q = record q { limit = to_int32 n }

unfoldable pub set_offset : ℤ → SelectQuery → SelectQuery
unfolding to_int32
set_offset n q = record q { offset = to_int32 n }

limit_by :
    (fm : Fmter) (c : Bool) (m k : ℕ) (b : Bytes)
    → fm.has_feature offset_fetch ≡ false
    → append_limit fm (if c then pos m else negsuc k) (negsuc 0) b
      ≡ (if c then append_uint (b ++ codes " LIMIT ") m else b)
unfolding append_limit append_int
limit_by fm true m k b h = rw h refl
limit_by fm false m k b h = rw h refl

-- Limit keeps the low 32 bits of a number that is not negative: where they are below 2^31, the text
-- has a LIMIT of that number, and else it has no LIMIT; the query has no OFFSET, and the database has
-- LIMIT.
pub append_limit-set_limit :
    (fm : Fmter) (q : SelectQuery) (n : ℕ) (b : Bytes)
    → fm.has_feature offset_fetch ≡ false
    → q.offset ≡ negsuc 0
    → append_limit fm (set_limit (pos n) q).limit (set_limit (pos n) q).offset b
      ≡ (if ltb (n % 2 ^ 32) (2 ^ 31) then append_uint (b ++ codes " LIMIT ") (n % 2 ^ 32) else b)
unfolding set_limit to_int32
append_limit-set_limit fm q n b h g =
    ap (λ o. append_limit fm (wrapped (n % 2 ^ 32)) o b) g
    ∙ limit_by fm (ltb (n % 2 ^ 32) (2 ^ 31)) (n % 2 ^ 32) (2 ^ 32 - 1 - n % 2 ^ 32) b h
