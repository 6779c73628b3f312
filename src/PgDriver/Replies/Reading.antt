-- ===== src/PgDriver/Replies/Reading.antt =====
-- What the loops make of the replies of a server.
use shilohcommunityenterpris.Common.{
  ℕ, ◌+◌, ◌^◌, ◌<◌, true, false, List, [], ◌∷◌, ◌++◌, some, ◌==◌, Bytes, length, All, ◌≡◌,
}
use shilohcommunityenterpris.Common.Decimal.{pos, is_num, value}
use shilohcommunityenterpris.PgDriver.Wire.Framing.{message}
use shilohcommunityenterpris.PgDriver.Replies.{Fields, server, empty_query, or_first, Outcome, Kind}
use shilohcommunityenterpris.PgDriver.Replies.Tags.{tag_text, rows, NoSpace, IsDigits}

abbrev pub fields_text : Fields → Bytes
fields_text [] = 0 ∷ []
fields_text ((k, v) ∷ fs) = k ∷ (v ++ 0 ∷ fields_text fs)

abbrev pub IsField : ℕ × Bytes → Type 0
IsField f = ((f.0 == 0) ≡ false) × (length f.1 < 4096) × All (λ c. (c == 0) ≡ false) f.1

-- A reply: a command that is complete, whose tag ends in a number, in a word, or is one word; an
-- error with its fields; an empty query; or a message that is passed over.
pub data Reply : Type 0 where
  counted worded : Bytes → Bytes → Reply
  plain : Bytes → Reply
  failed : Fields → Reply
  nothing : Reply
  passed : ℕ → Bytes → Reply

abbrev pub reply_text : Reply → Bytes
reply_text (counted w d) = message b'C' (tag_text w d)
reply_text (worded w v) = message b'C' (tag_text w v)
reply_text (plain w) = message b'C' (w ++ 0 ∷ [])
reply_text (failed fs) = message b'E' (fields_text fs)
reply_text nothing = message b'I' []
reply_text (passed c w) = message c w

abbrev pub replies_text : List Reply → Bytes
replies_text [] = []
replies_text (r ∷ rs) = reply_text r ++ replies_text rs

-- The last result and the first error.
abbrev pub reply_outcome : Reply → Outcome → Outcome
reply_outcome (counted w d) (res, e) = (some (rows d), e)
reply_outcome (worded w v) (res, e) = (some (pos 0), e)
reply_outcome (plain w) (res, e) = (some (pos 0), e)
reply_outcome (failed fs) (res, e) = (res, or_first e (server fs))
reply_outcome nothing (res, e) = (res, or_first e empty_query)
reply_outcome (passed c w) o = o

unfoldable pub outcome : List Reply → Outcome → Outcome
outcome [] o = o
outcome (r ∷ rs) o = outcome rs (reply_outcome r o)

abbrev pub IsShort : Bytes → Type 0
IsShort p = length p + 4 < 2 ^ 31

abbrev pub IsReply : Kind → Reply → Type 0
IsReply k (counted w d) =
    IsShort (tag_text w d) × (0 < length d) × IsDigits d × (value 0 d < 2 ^ 64)
IsReply k (worded w []) = IsShort (tag_text w [])
IsReply k (worded w (c ∷ v)) = IsShort (tag_text w (c ∷ v)) × (is_num c ≡ false) × NoSpace (c ∷ v)
IsReply k (plain w) = IsShort (w ++ 0 ∷ []) × NoSpace w
IsReply k (failed fs) = IsShort (fields_text fs) × All IsField fs
IsReply k nothing = Unit
IsReply k (passed c w) =
    IsShort w
    × (k.skips c ≡ true)
    × ((c == b'E') ≡ false)
    × ((c == b'I') ≡ false)
    × ((c == b'C') ≡ false)
