-- ===== src/PgDriver/WireTests.antt =====
-- Witnesses and tests for write_buffer.go and proto.go.
use shilohcommunityenterpris.Common.{
  ℕ, List, [], ◌∷◌, ◌++◌, Option, none, some, Bytes, codes, ◌≡◌, ◌≢◌, refl, arith,
}
use shilohcommunityenterpris.Common.Result.{ok, err}
use shilohcommunityenterpris.Common.Decimal.{pos}
use shilohcommunityenterpris.PgDriver.Wire.{
  be16, be32, put_uint32, start_message, finish_message, write_string, stuck,
}
use shilohcommunityenterpris.PgDriver.Messages.{
  write_message, write_query, write_parse_describe_sync, bind_execute,
}
use shilohcommunityenterpris.PgDriver.Messages.RoundTrip.{frames, param_text}
use shilohcommunityenterpris.PgDriver.Messages.Bind.{bind_text, read_bind}
use shilohcommunityenterpris.PgDriver.Messages.Statements.{
  parse_text, stmt_name, execute_text, write_parse_describe_sync-frames, bind_execute-frames,
}
use shilohcommunityenterpris.PgDriver.Replies.{
  read_error, read_query, read_ext_query, parse_result, behind_space,
}
use shilohcommunityenterpris.PgDriver.Replies.Reading.{Reply, counted, failed, nothing, passed}
use shilohcommunityenterpris.PgDriver.Replies.Progress.{read_loops-ne-stuck}

write_parse_describe_sync-frames_example :
    frames 3 (write_parse_describe_sync (codes "s1") (codes "SELECT 1")).bytes
    ≡ ok (
        (b'P', parse_text (codes "s1") (codes "SELECT 1"))
        ∷ (b'D', stmt_name (codes "s1"))
        ∷ (b'S', [])
        ∷ [])
unfolding be16
write_parse_describe_sync-frames_example =
    write_parse_describe_sync-frames (codes "s1") (codes "SELECT 1") (omega arith) (omega arith)

abbrev params : List (Option Bytes)
params = some (codes "7") ∷ none ∷ some [] ∷ []

bind_execute-frames_example :
    (frames 3 (bind_execute (codes "s1") params).bytes
      ≡ ok ((b'B', bind_text (codes "s1") params) ∷ (b'E', execute_text) ∷ (b'S', []) ∷ []))
    × (read_bind (bind_text (codes "s1") params) ≡ ok ((codes "s1", params), be16 0))
unfolding be16 be32 param_text
bind_execute-frames_example =
    bind_execute-frames (codes "s1") params (omega arith) (refl, (refl, tt)) (omega arith)
      (omega arith, (tt, (omega arith, tt)))

-- The bytes of a query message.
query_bytes : (write_query (codes "hi")).bytes ≡ b'Q' ∷ 0 ∷ 0 ∷ 0 ∷ 7 ∷ codes "hi" ++ 0 ∷ []
unfolding write_query write_message start_message finish_message put_uint32 be32 write_string
query_bytes = refl

abbrev error_fields : List (ℕ × Bytes)
error_fields = (b'S', codes "ERROR") ∷ (b'C', codes "42601") ∷ []

abbrev replies : List Reply
replies =
    passed b'N' (codes "x")
    ∷ failed error_fields
    ∷ counted (codes "INSERT 0") (codes "12")
    ∷ nothing
    ∷ []

twelve : parse_result (codes "INSERT 0 12" ++ 0 ∷ []) ≡ ok (pos 12)
unfolding parse_result behind_space
twelve = refl

read_loops-ne-stuck_example :
    (read_error (codes "Sx") ≢ err stuck)
    × (read_query (codes "Sx") ≢ err stuck)
    × (read_ext_query (codes "Sx") ≢ err stuck)
read_loops-ne-stuck_example = read_loops-ne-stuck (codes "Sx")
