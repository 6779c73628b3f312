-- ===== src/PgDriver/Messages.antt =====
-- driver/pgdriver/proto.go: the messages that the driver writes.
pub mod RoundTrip
pub mod Bind
pub mod Statements
use shilohcommunityenterpris.Common.{
  ℕ, zero, suc, ◌+◌, ◌-◌, ◌*◌, ◌^◌, Bool, true, false, List, [], ◌∷◌, ◌++◌, Option, none, some,
  if◌then◌else◌, Bytes, codes, length,
}
use shilohcommunityenterpris.Common.Decimal.{append_int}
use shilohcommunityenterpris.Common.Hex.{hex_encode}
use shilohcommunityenterpris.Common.Result.{Result, ok, err, ◌>>=◌}
use shilohcommunityenterpris.Common.Utf8.{runes, encode_rune}
use shilohcommunityenterpris.Dialect.{nan, inf, finite, Float}
use shilohcommunityenterpris.PgDriver.Format.{
  Arg, null, int64, float64, bool, bytes, string, time, other, FormatError, unexpected,
}
use shilohcommunityenterpris.PgDriver.Wire.{
  WriteBuffer, empty_buffer, start_message, finish_message, start_param, finish_param,
  finish_null_param, write, write_int16, write_int32, write_string, write_byte,
}

-- `StartMessage`, what is written, and `FinishMessage`
unfoldable pub write_message : ℕ → (WriteBuffer → WriteBuffer) → WriteBuffer → WriteBuffer
unfolding start_message finish_message
write_message c body b = finish_message (body (start_message c b))

-- `writeSSLMsg`
unfoldable pub write_ssl_msg : WriteBuffer
unfolding write_message write_int32
write_ssl_msg = write_message 0 (write_int32 80877103) empty_buffer

abbrev pub app_name : Bytes → WriteBuffer → WriteBuffer
app_name [] b = b
app_name (c ∷ name) b = write_string (c ∷ name) (write_string (codes "application_name") b)

-- `writeStartup`
unfoldable pub write_startup : Bytes → Bytes → Bytes → WriteBuffer
unfolding write_message write_int32 write_string
write_startup user database app =
    write_message 0
      (λ b. write_string [] (
        app_name app (
          write_string database (
            write_string (codes "database")
              (write_string user (write_string (codes "user") (write_int32 196608 b)))))))
      empty_buffer

-- `writePassword`
unfoldable pub write_password : Bytes → WriteBuffer
unfolding write_message write_string
write_password password = write_message b'p' (write_string password) empty_buffer

-- `saslWriteInitialResponse` and `saslWriteResponse`
unfoldable pub sasl_write_initial_response : Bytes → Bytes → WriteBuffer
unfolding write_message write_string write_int32 write
sasl_write_initial_response name resp =
    write_message b'p' (λ b. write resp (write_int32 (length resp) (write_string name b)))
      empty_buffer

unfoldable pub sasl_write_response : Bytes → WriteBuffer
unfolding write_message write
sasl_write_response resp = write_message b'p' (write resp) empty_buffer

-- `writeQuery`
unfoldable pub write_query : Bytes → WriteBuffer
unfolding write_message write_string
write_query query = write_message b'Q' (write_string query) empty_buffer

abbrev pub write_sync : WriteBuffer → WriteBuffer
write_sync = write_message b'S' (λ b. b)

-- `writeParseDescribeSync`
unfoldable pub write_parse_describe_sync : Bytes → Bytes → WriteBuffer
unfolding write_message write_string write_int16 write_byte
write_parse_describe_sync name query = write_sync (
    write_message b'D' (λ b. write_string name (write_byte b'S' b))
      (write_message b'P' (λ b. write_int16 0 (write_string query (write_string name b)))
        empty_buffer))

-- `writeCloseStmt`
unfoldable pub write_close_stmt : Bytes → WriteBuffer
unfolding write_message write_string write_byte
write_close_stmt name =
    write_message b'H' (λ b. b)
      (write_message b'C' (λ b. write_string name (write_byte b'S' b)) empty_buffer)

abbrev pub stmt_rune : ℕ → Bytes
stmt_rune zero = []
stmt_rune (suc r) = encode_rune (suc r)

abbrev pub stmt_text : List ℕ → Bytes
stmt_text [] = []
stmt_text (r ∷ rs) = stmt_rune r ++ stmt_text rs

-- What `appendStmtArg` appends; `none` is the `nil` slice. `print` is `strconv.AppendFloat`.
unfoldable pub append_stmt_arg :
    {F : Type 0} → (F → Bytes) → Arg F → Result FormatError (Option Bytes)
unfolding runes encode_rune
append_stmt_arg print null = ok none
append_stmt_arg print (int64 v) = ok (some (append_int [] v))
append_stmt_arg print (float64 nan) = ok (some (codes "NaN"))
append_stmt_arg print (float64 (inf true)) = ok (some (codes "Infinity"))
append_stmt_arg print (float64 (inf false)) = ok (some (codes "-Infinity"))
append_stmt_arg print (float64 (finite x)) = ok (some (print x))
append_stmt_arg print (bool true) = ok (some (codes "TRUE"))
append_stmt_arg print (bool false) = ok (some (codes "FALSE"))
append_stmt_arg print (bytes none) = ok none
append_stmt_arg print (bytes (some v)) = ok (some (codes "\\x" ++ hex_encode v))
append_stmt_arg print (string v) = ok (some (stmt_text (runes v)))
append_stmt_arg print (time t) = ok t
append_stmt_arg print (other t) = err (unexpected t)

abbrev pub write_param : Option Bytes → WriteBuffer → WriteBuffer
write_param none b = finish_null_param (start_param b)
write_param (some v) b = finish_param (write v (start_param b))

-- The loop of `writeBindExecute` over the arguments.
unfoldable pub write_params : List (Option Bytes) → WriteBuffer → WriteBuffer
unfolding start_param finish_param finish_null_param write
write_params [] b = b
write_params (v ∷ vs) b = write_params vs (write_param v b)

unfoldable pub stmt_args :
    {F : Type 0} → (F → Bytes) → List (Arg F) → Result FormatError (List (Option Bytes))
unfolding append_stmt_arg
stmt_args print [] = ok []
stmt_args print (a ∷ args) =
    append_stmt_arg print a >>= λ v. stmt_args print args >>= λ vs. ok (v ∷ vs)

-- `writeBindExecute` on arguments that have been appended: they go to their place in the buffer at
-- once, and nothing is sent after an error.
unfoldable pub bind_execute : Bytes → List (Option Bytes) → WriteBuffer
unfolding write_message write_string write_int16 write_int32 write_params
bind_execute name vs = write_sync (
    write_message b'E' (λ b. write_int32 0 (write_string [] b))
      (write_message b'B'
        (λ b. write_int16 0 (
          write_params vs
            (write_int16 (length vs) (write_int16 0 (write_string name (write_string [] b))))))
        empty_buffer))

unfoldable pub write_bind_execute :
    {F : Type 0} → (F → Bytes) → Bytes → List (Arg F) → Result FormatError WriteBuffer
unfolding stmt_args bind_execute
write_bind_execute print name args = stmt_args print args >>= λ vs. ok (bind_execute name vs)
