-- ===== src/PgDriver/Messages/Bind.antt =====
-- A reader of the message Bind.
use shilohcommunityenterpris.Common.{
  ◌*◌, if◌then◌else◌, ℕ, zero, suc, ◌+◌, ◌-◌, ◌^◌, ◌<◌, false, List, [], ◌∷◌, ◌++◌, append_assoc,
  Option, none, some, ◌==◌, Bytes, length, All, ◌≡◌, refl, ap, ◌∙◌, arith,
}
use shilohcommunityenterpris.Common.Decimal.{pos, negsuc}
use shilohcommunityenterpris.Common.Result.{ok, err, ◌>>=◌}
use shilohcommunityenterpris.PgDriver.Wire.{be16, be32, read_temp, read_int32, Read, eof, with_byte}
use shilohcommunityenterpris.PgDriver.Wire.Framing.{read_int32-be32, read_temp-append}
use shilohcommunityenterpris.PgDriver.Messages.RoundTrip.{param_text}

-- The parameters of a Bind message, by `readInt32`: a length of -1 is NULL.
abbrev with_param : Option Bytes → Read (List (Option Bytes)) → Read (List (Option Bytes))
with_param v (ok (vs, s)) = ok (v ∷ vs, s)
with_param v (err e) = err e

unfoldable pub read_param : Bytes → Read (Option Bytes)
read_param s = read_int32 s >>= λ (l, s1). elim l [
  | pos n ↦ (read_temp n s1 >>= λ (v, s2). ok (some v, s2))
  | negsuc n ↦ ok (none, s1)
]

unfoldable pub read_params : ℕ → Bytes → Read (List (Option Bytes))
unfolding read_param
read_params zero s = ok ([], s)
read_params (suc n) s = read_param s >>= λ (v, s1). with_param v (read_params n s1)

abbrev pub IsShortParam : Option Bytes → Type 0
IsShortParam none = Unit
IsShortParam (some v) = length v < 2 ^ 31

some-param :
    (v s : Bytes) → length v < 2 ^ 31 → read_param ((be32 (length v) ++ v) ++ s) ≡ ok (some v, s)
unfolding read_param
some-param v s h =
    ap
      (λ w. read_int32 w >>= λ (l, s1). elim l [
        | pos n ↦ (read_temp n s1 >>= λ (v, s2). ok (some v, s2))
        | negsuc n ↦ ok (none, s1)
      ])
      (append_assoc (be32 (length v)) v s)
    ∙ ap
        (λ r. r >>= λ (l, s1). elim l [
          | pos n ↦ (read_temp n s1 >>= λ (v, s2). ok (some v, s2))
          | negsuc n ↦ ok (none, s1)
        ])
        (read_int32-be32 (length v) (v ++ s) h)
    ∙ ap (λ r. r >>= λ (v, s2). ok (some v, s2)) (read_temp-append v s)

null-param : (s : Bytes) → read_param (be32 (2 ^ 32 - 1) ++ s) ≡ ok (none, s)
unfolding read_param read_int32 be32
null-param s = refl

read_params-text :
    (vs : List (Option Bytes)) (s : Bytes)
    → All IsShortParam vs
    → read_params (length vs) (param_text vs ++ s) ≡ ok (vs, s)
unfolding read_params param_text
read_params-text [] s h = refl
read_params-text (none ∷ vs) s (hv, h) =
    ap (λ w. read_param w >>= λ (v, s1). with_param v (read_params (length vs) s1))
      (append_assoc (be32 (2 ^ 32 - 1)) (param_text vs) s)
    ∙ ap (λ r. r >>= λ (v, s1). with_param v (read_params (length vs) s1))
        (null-param (param_text vs ++ s))
    ∙ ap (with_param none) (read_params-text vs s h)
read_params-text (some v ∷ vs) s (hv, h) =
    ap (λ w. read_param w >>= λ (v, s1). with_param v (read_params (length vs) s1))
      (append_assoc (be32 (length v) ++ v) (param_text vs) s)
    ∙ ap (λ r. r >>= λ (v, s1). with_param v (read_params (length vs) s1))
        (some-param v (param_text vs ++ s) hv)
    ∙ ap (with_param (some v)) (read_params-text vs s h)

-- A Bind message: no portal, the statement, no formats, the number of parameters, the parameters,
-- and no formats of results.
abbrev pub bind_head : Bytes → List (Option Bytes) → Bytes
bind_head name vs = (((0 ∷ [] ++ name) ++ 0 ∷ []) ++ be16 0) ++ be16 (length vs)

abbrev pub bind_text : Bytes → List (Option Bytes) → Bytes
bind_text name vs = (bind_head name vs ++ param_text vs) ++ be16 0

-- A reader of the message: texts up to a zero, and numbers of 16 bits, of which the second is the
-- number of parameters.
unfoldable pub read_name : Bytes → Read Bytes
read_name [] = err eof
read_name (c ∷ s) = let rest = read_name s in if c == 0 then ok ([], s) else with_byte c rest

abbrev pub read_int16 : Bytes → Read ℕ
read_int16 (a ∷ b ∷ s) = ok (a * 2 ^ 8 + b, s)
read_int16 _ = err eof

unfoldable pub read_bind : Bytes → Read (Bytes × List (Option Bytes))
unfolding read_name read_params
read_bind s = read_name s >>= λ (portal, s1). read_name s1 >>= λ (name, s2).
    read_int16 s2 >>= λ (f, s3).
    read_int16 s3 >>= λ (n, s4). read_params n s4 >>= λ (vs, s5). ok ((name, vs), s5)

abbrev pub IsName : Bytes → Type 0
IsName = All (λ c. (c == 0) ≡ false)

read_name-zero : (n s : Bytes) → IsName n → read_name (n ++ 0 ∷ s) ≡ ok (n, s)
unfolding read_name
read_name-zero [] s h = refl
read_name-zero (c ∷ n) s (hc, h) = rw (hc, read_name-zero n s h) refl

read_int16-be16 : (n : ℕ) (s : Bytes) → n < 2 ^ 16 → read_int16 (be16 n ++ s) ≡ ok (n, s)
unfolding be16
read_int16-be16 n s h = ap (λ m. ok (m, s)) (omega arith)

-- The message, read from its start.
bind_text-flat :
    (name : Bytes) (vs : List (Option Bytes))
    → bind_text name vs
      ≡ 0 ∷ (name ++ 0 ∷ (be16 0 ++ (be16 (length vs) ++ (param_text vs ++ be16 0))))
bind_text-flat name vs = simp append_assoc

pub read_bind-text :
    (name : Bytes) (vs : List (Option Bytes))
    → IsName name
    → length vs < 2 ^ 16
    → All IsShortParam vs
    → read_bind (bind_text name vs) ≡ ok ((name, vs), be16 0)
unfolding read_bind
read_bind-text name vs hn hl hv =
    let tail = param_text vs ++ be16 0 in
    ap read_bind (bind_text-flat name vs)
    ∙ ap
        (λ r. r >>= λ (name, s2). read_int16 s2 >>= λ (f, s3).
          read_int16 s3 >>= λ (n, s4). read_params n s4 >>= λ (vs, s5). ok ((name, vs), s5))
        (read_name-zero name (be16 0 ++ (be16 (length vs) ++ tail)) hn)
    ∙ ap
        (λ r. r >>= λ (f, s3).
          read_int16 s3 >>= λ (n, s4). read_params n s4 >>= λ (vs, s5). ok ((name, vs), s5))
        (read_int16-be16 0 (be16 (length vs) ++ tail) (omega arith))
    ∙ ap (λ r. r >>= λ (n, s4). read_params n s4 >>= λ (vs, s5). ok ((name, vs), s5))
        (read_int16-be16 (length vs) tail hl)
    ∙ ap (λ r. r >>= λ (vs, s5). ok ((name, vs), s5)) (read_params-text vs (be16 0) hv)
