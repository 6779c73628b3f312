-- ===== src/Dialect/Ident.antt =====
-- What a database reads in the output of `AppendIdent`.
use shilohcommunityenterpris.Common.{
  ℕ, Bool, true, false, List, [], ◌∷◌, ◌++◌, append-nil, append_assoc, Option, none, some, ◌≡◌, ◌≢◌,
  refl, sym, ap, ◌∙◌, arith, ◌==◌, if◌then◌else◌, Bytes,
}
use shilohcommunityenterpris.Dialect.{ident_byte, ident_loop, append_ident}

-- A token of a qualified name.
pub data Token : Type 0 where
  star dot : Token
  name : Bytes → Token

-- The state of a reader of quoted names: between tokens, in a name, and behind a quote in a name,
-- which ends it or is the first of two.
pub data Mode : Type 0 where
  outside : Mode
  inside : Bytes → Mode
  closing : Bytes → Mode

pub lex : ℕ → Mode → List Token → Bytes → Option (List Token)
lex quote outside out [] = some out
lex quote (inside n) out [] = none
lex quote (closing n) out [] = some (out ++ name n ∷ [])
lex quote outside out (c ∷ s) =
    let open_quote = lex quote (inside []) out s in
    let a_star = lex quote outside (out ++ star ∷ []) s in
    let a_dot = lex quote outside (out ++ dot ∷ []) s in
    if c == quote
    then open_quote
    else if c == b'*'
    then a_star
    else if c == b'.'
    then a_dot
    else none
lex quote (inside n) out (c ∷ s) =
    let close_quote = lex quote (closing n) out s in
    let byte = lex quote (inside (n ++ c ∷ [])) out s in if c == quote then close_quote else byte
lex quote (closing n) out (c ∷ s) =
    let doubled = lex quote (inside (n ++ quote ∷ [])) out s in
    let a_dot = lex quote outside (out ++ name n ∷ dot ∷ []) s in
    if c == quote then doubled else if c == b'.' then a_dot else none

-- The tokens that a field stands for: names between dots, and stars in front of a name.
mutual
  pub tokens : Bytes → List Token
  tokens [] = []
  tokens (c ∷ s) =
      let as_star = star ∷ tokens s in
      let as_dot = dot ∷ tokens s in
      let as_name = tokens_in (c ∷ []) s in
      if c == b'*' then as_star else if c == b'.' then as_dot else as_name

  tokens_in : Bytes → Bytes → List Token
  tokens_in n [] = name n ∷ []
  tokens_in n (c ∷ s) =
      let as_dot = name n ∷ dot ∷ tokens s in
      let as_name = tokens_in (n ++ c ∷ []) s in if c == b'.' then as_dot else as_name

-- The field that tokens spell.
pub spell : List Token → Bytes
spell [] = []
spell (star ∷ ts) = b'*' ∷ spell ts
spell (dot ∷ ts) = b'.' ∷ spell ts
spell (name n ∷ ts) = n ++ spell ts

mutual
  unfolding tokens spell

  spell-tokens : (s : Bytes) → spell (tokens s) ≡ s
  spell-tokens [] = refl
  spell-tokens (c ∷ s) = ground (arith, spell-tokens s, spell-tokens_in (c ∷ []) s)

  spell-tokens_in : (n s : Bytes) → spell (tokens_in n s) ≡ n ++ s
  spell-tokens_in n [] = refl
  spell-tokens_in n (c ∷ s) =
      ground (arith, spell-tokens s, spell-tokens_in (n ++ c ∷ []) s, append_assoc n (c ∷ []) s)

-- The loop only adds to what is written.
loop-append :
    (q : ℕ) (b : Bytes) (quoted : Bool) (s : Bytes)
    → ident_loop q b quoted s ≡ b ++ ident_loop q [] quoted s
unfolding ident_loop
loop-append q b quoted [] = ground (arith, append-nil b)
loop-append q b quoted (c ∷ s) =
    let r = ident_byte q quoted c in
    loop-append q (b ++ r.0) r.1 s
    ∙ append_assoc b r.0 (ident_loop q [] r.1 s)
    ∙ ap (◌++◌ b) (sym (loop-append q r.0 r.1 s))

loop-nil : (q : ℕ) (quoted : Bool) → ident_loop q [] quoted [] ≡ (if quoted then q ∷ [] else [])
unfolding ident_loop
loop-nil q quoted = refl

loop-cons :
    (q : ℕ) (quoted : Bool) (c : ℕ) (s : Bytes)
    → ident_loop q [] quoted (c ∷ s)
      ≡ (ident_byte q quoted c).0 ++ ident_loop q [] (ident_byte q quoted c).1 s
unfolding ident_loop
loop-cons q quoted c s = loop-append q (ident_byte q quoted c).0 (ident_byte q quoted c).1 s

module _ (q : ℕ) (not_dot : q ≢ b'.') (not_star : q ≢ b'*') where
  mutual
    unfolding lex tokens ident_byte

    lex-loop :
        (s : Bytes) (out : List Token)
        → lex q outside out (ident_loop q [] false s) ≡ some (out ++ tokens s)
    lex-loop [] out = rw (loop-nil, append-nil)
    lex-loop (c ∷ s) out = rw loop-cons (
        ground (
          arith,
          lex-loop s (out ++ star ∷ []),
          lex-loop s (out ++ dot ∷ []),
          lex-loop_in s (c ∷ []) out,
          append_assoc out (star ∷ []) (tokens s),
          append_assoc out (dot ∷ []) (tokens s),
        ))

    lex-loop_in :
        (s n : Bytes) (out : List Token)
        → lex q (inside n) out (ident_loop q [] true s) ≡ some (out ++ tokens_in n s)
    lex-loop_in [] n out = rw loop-nil (ground arith)
    lex-loop_in (c ∷ s) n out = rw loop-cons (
        ground (
          arith,
          lex-loop s (out ++ name n ∷ dot ∷ []),
          lex-loop_in s (n ++ c ∷ []) out,
          append_assoc out (name n ∷ dot ∷ []) (tokens s),
        ))

-- `AppendIdent` leaves what is written so far, and a reader of quoted names finds in the rest the
-- names, the dots and the stars of the field, which spell the field: no byte of it ends a name
-- early. The quote is neither a dot nor a star.
pub append_ident-tokens :
    (b field : Bytes) (quote : ℕ)
    → quote ≢ b'.'
    → quote ≢ b'*'
    → (append_ident b field quote ≡ b ++ append_ident [] field quote)
      × (lex quote outside [] (append_ident [] field quote) ≡ some (tokens field))
      × (spell (tokens field) ≡ field)
unfolding append_ident
append_ident-tokens b field q nd ns =
    (loop-append q b false field, lex-loop q nd ns field [], spell-tokens field)
