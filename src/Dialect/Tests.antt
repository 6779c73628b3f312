-- ===== src/Dialect/Tests.antt =====
-- Witnesses and tests for dialect/append.go.
use shilohcommunityenterpris.Common.{[], ◌++◌, some, ◌≡◌, refl, arith, codes}
use shilohcommunityenterpris.Dialect.Ident.{outside, lex, tokens, spell, append_ident-tokens}
use shilohcommunityenterpris.Dialect.{append_ident}

append_ident-tokens_example :
    (append_ident (codes "x ") (codes "t.a\"b.*") b'"'
      ≡ codes "x " ++ append_ident [] (codes "t.a\"b.*") b'"')
    × (lex b'"' outside [] (append_ident [] (codes "t.a\"b.*") b'"')
        ≡ some (tokens (codes "t.a\"b.*")))
    × (spell (tokens (codes "t.a\"b.*")) ≡ codes "t.a\"b.*")
append_ident-tokens_example =
    append_ident-tokens (codes "x ") (codes "t.a\"b.*") b'"' (omega arith) (omega arith)

quoted_field : append_ident [] (codes "t.a\"b.*") b'"' ≡ codes "\"t\".\"a\"\"b\".*"
unfolding append_ident
quoted_field = refl
