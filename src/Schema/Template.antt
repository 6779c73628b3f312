-- ===== src/Schema/Template.antt =====
-- Queries as texts between placeholders: the independent description of what `append` reads.
use shilohcommunityenterpris.Common.{
  ◌+◌, ◌^◌, Option, none, some, ltb, if◌then◌else◌, get_elem?, ℕ, Bool, true, false, not, ◌&&◌,
  ◌||◌, List, [], ◌∷◌, ◌++◌, ◌≡◌, ◌≢◌, ◌==◌, Bytes, All,
}
use shilohcommunityenterpris.Common.Decimal.{is_num, value as decimal}
use shilohcommunityenterpris.Common.Result.{ok, err}
use shilohcommunityenterpris.Dialect.{append_error}
use shilohcommunityenterpris.Internal.Parser.{is_alpha}
use shilohcommunityenterpris.Schema.Formatter.{
  Named, Body, value, Arg, query_appender, Formatter, ends_in_backslash, has_question,
}

-- A mark in a query: an escaped question mark, the next argument, a name, or one in parentheses.
pub data Mark : Type 0 where
  escaped next : Mark
  word paren : Bytes → Mark

-- Texts, with a mark behind each but the last.
pub data Template : Type 0 where
  end : Bytes → Template
  part : Bytes → Mark → Template → Template

unfoldable pub print_mark : Mark → Bytes
print_mark escaped = b'\\' ∷ b'?' ∷ []
print_mark next = b'?' ∷ []
print_mark (word n) = b'?' ∷ n
print_mark (paren n) = b'?' ∷ b'(' ∷ (n ++ b')' ∷ [])

-- The query that a template stands for.
unfoldable pub print : Template → Bytes
unfolding print_mark
print (end t) = t
print (part t m p) = t ++ (print_mark m ++ print p)

-- Letters, digits, and underscores behind a letter; the flag says that there was a letter.
abbrev pub IsWord : Bool → Bytes → Type 0
IsWord alpha [] = Unit
IsWord alpha (c ∷ n) =
    ((is_num c || is_alpha c || (alpha && c == b'_')) ≡ true) × IsWord (alpha || not (is_num c)) n

-- Only digits.
abbrev pub is_numeric : Bytes → Bool
is_numeric [] = true
is_numeric (c ∷ n) = is_num c && is_numeric n

-- The text behind a name does not go on with it.
abbrev pub Stops : Bool → Bytes → Type 0
Stops alpha [] = Unit
Stops alpha (c ∷ s) = (is_num c || is_alpha c || (alpha && c == b'_')) ≡ false

-- The text behind a mark for the next argument does not begin a name.
abbrev pub NoName : Bytes → Type 0
NoName [] = Unit
NoName (c ∷ s) = (is_num c || is_alpha c || c == b'(') ≡ false

-- The mark is what is read between the text `t` and the rest `s` of the query.
abbrev pub Fits : Bytes → Mark → Bytes → Type 0
Fits t escaped s = Unit
Fits t next s = (ends_in_backslash t ≡ false) × NoName s
Fits t (word n) s =
    (ends_in_backslash t ≡ false) × (n ≢ []) × IsWord false n × Stops (not (is_numeric n)) s
Fits t (paren n) s = (ends_in_backslash t ≡ false) × (n ≢ []) × All (λ c. c ≢ b')') n

abbrev pub IsTemplate : Template → Type 0
IsTemplate (end t) = has_question t ≡ false
IsTemplate (part t m p) = (has_question t ≡ false) × Fits t m (print p) × IsTemplate p

-- What an argument appends: its text, or a mark for its error.
abbrev pub written : Bytes → Body → Bytes
written dst (value v) = v dst
written dst (query_appender q) = elim (q dst) [ ok b ↦ b | err e ↦ append_error dst e ]

-- The argument that is found, or the mark `?` with the name.
abbrev pub argument_or : Bytes → Bytes → Option Arg → Bytes
argument_or dst n (some a) = written dst a.body
argument_or dst n none = dst ++ b'?' ∷ n

-- The position of the argument behind the one at `i`; there is none behind the last.
abbrev pub following : ℕ → Option Arg → ℕ
following i (some a) = i + 1
following i none = i

-- The argument with that number; a number above the largest int has none.
abbrev pub numbered : List Arg → Bytes → Option Arg
numbered args n = if ltb (decimal 0 n) (2 ^ 63) then get_elem? args (decimal 0 n) else none

-- What the first that knows a name appends; the search ends at a `nil`.
unfoldable pub first_named : List (Option Named) → Bytes → Bytes → Option Bytes
first_named [] dst n = none
first_named (none ∷ l) dst n = none
first_named (some a ∷ l) dst n = if (a dst n).1 then some (a dst n).0 else first_named l dst n

abbrev pub named_or : Bytes → Bytes → Option Bytes → Bytes
named_or dst n (some b) = b
named_or dst n none = dst ++ b'?' ∷ n

-- The names of the only argument.
abbrev pub sole : List Arg → Option Named
sole (a ∷ []) = a.named
sole _ = none

-- The only argument is asked first, where it has names, and then those of the formatter.
unfoldable pub by_name : Formatter → Option Named → Bytes → Bytes → Bytes
unfolding first_named
by_name f (some a) dst n =
    if (a dst n).1 then (a dst n).0 else named_or (a dst n).0 n (first_named f.args (a dst n).0 n)
by_name f none dst n = named_or dst n (first_named f.args dst n)

-- The output: texts as they are, and each mark with what it stands for.
unfoldable pub fill : Formatter → List Arg → Bytes → ℕ → Template → Bytes
unfolding by_name
fill f args dst i (end t) = dst ++ t
fill f args dst i (part t escaped p) = fill f args ((dst ++ t) ++ b'?' ∷ []) i p
fill f args dst i (part t next p) =
    fill f args (argument_or (dst ++ t) [] (get_elem? args i)) (following i (get_elem? args i)) p
fill f args dst i (part t (word n) p) =
    fill f args
      (if is_numeric n
        then argument_or (dst ++ t) n (numbered args n)
        else by_name f (sole args) (dst ++ t) n)
      i p
fill f args dst i (part t (paren n) p) = fill f args (by_name f (sole args) (dst ++ t) n) i p
