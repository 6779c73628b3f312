-- ===== src/Schema/Arguments.antt =====
-- The branches of `append` in schema/formatter.go put what a template says at a mark.
use shilohcommunityenterpris.Common.{
  ℕ, ◌+◌, ◌^◌, Bool, true, false, List, [], ◌∷◌, ◌++◌, append_assoc, Option, none, some, ltb, leb,
  if◌then◌else◌, Bytes, get_elem?, ◌≡◌, ◌≢◌, refl, ap, ◌∙◌, arith, Bool-cases, Option-cases, inl,
  inr,
}
use shilohcommunityenterpris.Common.Decimal.{atoi, value as decimal, max_int}
use shilohcommunityenterpris.Common.Result.{Result}
use shilohcommunityenterpris.Schema.Formatter.{
  Named, Body, query_appender, value, Arg, Formatter, append_body, append_arg, append_named_list,
  only_named, restore, nth_or_restore, try_list, try_named, put_name, put_next,
}
use shilohcommunityenterpris.Schema.Template.{
  written, argument_or, following, numbered, first_named, named_or, sole, by_name,
}

append_arg-written : (dst : Bytes) (a : Arg) → append_arg dst a ≡ written dst a.body
unfolding append_arg append_body
append_arg-written dst a = body_written dst a.body
  where
    result_written :
        (dst : Bytes) (q : Bytes → Result Bytes Bytes)
        → append_body dst (query_appender q) ≡ written dst (query_appender q)
    result_written dst q = refl

    body_written : (dst : Bytes) (v : Body) → append_body dst v ≡ written dst v
    body_written dst (value v) = refl
    body_written dst (query_appender q) = result_written dst q

pub put_next-following :
    (args : List Arg) (dst : Bytes) (i : ℕ)
    → put_next args dst i ≡ (argument_or dst [] (get_elem? args i), following i (get_elem? args i))
unfolding put_next
put_next-following args dst i = elim (Option-cases (get_elem? args i)) [
  | inl e ↦ rw (put_next, e) refl
  | inr (a, e) ↦ rw (put_next, e) (λ j. (append_arg-written dst a j, i + 1))
]

restore_mark : (dst n : Bytes) → restore dst n ≡ dst ++ b'?' ∷ n
restore_mark dst n = append_assoc dst (b'?' ∷ []) n

nth_some-argument_or :
    (args : List Arg) (dst n : Bytes) (i : ℕ)
    → nth_or_restore args dst n (some i) ≡ argument_or dst n (get_elem? args i)
unfolding nth_or_restore
nth_some-argument_or args dst n i = elim (Option-cases (get_elem? args i)) [
  | inl e ↦ rw (nth_or_restore, e) (restore_mark dst n)
  | inr (a, e) ↦ rw (nth_or_restore, e) (append_arg-written dst a)
]

nth-argument_or :
    (args : List Arg) (dst n : Bytes)
    → n ≢ []
    → nth_or_restore args dst n (atoi n) ≡ argument_or dst n (numbered args n)
unfolding nth_or_restore atoi
nth-argument_or args dst [] h = absurd (h refl)
nth-argument_or args dst (c ∷ n) h = elim (Bool-cases (leb (decimal 0 (c ∷ n)) max_int)) [
  | inl e ↦
      let below : ltb (decimal 0 (c ∷ n)) (2 ^ 63) ≡ true = ground arith in
      rw (e, below) (nth_some-argument_or args dst (c ∷ n) (decimal 0 (c ∷ n)))
  | inr e ↦
      let above : ltb (decimal 0 (c ∷ n)) (2 ^ 63) ≡ false = ground arith in
      rw (e, above) (restore_mark dst (c ∷ n))
]

-- Those of the formatter, and the mark where none knows the name.
list-first_named :
    (l : List (Option Named)) (dst n : Bytes)
    → (if (append_named_list l dst n).1
        then (append_named_list l dst n).0
        else restore (append_named_list l dst n).0 n)
      ≡ named_or dst n (first_named l dst n)
unfolding append_named_list first_named
list-first_named [] dst n = restore_mark dst n
list-first_named (none ∷ l) dst n = restore_mark dst n
list-first_named (some a ∷ l) dst n = elim (Bool-cases (a dst n).1) [
  | inl e ↦ rw e refl
  | inr e ↦ rw e (list-first_named l dst n)
]

try_named-by_name :
    (f : Formatter) (o : Option Named) (dst n : Bytes) → try_named f o dst n ≡ by_name f o dst n
unfolding try_named try_list by_name
try_named-by_name f none dst n = list-first_named f.args dst n
try_named-by_name f (some a) dst n = elim (Bool-cases (a dst n).1) [
  | inl e ↦ rw e refl
  | inr e ↦ rw e (list-first_named f.args (a dst n).0 n)
]

only_named-sole : (args : List Arg) → only_named args ≡ sole args
unfolding only_named
only_named-sole [] = refl
only_named-sole (a ∷ []) = refl
only_named-sole (a ∷ b ∷ args) = refl

pub put_name-by_name :
    (f : Formatter) (args : List Arg) (dst n : Bytes)
    → put_name f args dst n false ≡ by_name f (sole args) dst n
unfolding put_name
put_name-by_name f args dst n =
    try_named-by_name f (only_named args) dst n ∙ ap (λ o. by_name f o dst n) (only_named-sole args)

pub put_name-numbered :
    (f : Formatter) (args : List Arg) (dst n : Bytes) (numeric : Bool)
    → n ≢ []
    → put_name f args dst n numeric
      ≡ (if numeric then argument_or dst n (numbered args n) else by_name f (sole args) dst n)
unfolding put_name
put_name-numbered f args dst n true h = nth-argument_or args dst n h
put_name-numbered f args dst n false h = put_name-by_name f args dst n
