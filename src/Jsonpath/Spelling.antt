-- ===== src/Jsonpath/Spelling.antt =====
-- How a path is written, step by step, and that each of its steps is read back.
use status_hub.Prelude.{
  ℕ, suc, ◌+◌, ◌≡◌, refl, Bool, true, false, not, ◌&&◌, ◌||◌, ◌++◌, ◌∷◌, [], none, some, inr, arith,
  nat_eq, ltb, leb, Text, text_Eq, text_eq, ℤ, pos, negsuc, decimal,
}
use status_hub.Domain.Amount.{
  is_space, is_digit, all_digits, digits_value, take_sign, parse_int64, max_int64,
}
use status_hub.Domain.Amount.Digits.{decimal-Correct}
use status_hub.Domain.Amount.Parsing.{not_empty}
use status_hub.Jsonpath.{
  Step, key_step, index_step, trim_prefix, cut_bracket, is_stop, split_name, has_wildcard,
  before_quote, unquote, index_of, bracket_step, name_step, next_step, followed_by, compile_loop,
}

pub data Mark : Type 0 where
  single double : Mark

-- A step as `.name`, as `['key']` or `["key"]`, or as `[index]`.
pub data Spelling : Type 0 where
  dotted : Text → Spelling
  quoted : Mark → Text → Spelling
  indexed : ℤ → Spelling

abbrev pub step_of : Spelling → Step
step_of (dotted name) = key_step name
step_of (quoted mark key) = key_step key
step_of (indexed n) = index_step n

abbrev pub every : (ℕ → Bool) → Text → Bool
every test [] = true
every test (c ∷ s) = test c && every test s

-- A character of a name that needs no quotes.
abbrev pub is_plain : ℕ → Bool
is_plain c = not (is_stop c || nat_eq c b'*' || nat_eq c b'?' || is_space c)

abbrev pub in_brackets : ℕ → Bool
in_brackets c = not (nat_eq c b']')

abbrev pub is_empty : Text → Bool
is_empty [] = true
is_empty (_ ∷ _) = false

abbrev pub is_spelling : Spelling → Bool
is_spelling (dotted name) = not (is_empty name) && every is_plain name
is_spelling (quoted mark key) = every in_brackets key
is_spelling (indexed (pos n)) = leb n max_int64
is_spelling (indexed (negsuc n)) = leb n max_int64

abbrev pub show_index : ℤ → Text
show_index (pos n) = decimal n
show_index (negsuc n) = b'-' ∷ decimal (suc n)

abbrev pub mark_code : Mark → ℕ
mark_code single = 39
mark_code double = 34

abbrev pub quote : Mark → Text → Text
quote mark key = mark_code mark ∷ (key ++ mark_code mark ∷ [])

-- A step, and what comes after it.
unfoldable pub spell : Spelling → Text → Text
spell (dotted name) rest = b'.' ∷ (name ++ rest)
spell (quoted mark key) rest = b'[' ∷ (quote mark key ++ (b']' ∷ rest))
spell (indexed n) rest = b'[' ∷ (show_index n ++ (b']' ∷ rest))

-- Nothing, or a text that begins with a step.
abbrev pub begins_step : Text → Bool
begins_step [] = true
begins_step (c ∷ _) = is_stop c

pub every-append :
    (test : ℕ → Bool) (s t : Text)
    → every test s ≡ true
    → every test t ≡ true
    → every test (s ++ t) ≡ true
every-append test [] t p q = q
every-append test (c ∷ s) t p q = ground (arith, every-append test s t)

split_name-plain :
    (name rest : Text)
    → every is_plain name ≡ true
    → begins_step rest ≡ true
    → split_name (name ++ rest) ≡ (name, rest)
unfolding split_name
split_name-plain [] [] p q = refl
split_name-plain [] (c ∷ rest) p q = ground arith
split_name-plain (c ∷ name) rest p q = ground (arith, split_name-plain name rest)

has_wildcard-plain : (name : Text) → every is_plain name ≡ true → has_wildcard name ≡ false
unfolding has_wildcard
has_wildcard-plain [] p = refl
has_wildcard-plain (c ∷ name) p = ground (arith, has_wildcard-plain name)

cut_bracket-inner :
    (s rest : Text) → every in_brackets s ≡ true → cut_bracket (s ++ (b']' ∷ rest)) ≡ some (s, rest)
unfolding cut_bracket
cut_bracket-inner [] rest p = refl
cut_bracket-inner (c ∷ s) rest p = ground (arith, cut_bracket-inner s rest)

before_quote-quote : (q : ℕ) (key : Text) → before_quote q (key ++ q ∷ []) ≡ some key
unfolding before_quote
before_quote-quote q [] = ground arith
before_quote-quote q (c ∷ []) = ground arith
before_quote-quote q (c ∷ d ∷ key) = rw (before_quote-quote q (d ∷ key)) refl

unquote-quote : (mark : Mark) (key : Text) → unquote (quote mark key) ≡ some key
unfolding unquote
unquote-quote single key = before_quote-quote 39 key
unquote-quote double key = before_quote-quote 34 key

all_digits-brackets : (s : Text) → all_digits s ≡ true → every in_brackets s ≡ true
unfolding all_digits is_digit
all_digits-brackets [] p = refl
all_digits-brackets (c ∷ s) p = ground (arith, all_digits-brackets s)

take_sign-digits : (s : Text) → all_digits s ≡ true → take_sign s ≡ (false, s)
unfolding all_digits is_digit take_sign
take_sign-digits [] p = refl
take_sign-digits (c ∷ s) p = ground arith

unquote-digits : (s : Text) → all_digits s ≡ true → unquote s ≡ none
unfolding all_digits is_digit unquote
unquote-digits [] p = refl
unquote-digits (c ∷ s) p = ground arith

decimal-digits :
    (n : ℕ)
    → (all_digits (decimal n) ≡ true)
      × (digits_value 0 (decimal n) ≡ n)
      × (text_eq (decimal n) [] ≡ false)
decimal-digits n =
    let (some_digit, ds, v) = decimal-Correct n in (ds, v, not_empty (decimal n) some_digit)

within : (n m : ℕ) → leb n m ≡ true → (ltb m n ≡ false) × (ltb (m + 1) (suc n) ≡ false)
within n m h = ground arith

show_index-brackets : (n : ℤ) → every in_brackets (show_index n) ≡ true
show_index-brackets (pos n) = all_digits-brackets (decimal n) (decimal-digits n).0
show_index-brackets (negsuc n) = all_digits-brackets (decimal (suc n)) (decimal-digits (suc n)).0

unquote-show_index : (n : ℤ) → unquote (show_index n) ≡ none
unfolding unquote
unquote-show_index (pos n) = unquote-digits (decimal n) (decimal-digits n).0
unquote-show_index (negsuc n) = refl

parse_int64-show_index :
    (n : ℤ) → is_spelling (indexed n) ≡ true → parse_int64 (show_index n) ≡ some n
unfolding parse_int64
parse_int64-show_index (pos n) h =
    let (ds, v, some_digit) = decimal-digits n in
    rw (parse_int64, take_sign-digits (decimal n) ds, some_digit, ds, v)
      (rw (within n max_int64 h).0 refl)
parse_int64-show_index (negsuc n) h =
    let (ds, v, some_digit) = decimal-digits (suc n) in
    unfold take_sign in rw (parse_int64, some_digit, ds, v) (rw (within n max_int64 h).1 refl)

-- One round of the loop reads one step.
next_step-dotted :
    (name rest : Text) (left : ℕ)
    → is_spelling (dotted name) ≡ true
    → begins_step rest ≡ true
    → compile_loop (suc left) (name ++ rest)
      ≡ followed_by (key_step name) (compile_loop left (trim_prefix b'.' rest))
unfolding compile_loop next_step name_step followed_by text_eq
next_step-dotted [] rest left h q = absurd (clash h)
  where
    clash : false ≡ true → ⊥
    clash e = cc
next_step-dotted (c ∷ name) rest left h q =
    rw
      (
        compile_loop,
        next_step,
        name_step,
        not_bracket c h,
        split_name-plain (c ∷ name) rest h q,
        has_wildcard-plain (c ∷ name) h,
      )
      refl
  where
    not_bracket : (c : ℕ) → is_plain c && every is_plain name ≡ true → nat_eq c b'[' ≡ false
    not_bracket c h = ground arith

quote-brackets :
    (mark : Mark) (key : Text)
    → every in_brackets key ≡ true
    → every in_brackets (quote mark key) ≡ true
quote-brackets single key h = every-append in_brackets key (39 ∷ []) h refl
quote-brackets double key h = every-append in_brackets key (34 ∷ []) h refl

bracket_step-quoted :
    (mark : Mark) (key rest : Text)
    → is_spelling (quoted mark key) ≡ true
    → bracket_step (quote mark key ++ (b']' ∷ rest)) ≡ inr (key_step key, trim_prefix b'.' rest)
unfolding bracket_step
bracket_step-quoted mark key rest h =
    rw
      (
        bracket_step,
        cut_bracket-inner (quote mark key) rest (quote-brackets mark key h),
        unquote-quote mark key,
      )
      refl

bracket_step-indexed :
    (n : ℤ) (rest : Text)
    → is_spelling (indexed n) ≡ true
    → bracket_step (show_index n ++ (b']' ∷ rest)) ≡ inr (index_step n, trim_prefix b'.' rest)
unfolding bracket_step index_of
bracket_step-indexed n rest h =
    rw
      (
        bracket_step,
        index_of,
        cut_bracket-inner (show_index n) rest (show_index-brackets n),
        unquote-show_index n,
        parse_int64-show_index n h,
      )
      refl

pub compile_loop-spell :
    (sp : Spelling) (rest : Text) (left : ℕ)
    → is_spelling sp ≡ true
    → begins_step rest ≡ true
    → compile_loop (suc left) (trim_prefix b'.' (spell sp rest))
      ≡ followed_by (step_of sp) (compile_loop left (trim_prefix b'.' rest))
unfolding compile_loop trim_prefix spell next_step
compile_loop-spell (dotted name) rest left h q = next_step-dotted name rest left h q
compile_loop-spell (quoted mark key) rest left h q =
    rw (compile_loop, next_step, bracket_step-quoted mark key rest h) refl
compile_loop-spell (indexed n) rest left h q =
    rw (compile_loop, next_step, bracket_step-indexed n rest h) refl

pub begins_step-spell : (sp : Spelling) (rest : Text) → begins_step (spell sp rest) ≡ true
unfolding spell
begins_step-spell (dotted name) rest = refl
begins_step-spell (quoted mark key) rest = refl
begins_step-spell (indexed n) rest = refl
