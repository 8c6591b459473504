-- ===== src/Jsonpath.antt =====
-- internal/jsonpath/jsonpath.go: paths into a JSON document. A text is its list of runes; its length in
-- bytes is that of its UTF-8. What an error says beyond its kind is left out.
pub mod Value
pub mod Spelling
pub mod RoundTrip
pub mod Bounds
use status_hub.Prelude.{
  ℕ, zero, suc, ◌+◌, ◌-◌, Bool, true, false, not, ◌&&◌, ◌||◌, ◌∷◌, [], List, length, Option, none,
  some, ◌⊎◌, inl, inr, ◌==◌, if◌then◌else◌, nat_eq, ltb, leb, Text, text_Eq, codes, ℤ, pos, negsuc,
}
use status_hub.Domain.Amount.{trim_space, parse_int64}

abbrev pub max_depth : ℕ
max_depth = 10

abbrev pub max_path_length : ℕ
max_path_length = 256

pub data PathError : Type 0 where
  empty_path : PathError
  too_deep : PathError
  too_long : PathError
  malformed : PathError
  unbracket : PathError

pub data Step : Type 0 where
  key_step : Text → Step
  index_step : ℤ → Step

pub record CompiledPath : Type 0 where
  pub raw : Text
  pub steps : List Step

abbrev pub rune_length : ℕ → ℕ
rune_length c = if ltb c 0x80 then 1 else if ltb c 0x800 then 2 else if ltb c 0x10000 then 3 else 4

-- len.
unfoldable pub byte_length : Text → ℕ
byte_length [] = 0
byte_length (c ∷ s) = rune_length c + byte_length s

-- strings.TrimPrefix with a prefix of one character.
unfoldable pub trim_prefix : ℕ → Text → Text
trim_prefix p [] = []
trim_prefix p (c ∷ s) = if nat_eq c p then s else c ∷ s

-- Before and after the first closing bracket.
unfoldable pub cut_bracket : Text → Option (Text × Text)
cut_bracket [] = none
cut_bracket (c ∷ s) =
    let rest = cut_bracket s in
    if nat_eq c b']'
    then some ([], s)
    else elim rest [ none ↦ none | some (inner, after) ↦ some (c ∷ inner, after) ]

abbrev pub is_stop : ℕ → Bool
is_stop c = nat_eq c b'.' || nat_eq c b'['

-- A name, and what follows from the first stop on.
unfoldable pub split_name : Text → Text × Text
split_name [] = ([], [])
split_name (c ∷ s) =
    let (name, after) = split_name s in if is_stop c then ([], c ∷ s) else (c ∷ name, after)

unfoldable pub has_wildcard : Text → Bool
has_wildcard [] = false
has_wildcard (c ∷ s) = nat_eq c b'*' || nat_eq c b'?' || has_wildcard s

-- What is before the last character, if that is the quote.
unfoldable pub before_quote : ℕ → Text → Option Text
before_quote q [] = none
before_quote q (c ∷ []) = if nat_eq c q then some [] else none
before_quote q (c ∷ d ∷ s) = elim (before_quote q (d ∷ s)) [ none ↦ none | some t ↦ some (c ∷ t) ]

-- The key between quotes.
unfoldable pub unquote : Text → Option Text
unquote [] = none
unquote (q ∷ s) = if nat_eq q 39 || nat_eq q 34 then before_quote q s else none

-- strconv.Atoi.
unfoldable pub index_of : Text → PathError ⊎ Step
index_of inner = elim (parse_int64 inner) [ none ↦ inl malformed | some n ↦ inr (index_step n) ]

unfoldable pub bracket_step : Text → PathError ⊎ (Step × Text)
bracket_step s = elim (cut_bracket s) [
  | none ↦ inl unbracket
  | some (inner, after) ↦ elim (unquote inner) [
    | some key ↦ inr (key_step key, trim_prefix b'.' after)
    | none ↦ elim (index_of inner) [ inl e ↦ inl e | inr step ↦ inr (step, trim_prefix b'.' after) ]
  ]
]

unfoldable pub name_step : Text → PathError ⊎ (Step × Text)
name_step s =
    let (name, after) = split_name s in
    if name == []
    then inl malformed
    else if has_wildcard name
    then inl malformed
    else inr (key_step name, trim_prefix b'.' after)

-- One round of the loop, on the text that starts with this character.
unfoldable pub next_step : ℕ → Text → PathError ⊎ (Step × Text)
next_step c s = if nat_eq c b'[' then bracket_step s else name_step (c ∷ s)

unfoldable pub followed_by : Step → PathError ⊎ List Step → PathError ⊎ List Step
followed_by step (inl e) = inl e
followed_by step (inr steps) = inr (step ∷ steps)

-- The loop, when as many more steps may begin.
unfoldable pub compile_loop : ℕ → Text → PathError ⊎ List Step
compile_loop left [] = inr []
compile_loop zero (c ∷ s) = inl too_deep
compile_loop (suc left) (c ∷ s) = elim (next_step c s) [
  | inl e ↦ inl e
  | inr (step, after) ↦ followed_by step (compile_loop left after)
]

unfoldable pub within_depth : Text → PathError ⊎ List Step → PathError ⊎ CompiledPath
within_depth raw (inl e) = inl e
within_depth raw (inr steps) =
    if ltb max_depth (length steps) then inl too_deep else inr (record { raw = raw; steps = steps })

-- From the trimmed text on. The loop begins a step while it has at most MaxDepth of them.
unfoldable pub compile_raw : Text → PathError ⊎ CompiledPath
compile_raw raw =
    if raw == []
    then inl empty_path
    else if ltb max_path_length (byte_length raw)
    then inl too_long
    else within_depth raw (compile_loop (max_depth + 1) (trim_prefix b'.' (trim_prefix b'$' raw)))

unfoldable pub compile : Text → PathError ⊎ CompiledPath
compile expr = compile_raw (trim_space expr)

unfoldable pub keys : List Step → List Text
keys [] = []
keys (key_step key ∷ steps) = key ∷ keys steps
keys (index_step _ ∷ steps) = keys steps

unfoldable pub root : List Step → Text
root [] = []
root (key_step key ∷ _) = key
root (index_step _ ∷ _) = []
