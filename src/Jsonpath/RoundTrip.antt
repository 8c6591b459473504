-- ===== src/Jsonpath/RoundTrip.antt =====
-- A path that is written out compiles to its steps.
use status_hub.Prelude.{
  ℕ, zero, suc, ◌≤◌, ◌≡◌, refl, ap, ◌∙◌, Bool, true, false, not, ◌&&◌, ◌++◌, ◌∷◌, [], List, map,
  length, inr, if◌then◌else◌, arith, ltb, and_false, Text, text_Eq, text_eq,
}
use status_hub.Domain.Amount.{is_space, trim_left, trim_right, trim_space}
use status_hub.Jsonpath.{
  max_depth, max_path_length, byte_length, trim_prefix, followed_by, compile_loop, within_depth,
  compile_raw, compile,
}
use status_hub.Jsonpath.Spelling.{
  Spelling, dotted, quoted, indexed, step_of, is_plain, every, is_empty, is_spelling, show_index,
  quote, spell, begins_step, compile_loop-spell, begins_step-spell,
}

unfoldable pub spell_all : List Spelling → Text
spell_all [] = []
spell_all (sp ∷ sps) = spell sp (spell_all sps)

abbrev pub all_spellings : List Spelling → Bool
all_spellings [] = true
all_spellings (sp ∷ sps) = is_spelling sp && all_spellings sps

-- The text does not end with white space.
abbrev solid : Text → Bool
solid [] = true
solid (c ∷ []) = not (is_space c)
solid (_ ∷ d ∷ s) = solid (d ∷ s)

trim_right-solid : (s : Text) → solid s ≡ true → trim_right is_space s ≡ s
unfolding trim_right
trim_right-solid [] h = refl
trim_right-solid (c ∷ []) h = ground arith
trim_right-solid (c ∷ d ∷ s) h = rw (trim_right-solid (d ∷ s) h) (kept c)
  where
    kept : (c : ℕ) → (if is_space c && text_eq (d ∷ s) [] then [] else c ∷ d ∷ s) ≡ c ∷ d ∷ s
    kept c = unfold text_eq in rw (and_false (is_space c)) refl

solid-cons : (c : ℕ) (s : Text) → is_space c ≡ false → solid s ≡ true → solid (c ∷ s) ≡ true
solid-cons c [] p h = ap not p
solid-cons c (d ∷ s) p h = h

solid-append : (s t : Text) (c : ℕ) → solid (c ∷ t) ≡ true → solid (s ++ (c ∷ t)) ≡ true
solid-append [] t c h = h
solid-append (d ∷ []) t c h = h
solid-append (d ∷ e ∷ s) t c h = solid-append (e ∷ s) t c h

solid-name :
    (name rest : Text)
    → every is_plain name ≡ true
    → solid rest ≡ true
    → solid (name ++ rest) ≡ true
solid-name [] rest p h = h
solid-name (c ∷ name) rest p h =
    solid-cons c (name ++ rest) (not_space c p) (solid-name name rest (plain c p) h)
  where
    not_space : (c : ℕ) → is_plain c && every is_plain name ≡ true → is_space c ≡ false
    not_space c p = ground arith

    plain : (c : ℕ) → is_plain c && every is_plain name ≡ true → every is_plain name ≡ true
    plain c p = ground arith

bracketed : (inner rest : Text) → solid rest ≡ true → solid (b'[' ∷ (inner ++ (b']' ∷ rest))) ≡ true
unfolding is_space
bracketed inner rest h = solid-append (b'[' ∷ inner) rest b']' (solid-cons b']' rest refl h)

solid-spell :
    (sp : Spelling) (rest : Text)
    → is_spelling sp ≡ true
    → solid rest ≡ true
    → solid (spell sp rest) ≡ true
unfolding spell is_space
solid-spell (dotted name) rest p h =
    solid-cons b'.' (name ++ rest) refl (solid-name name rest (plain name p) h)
  where
    plain :
        (name : Text)
        → not (is_empty name) && every is_plain name ≡ true
        → every is_plain name ≡ true
    plain name p = ground arith
solid-spell (quoted mark key) rest p h = bracketed (quote mark key) rest h
solid-spell (indexed n) rest p h = bracketed (show_index n) rest h

split :
    (sp : Spelling) (sps : List Spelling)
    → all_spellings (sp ∷ sps) ≡ true
    → (is_spelling sp ≡ true) × (all_spellings sps ≡ true)
split sp sps h = ground arith

solid-spell_all : (sps : List Spelling) → all_spellings sps ≡ true → solid (spell_all sps) ≡ true
unfolding spell_all
solid-spell_all [] h = refl
solid-spell_all (sp ∷ sps) h =
    let (p, q) = split sp sps h in solid-spell sp (spell_all sps) p (solid-spell_all sps q)

begins_step-spell_all : (sps : List Spelling) → begins_step (spell_all sps) ≡ true
unfolding spell_all
begins_step-spell_all [] = refl
begins_step-spell_all (sp ∷ sps) = begins_step-spell sp (spell_all sps)

compile_loop-spell_all :
    (sps : List Spelling) (left : ℕ)
    → all_spellings sps ≡ true
    → length sps ≤ left
    → compile_loop left (trim_prefix b'.' (spell_all sps)) ≡ inr (map step_of sps)
unfolding spell_all
compile_loop-spell_all [] left h fits = unfold compile_loop trim_prefix in refl
compile_loop-spell_all (sp ∷ sps) zero h fits = absurd (omega (arith, fits))
compile_loop-spell_all (sp ∷ sps) (suc left) h fits =
    let (p, q) = split sp sps h in
    compile_loop-spell sp (spell_all sps) left p (begins_step-spell_all sps)
    ∙ ap (followed_by (step_of sp)) (compile_loop-spell_all sps left q (omega (arith, fits)))
    ∙ (unfold followed_by in refl)

length-map : (sps : List Spelling) → length (map step_of sps) ≡ length sps
length-map [] = refl
length-map (sp ∷ sps) = ap suc (length-map sps)

dollar : (s : Text) → trim_prefix b'$' (b'$' ∷ s) ≡ s
unfolding trim_prefix
dollar s = refl

not_above : {a b : ℕ} → a ≤ b → ltb b a ≡ false
not_above h = ground (arith, h)

-- A path of at most 10 steps in at most 256 bytes, written as `$` and then each step as `.name`, as
-- `['key']`, `["key"]` or `[index]`, compiles to these steps. A name is not empty and has no white
-- space and none of `. [ * ?`, a key has no `]`, and an index is within int64.
pub compile-spell_all :
    (sps : List Spelling)
    → all_spellings sps ≡ true
    → length sps ≤ max_depth
    → byte_length (b'$' ∷ spell_all sps) ≤ max_path_length
    → compile (b'$' ∷ spell_all sps)
      ≡ inr (record { raw = b'$' ∷ spell_all sps; steps = map step_of sps })
unfolding compile trim_space trim_left is_space compile_raw text_eq
compile-spell_all sps h few short =
    rw
      (
        trim_right-solid (b'$' ∷ spell_all sps)
            (solid-cons b'$' (spell_all sps) refl (solid-spell_all sps h)),
        not_above short,
      )
      (ap (λ (t : Text). within_depth (b'$' ∷ spell_all sps) (compile_loop 11 (trim_prefix b'.' t)))
          (dollar (spell_all sps))
        ∙ ap (within_depth (b'$' ∷ spell_all sps))
            (compile_loop-spell_all sps 11 h (omega (arith, few)))
        ∙ (unfold within_depth in rw (length-map sps, not_above few) refl))
