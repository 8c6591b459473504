-- ===== src/Domain/Amount/Written.antt =====
-- How a decimal amount may be written, and how many decimal places a currency has, apart from the code.
use mathlib.Core.Path.{subst}
use status_hub.Prelude.{
  ℕ, ◌≡◌, refl, sym, All, text_eq_iff, ap, ◌∙◌, Bool, true, false, ◌||◌, ◌∷◌, [], ◌++◌, List,
  Option, some, arith, if◌then◌else◌, ◌==◌, Text, text_Eq, text_eq, codes, lookup, Dict, Bool-cases,
  inl, inr,
}
use status_hub.Domain.Amount.{
  all_digits, is_digit, trim_space, take_sign, unsigned_decimal, decimal_to_minor,
  normalise_currency, exponents, known_or_guess, minor_unit_exponents, minor_unit_exponent,
}

pub data Sign : Type 0 where
  unsigned minus plus : Sign

abbrev pub is_minus : Sign → Bool
is_minus minus = true
is_minus _ = false

-- The digits `s`, a point and the digits `f`, under a sign.
abbrev pub written : Sign → Text → Text → Text
written unsigned s f = s ++ (46 ∷ f)
written minus s f = 45 ∷ s ++ (46 ∷ f)
written plus s f = 43 ∷ s ++ (46 ∷ f)

take_sign-written :
    (sign : Sign) (s f : Text)
    → all_digits s ≡ true
    → take_sign (written sign s f) ≡ (is_minus sign, s ++ (46 ∷ f))
unfolding take_sign all_digits is_digit
take_sign-written unsigned [] f h = refl
take_sign-written unsigned (c ∷ s) f h = ground arith
take_sign-written minus s f h = refl
take_sign-written plus s f h = refl

written-full : (sign : Sign) (s f : Text) → text_eq (written sign s f) [] ≡ false
unfolding text_eq
written-full unsigned [] f = refl
written-full unsigned (c ∷ s) f = refl
written-full minus s f = refl
written-full plus s f = refl

pub decimal_to_minor-written :
    (sign : Sign) (amount s f : Text) (e : ℕ)
    → trim_space amount ≡ written sign s f
    → all_digits s ≡ true
    → decimal_to_minor amount e ≡ unsigned_decimal (is_minus sign) (s ++ (46 ∷ f)) e
unfolding decimal_to_minor
decimal_to_minor-written sign amount s f e h d =
    rw (h, written-full sign s f, take_sign-written sign s f d) refl

abbrev is_among : Text → List Text → Bool
is_among c [] = false
is_among c (d ∷ ds) = (d == c) || is_among c ds

-- The currencies that have no minor unit, and those that have thousandths.
abbrev without_minor_unit : List Text
without_minor_unit =
    codes "UGX"
    ∷ codes "RWF"
    ∷ codes "XOF"
    ∷ codes "XAF"
    ∷ codes "JPY"
    ∷ codes "KRW"
    ∷ codes "VND"
    ∷ codes "CLP"
    ∷ codes "ISK"
    ∷ codes "PYG"
    ∷ []

abbrev with_thousandths : List Text
with_thousandths =
    codes "BHD"
    ∷ codes "IQD"
    ∷ codes "JOD"
    ∷ codes "KWD"
    ∷ codes "LYD"
    ∷ codes "OMR"
    ∷ codes "TND"
    ∷ []

-- Hundredths, but for the currencies of these lists.
unfoldable pub decimal_places : Text → ℕ
decimal_places c =
    if is_among c without_minor_unit then 0 else if is_among c with_thousandths then 3 else 2

-- The other currencies that the code knows.
abbrev with_hundredths : List Text
with_hundredths =
    codes "NGN"
    ∷ codes "USD"
    ∷ codes "EUR"
    ∷ codes "GBP"
    ∷ codes "GHS"
    ∷ codes "KES"
    ∷ codes "ZAR"
    ∷ codes "TZS"
    ∷ codes "EGP"
    ∷ codes "MAD"
    ∷ codes "ZMW"
    ∷ codes "CAD"
    ∷ codes "AUD"
    ∷ codes "CHF"
    ∷ codes "CNY"
    ∷ codes "INR"
    ∷ codes "BRL"
    ∷ []

module _ (e : ℕ) (c : Text) (rest : Dict Text ℕ) where
  exponents-known :
      (cs : List Text) → is_among c cs ≡ true → lookup c (exponents e cs rest) ≡ some e
  unfolding lookup
  exponents-known [] h = absurd (ground arith)
  exponents-known (d ∷ cs) h = ground (arith, exponents-known cs)

  exponents-other :
      (cs : List Text) → is_among c cs ≡ false → lookup c (exponents e cs rest) ≡ lookup c rest
  unfolding lookup
  exponents-other [] h = refl
  exponents-other (d ∷ cs) h = ground (arith, exponents-other cs)

All-among : (P : Text → Type 0) (c : Text) (cs : List Text) → All P cs → is_among c cs ≡ true → P c
All-among P c [] h k = absurd (ground arith)
All-among P c (d ∷ cs) h k = elim (Bool-cases (d == c)) [
  | inl p ↦ subst P ((text_eq_iff d c).0 p) h.0
  | inr p ↦ All-among P c cs h.1 (ground arith)
]

hundredths-places : All (λ c. decimal_places c ≡ 2) with_hundredths
unfolding decimal_places text_eq
hundredths-places = (
  refl,
  (
    refl,
    (
      refl,
      (
        refl,
        (
          refl,
          (
            refl,
            (
              refl,
              (refl, (refl, (refl, (refl, (refl, (refl, (refl, (refl, (refl, (refl, tt)))))))))),
            ),
          ),
        ),
      ),
    ),
  ),
)

abbrev thousandths : Dict Text ℕ
thousandths = exponents 3 with_thousandths []

abbrev no_minor_unit : Dict Text ℕ
no_minor_unit = exponents 0 without_minor_unit thousandths

known-places : (c : Text) → (known_or_guess (lookup c minor_unit_exponents)).0 ≡ decimal_places c
unfolding minor_unit_exponents decimal_places lookup
known-places c =
    let place : Option ℕ → ℕ = λ o. (known_or_guess o).0 in
    elim (Bool-cases (is_among c with_hundredths)) [
      | inl h ↦
          ap place (exponents-known 2 c no_minor_unit with_hundredths h)
          ∙ sym (All-among (λ d. decimal_places d ≡ 2) c with_hundredths hundredths-places h)
      | inr h ↦
          ap place (exponents-other 2 c no_minor_unit with_hundredths h)
          ∙ elim (Bool-cases (is_among c without_minor_unit)) [
            | inl z ↦ ap place (exponents-known 0 c thousandths without_minor_unit z) ∙ rw z refl
            | inr z ↦
                ap place (exponents-other 0 c thousandths without_minor_unit z)
                ∙ elim (Bool-cases (is_among c with_thousandths)) [
                  | inl t ↦ ap place (exponents-known 3 c [] with_thousandths t) ∙ rw (z, t) refl
                  | inr t ↦ ap place (exponents-other 3 c [] with_thousandths t) ∙ rw (z, t) refl
                ]
          ]
    ]

pub minor_unit_exponent-places :
    (currency : Text)
    → (minor_unit_exponent currency).0 ≡ decimal_places (normalise_currency currency)
unfolding minor_unit_exponent
minor_unit_exponent-places currency = known-places (normalise_currency currency)
