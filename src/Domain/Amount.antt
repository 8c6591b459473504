-- ===== src/Domain/Amount.antt =====
-- internal/domain/amount.go: amounts of money as integers of minor units. A text is its list of
-- runes; each test of a byte in the code is for an ASCII character, which no other rune contains.
-- Every error wraps ErrAmountUnrepresentable, and is `none`.
pub mod Digits
pub mod Written
pub mod Parsing
pub mod Complete
pub mod Exact
pub mod RoundTrip
use status_hub.Prelude.{
  ℕ, zero, suc, ◌+◌, ◌-◌, ◌*◌, ◌/◌, ◌%◌, ◌^◌, Bool, true, false, ◌&&◌, ◌||◌, not, Option, none,
  some, List, [], ◌∷◌, ◌++◌, map, length, take, replicate, ltb, leb, nat_eq, if◌then◌else◌, ◌==◌,
  Text, text_Eq, codes, in_range, ℤ, pos, negsuc, Dict, lookup, decimal,
}

abbrev pub exponents : ℕ → List Text → Dict Text ℕ → Dict Text ℕ
exponents e [] rest = rest
exponents e (c ∷ cs) rest = (c, e) ∷ exponents e cs rest

unfoldable pub minor_unit_exponents : Dict Text ℕ
minor_unit_exponents =
    exponents 2
      (codes "NGN"
        ∷ codes "USD"
        ∷ codes "EUR"
        ∷ codes "GBP"
        ∷ codes "GHS"
        ∷ codes "KES"
        ∷ codes "ZAR"
        ∷ codes "TZS"
        ∷ codes "EGP"
        ∷ codes "MAD"
        ∷ codes "ZMW"
        ∷ codes "CAD"
        ∷ codes "AUD"
        ∷ codes "CHF"
        ∷ codes "CNY"
        ∷ codes "INR"
        ∷ codes "BRL"
        ∷ [])
      (exponents 0
        (codes "UGX"
          ∷ codes "RWF"
          ∷ codes "XOF"
          ∷ codes "XAF"
          ∷ codes "JPY"
          ∷ codes "KRW"
          ∷ codes "VND"
          ∷ codes "CLP"
          ∷ codes "ISK"
          ∷ codes "PYG"
          ∷ [])
        (exponents 3
          (codes "BHD"
            ∷ codes "IQD"
            ∷ codes "JOD"
            ∷ codes "KWD"
            ∷ codes "LYD"
            ∷ codes "OMR"
            ∷ codes "TND"
            ∷ [])
          []))

-- unicode.IsSpace.
unfoldable pub is_space : ℕ → Bool
is_space c =
    in_range 9 13 c
    || nat_eq c 0x20
    || nat_eq c 0x85
    || nat_eq c 0xa0
    || nat_eq c 0x1680
    || in_range 0x2000 0x200a c
    || in_range 0x2028 0x2029 c
    || nat_eq c 0x202f
    || nat_eq c 0x205f
    || nat_eq c 0x3000

unfoldable pub trim_left : (ℕ → Bool) → Text → Text
trim_left drops [] = []
trim_left drops (c ∷ s) = let t = trim_left drops s in if drops c then t else c ∷ s

unfoldable pub trim_right : (ℕ → Bool) → Text → Text
trim_right drops [] = []
trim_right drops (c ∷ s) = let t = trim_right drops s in if drops c && (t == []) then [] else c ∷ t

unfoldable pub trim_space : Text → Text
trim_space s = trim_right is_space (trim_left is_space s)

-- unicode.ToUpper, as far as its result is an ASCII letter: of the other runes only U+0131 and
-- U+017F have one.
unfoldable pub upper : ℕ → ℕ
upper c =
    if in_range b'a' b'z' c
    then c - 32
    else if nat_eq c 0x131
    then b'I'
    else if nat_eq c 0x17f
    then b'S'
    else c

unfoldable pub normalise_currency : Text → Text
normalise_currency c = map upper (trim_space c)

abbrev pub known_or_guess : Option ℕ → ℕ × Bool
known_or_guess none = (2, false)
known_or_guess (some e) = (e, true)

unfoldable pub minor_unit_exponent : Text → ℕ × Bool
minor_unit_exponent currency =
    known_or_guess (lookup (normalise_currency currency) minor_unit_exponents)

abbrev all_upper : Text → Bool
all_upper [] = true
all_upper (c ∷ s) = in_range b'A' b'Z' c && all_upper s

unfoldable pub valid_currency : Text → Bool
valid_currency c = let n = normalise_currency c in nat_eq (length n) 3 && all_upper n

unfoldable pub is_digit : ℕ → Bool
is_digit c = in_range b'0' b'9' c

unfoldable pub all_digits : Text → Bool
all_digits [] = true
all_digits (c ∷ s) = is_digit c && all_digits s

abbrev pub is_zero : ℕ → Bool
is_zero c = nat_eq c b'0'

-- strings.Cut(s, "."): before and after the first point, and whether there is one.
unfoldable pub cut_point : Text → Text × Text × Bool
cut_point [] = ([], [], false)
cut_point (c ∷ s) =
    let (before, after, found) = cut_point s in
    if nat_eq c b'.' then ([], s, true) else (c ∷ before, after, found)

-- The number that decimal digits stand for.
unfoldable pub digits_value : ℕ → Text → ℕ
digits_value acc [] = acc
digits_value acc (c ∷ s) = digits_value (acc * 10 + (c - b'0')) s

abbrev pub max_int64 : ℕ
max_int64 = 2 ^ 63 - 1

-- The optional sign, and what follows it.
unfoldable pub take_sign : Text → Bool × Text
take_sign [] = (false, [])
take_sign (c ∷ s) =
    if nat_eq c b'-' then (true, s) else if nat_eq c b'+' then (false, s) else (false, c ∷ s)

abbrev pub negate : ℕ → ℤ
negate zero = pos 0
negate (suc n) = negsuc n

-- strconv.ParseInt(s, 10, 64).
unfoldable pub parse_int64 : Text → Option ℤ
parse_int64 s =
    let (neg, ds) = take_sign s in
    if (ds == []) || not (all_digits ds)
    then none
    else (let v = digits_value 0 ds in
        if neg
        then (if ltb (max_int64 + 1) v then none else some (negate v))
        else (if ltb max_int64 v then none else some (pos v)))

-- The fraction brought to `exp` digits: the loops that cut zeros and that append them.
unfoldable pub scale_fraction : ℕ → Text → Option Text
scale_fraction exp frac =
    if ltb exp (length frac)
    then (if ltb exp (length (trim_right is_zero frac)) then none else some (take exp frac))
    else some (frac ++ replicate (exp - length frac) b'0')

-- From the digits of the amount on; they have no sign.
unfoldable pub signed_amount : Bool → Text → Option ℤ
signed_amount neg ds =
    let digits = trim_left is_zero ds in
    if digits == []
    then some (pos 0)
    else (let v = digits_value 0 digits in
        if ltb max_int64 v then none else some (if neg then negate v else pos v))

unfoldable pub unsigned_decimal : Bool → Text → ℕ → Option ℤ
unsigned_decimal neg s exp =
    let (int, frac, has_frac) = cut_point s in
    if (int == []) && not has_frac
    then none
    else if not (all_digits int) || (has_frac && not (all_digits frac))
    then none
    else elim (scale_fraction exp frac) [ none ↦ none | some f ↦ signed_amount neg (int ++ f) ]

unfoldable pub decimal_to_minor : Text → ℕ → Option ℤ
decimal_to_minor amount exp =
    let s = trim_space amount in
    let (neg, rest) = take_sign s in if s == [] then none else unsigned_decimal neg rest exp

unfoldable pub major_to_minor : Text → Text → Option ℤ
major_to_minor amount currency = decimal_to_minor amount (minor_unit_exponent currency).0

unfoldable pub parse_minor : Text → Option ℤ
parse_minor amount =
    let s = trim_space amount in
    let (int, frac, has_frac) = cut_point s in
    if s == []
    then none
    else if has_frac
    then (if trim_left is_zero frac == [] then parse_int64 int else none)
    else parse_int64 s

-- %0*d of a natural number.
unfoldable pub padded : ℕ → ℕ → Text
padded width n = let d = decimal n in replicate (width - length d) b'0' ++ d

-- The rendering of an amount that is not negative.
unfoldable pub show_major : ℕ → ℕ → Text
show_major exp n = decimal (n / 10 ^ exp) ++ (b'.' ∷ padded exp (n % 10 ^ exp))

-- `minor = -minor` leaves -2^63 as it is, and Go's division and %d keep its sign in both parts.
-- For that value the padding of its fraction counts the sign.
unfoldable pub minor_to_major : ℤ → Text → Text
minor_to_major (pos n) currency =
    let exp = (minor_unit_exponent currency).0 in
    if nat_eq exp 0 then decimal n else show_major exp n
minor_to_major (negsuc n) currency =
    let exp = (minor_unit_exponent currency).0 in
    let frac = decimal ((n + 1) % 10 ^ exp) in
    if nat_eq exp 0
    then b'-' ∷ decimal (n + 1)
    else if nat_eq n max_int64
    then b'-' ∷ b'-' ∷ decimal ((n + 1) / 10 ^ exp)
      ++ (b'.' ∷ b'-' ∷ replicate (exp - 1 - length frac) b'0' ++ frac)
    else b'-' ∷ show_major exp (n + 1)
