-- ===== src/Tests/AmountTests.antt =====
-- Amounts at concrete texts and numbers of minor units.
use status_hub.Prelude.{
  ◌-◌, ◌^◌, ◌≡◌, refl, none, some, true, arith, Text, codes, pos, negsuc, digits, decimal, text_eq,
  lookup,
}
use status_hub.Domain.Amount.{
  minor_unit_exponents, is_space, trim_left, trim_right, trim_space, upper, normalise_currency,
  minor_unit_exponent, valid_currency, is_digit, all_digits, cut_point, digits_value, take_sign,
  parse_int64, scale_fraction, signed_amount, unsigned_decimal, decimal_to_minor, major_to_minor,
  parse_minor, padded, show_major, minor_to_major,
}
use status_hub.Domain.Amount.RoundTrip.{IsNegatable, major_to_minor-minor_to_major}
use status_hub.Domain.Amount.Written.{minus, decimal_places}
use status_hub.Domain.Amount.Exact.{IsWorth, major_to_minor-IsWorth}
use status_hub.Domain.Amount.Complete.{major_to_minor_complete}

abbrev naira : Text
naira = codes "NGN"

rendered_amount : minor_to_major (negsuc 813454) (codes " ngn") ≡ codes "-8134.55"
unfolding minor_to_major minor_unit_exponent normalise_currency minor_unit_exponents trim_space
    trim_left trim_right is_space upper show_major padded decimal digits lookup text_eq
rendered_amount = refl

rendered_dinar : minor_to_major (pos 1005) (codes "KWD") ≡ codes "1.005"
unfolding minor_to_major minor_unit_exponent normalise_currency minor_unit_exponents trim_space
    trim_left trim_right is_space upper show_major padded decimal digits lookup text_eq
rendered_dinar = refl

-- The least int64 has no negation, and its rendering is no decimal.
rendered_least : minor_to_major (negsuc (2 ^ 63 - 1)) naira ≡ codes "--92233720368547758.-8"
unfolding minor_to_major minor_unit_exponent normalise_currency minor_unit_exponents trim_space
    trim_left trim_right is_space upper show_major padded decimal digits lookup text_eq
rendered_least = refl

-- A point without digits is read as zero.
read_point : major_to_minor (codes "-.") naira ≡ some (pos 0)
unfolding major_to_minor minor_unit_exponent normalise_currency minor_unit_exponents trim_space
    trim_left trim_right is_space upper lookup text_eq decimal_to_minor take_sign unsigned_decimal
    cut_point all_digits is_digit scale_fraction signed_amount
read_point = refl

read_too_precise : major_to_minor (codes "8134.555") naira ≡ none
unfolding major_to_minor minor_unit_exponent normalise_currency minor_unit_exponents trim_space
    trim_left trim_right is_space upper lookup text_eq decimal_to_minor take_sign unsigned_decimal
    cut_point all_digits is_digit scale_fraction signed_amount
read_too_precise = refl

read_minor : parse_minor (codes " +250.00 ") ≡ some (pos 250)
unfolding parse_minor trim_space trim_left trim_right is_space text_eq take_sign cut_point
    all_digits is_digit digits_value parse_int64
read_minor = refl

currency_checked : valid_currency (codes " ngn") ≡ true
unfolding valid_currency normalise_currency trim_space trim_left trim_right is_space upper text_eq
currency_checked = refl

major_to_minor-minor_to_major_example :
    major_to_minor (minor_to_major (negsuc 813454) naira) naira ≡ some (negsuc 813454)
major_to_minor-minor_to_major_example =
    major_to_minor-minor_to_major (negsuc 813454) naira (unfold IsNegatable in omega arith)

major_to_minor_complete_example : major_to_minor (codes " -8134.5500") naira ≡ some (negsuc 813454)
unfolding all_digits is_digit digits_value normalise_currency trim_space trim_left trim_right
    is_space upper text_eq decimal_places
major_to_minor_complete_example =
    major_to_minor_complete minus (codes " -8134.5500") (codes "8134") (codes "5500") naira 813455
      refl refl refl (omega arith) refl

major_to_minor-IsWorth_example : IsWorth true (negsuc 813454) 81345500 4 2
unfolding all_digits is_digit digits_value normalise_currency trim_space trim_left trim_right
    is_space upper text_eq decimal_places
major_to_minor-IsWorth_example =
    major_to_minor-IsWorth minus (codes " -8134.5500") (codes "8134") (codes "5500") naira
      (negsuc 813454) refl refl refl major_to_minor_complete_example
