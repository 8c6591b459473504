-- ===== src/Tests/RedactTests.antt =====
-- Card numbers, among them a test number of a card scheme, and numbers that are none.
use status_hub.Prelude.{◌≡◌, refl, true, false, ◌++◌, [], Text, codes, arith, decimal, digits}
use status_hub.Redact.{
  luhn_loop, luhn, candidate_loop, scan_candidate, is_card, scan_loop, scan, describe,
}
use status_hub.Redact.Scanning.{IsCard, scan-card}

abbrev card : Text
card = codes "4111111111111111"

spaced_card : (scan (codes "pan 4111-1111 1111-1111, ok")).body ≡ codes "pan [redacted:pan], ok"
unfolding scan scan_loop is_card scan_candidate candidate_loop luhn luhn_loop
spaced_card = refl

long_reference_kept : (scan (codes "41111111111111111111")).redacted ≡ false
unfolding scan scan_loop is_card scan_candidate candidate_loop luhn luhn_loop
long_reference_kept = refl

described :
    describe (record { body = []; pans_found = 2; redacted = true })
    ≡ codes "2 card-number-shaped value(s) replaced before storage"
unfolding describe decimal digits
described = refl

scan-card_example :
    scan (codes "card: " ++ card ++ codes ".")
    ≡ record { body = codes "card: [redacted:pan]."; pans_found = 1; redacted = true }
unfolding IsCard luhn luhn_loop
scan-card_example =
    scan-card (codes "card: ") card (codes ".") refl (refl, omega arith, omega arith, refl) refl
