-- ===== src/Tests/Validation.antt =====
-- The theorems on the texts of amounts, at 19.99 and at -42 cents.
use skrynia.Prelude.{true, refl, ◌≡◌, arith}
use skrynia.Prelude.Int.{pos, negsuc}
use skrynia.Domain.Money.{is_in_range}
use skrynia.Domain.Money.Canonical.{
  bigint_to_money_cents, parse_money_cents, parse-bigint_to_money_cents,
}
use skrynia.Prelude.Decimal.{Text}
use skrynia.Common.Errors.{ok}
use skrynia.Common.Validation.{cents_to_decimal_string, money_to_cents}
use skrynia.Common.Validation.RoundTrip.{money_to_cents-decimal}

money_to_cents-decimal_example :
    (t : Text) × (cents_to_decimal_string (pos 1_999) ≡ ok t) × (money_to_cents t ≡ ok (pos 1_999))
money_to_cents-decimal_example = money_to_cents-decimal 1_999 (omega arith)

owed_fits : is_in_range (negsuc 41) ≡ true
unfolding is_in_range
owed_fits = refl

parse-bigint_to_money_cents_example :
    (t : Text) × (bigint_to_money_cents (negsuc 41) ≡ ok t) × (parse_money_cents t ≡ ok (negsuc 41))
parse-bigint_to_money_cents_example = parse-bigint_to_money_cents (negsuc 41) owed_fits
