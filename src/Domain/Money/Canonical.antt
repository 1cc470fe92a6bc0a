-- ===== src/Domain/Money/Canonical.antt =====
-- The canonical decimal texts of backend/src/domain/money.ts: `bigintToMoneyCents` of a bigint and
-- `parseMoneyCents`.
use skrynia.Prelude.{
  ℕ, zero, suc, ◌+◌, ◌-◌, ◌/◌, ◌%◌, ◌^◌, ◌<◌, ◌≡◌, refl, ap, ◌∙◌, Bool, true, false, ◌&&◌, [], ◌∷◌,
  arith, leb, ◌==◌, if◌then◌else◌,
}
use skrynia.Prelude.Int.{ℤ, pos, negsuc}
use skrynia.Prelude.Decimal.{Text, is_digit, all, digits, to_text, value_after, value-to_text}
use skrynia.Domain.Money.{is_in_range, assert_postgres_bigint_range}
use skrynia.Common.Errors.{Result, ok, err, plain}

-- `value.toString()` of a bigint.
abbrev pub bigint_text : ℤ → Text
bigint_text (pos n) = to_text n
bigint_text (negsuc n) = b'-' ∷ to_text (suc n)

abbrev pub text_or_error : Result ℤ → Result Text
text_or_error (ok v) = ok (bigint_text v)
text_or_error (err e) = err e

-- `bigintToMoneyCents` of a bigint.
unfoldable pub bigint_to_money_cents : ℤ → Result Text
bigint_to_money_cents v = text_or_error (assert_postgres_bigint_range v)

-- `[1-9]\d*`.
unfoldable pub is_positive_text : Text → Bool
is_positive_text [] = false
is_positive_text (c ∷ s) = leb b'1' c && (leb c b'9' && all is_digit s)

-- The value of a text of `CANONICAL_INTEGER_PATTERN`, or nothing for another text.
unfoldable pub canonical_value : Text → Result ℤ
canonical_value [] = err (plain "Money cents must be a canonical integer string")
canonical_value (c ∷ s) =
    if (c == b'0') && no_more s
    then ok (pos 0)
    else if is_positive_text (c ∷ s)
    then ok (pos (value_after 0 (c ∷ s)))
    else if (c == b'-') && is_positive_text s
    then ok (negsuc (value_after 0 s - 1))
    else err (plain "Money cents must be a canonical integer string")
  where
    no_more : Text → Bool
    no_more [] = true
    no_more (d ∷ t) = false

abbrev pub in_range : Result ℤ → Result ℤ
in_range (ok v) = assert_postgres_bigint_range v
in_range (err e) = err e

-- `parseMoneyCents`.
unfoldable pub parse_money_cents : Text → Result ℤ
parse_money_cents s = in_range (canonical_value s)

positive-digits :
    (f n : ℕ) (rest : Text)
    → 0 < n
    → n < 10 ^ suc f
    → all is_digit rest ≡ true
    → is_positive_text (digits (suc f) n rest) ≡ true
unfolding digits is_positive_text
positive-digits zero n rest some_value few h = ground arith
positive-digits (suc f) n rest some_value few h =
    ground (arith, positive-digits f (n / 10) ((b'0' + n % 10) ∷ rest))

positive-to_text : (n : ℕ) → 0 < n → n < 10 ^ 20 → is_positive_text (to_text n) ≡ true
unfolding to_text
positive-to_text n h few = positive-digits 19 n [] h few refl

canonical-positive :
    (t : Text) → is_positive_text t ≡ true → canonical_value t ≡ ok (pos (value_after 0 t))
unfolding canonical_value is_positive_text
canonical-positive [] h = cc
canonical-positive (c ∷ s) h = ground arith

canonical-negative :
    (t : Text)
    → is_positive_text t ≡ true
    → canonical_value (b'-' ∷ t) ≡ ok (negsuc (value_after 0 t - 1))
unfolding canonical_value is_positive_text
canonical-negative t h = ground arith

zero_text : canonical_value (to_text 0) ≡ ok (pos 0)
unfolding canonical_value to_text digits
zero_text = refl

canonical-bigint_text : (v : ℤ) → is_in_range v ≡ true → canonical_value (bigint_text v) ≡ ok v
unfolding is_in_range
canonical-bigint_text (pos zero) h = zero_text
canonical-bigint_text (pos (suc n)) h =
    let few : suc n < 10 ^ 20 = ground arith in
    canonical-positive (to_text (suc n)) (positive-to_text (suc n) (omega arith) few)
    ∙ ap (λ m. ok (pos m)) (value-to_text (suc n) few)
canonical-bigint_text (negsuc n) h =
    let few : suc n < 10 ^ 20 = ground arith in
    let exact = value-to_text (suc n) few in
    let less : value_after 0 (to_text (suc n)) - 1 ≡ n = omega arith in
    canonical-negative (to_text (suc n)) (positive-to_text (suc n) (omega arith) few)
    ∙ ap (λ m. ok (negsuc m)) less

-- Every integer in PostgreSQL's bigint range is printed as a canonical text, and that text is parsed as
-- the same integer.
pub parse-bigint_to_money_cents :
    (v : ℤ)
    → is_in_range v ≡ true
    → (t : Text) × (bigint_to_money_cents v ≡ ok t) × (parse_money_cents t ≡ ok v)
unfolding bigint_to_money_cents parse_money_cents is_in_range assert_postgres_bigint_range
parse-bigint_to_money_cents v h =
    let fits : assert_postgres_bigint_range v ≡ ok v = ground arith in
    (bigint_text v, ap text_or_error fits, ap in_range (canonical-bigint_text v h) ∙ fits)
