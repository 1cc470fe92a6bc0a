-- ===== src/Common/Validation/RoundTrip.antt =====
-- An amount that is printed as a decimal text is read back.
use skrynia.Prelude.{
  ℕ, ◌+◌, ◌*◌, ◌/◌, ◌%◌, ◌<◌, ◌≤◌, ◌≡◌, refl, ap, ◌∙◌, Bool, true, false, ◌||◌, [], ◌∷◌, ◌++◌,
  arith,
}
use skrynia.Prelude.Int.{pos}
use skrynia.Prelude.Decimal.{
  Text, is_digit, all, digits, to_text, value_after, starts_with_digit, starts-to_text, all-to_text,
  value-to_text,
}
use skrynia.Domain.Money.{assert_postgres_bigint_range}
use skrynia.Common.Errors.{ok}
use skrynia.Common.Validation.{
  is_space, trim_start, trim_end, trim, is_dot, is_money_rest, is_money, before_dot, after_dot,
  pad_end, pad_start, cents_of, money_to_cents, decimal, cents_to_decimal_string,
}

abbrev is_plain : ℕ → Bool
is_plain c = is_digit c || is_dot c

plain_stays : (c : ℕ) → is_plain c ≡ true → is_space c ≡ false
plain_stays c h = ground arith

trim_end-plain : (s : Text) → all is_plain s ≡ true → trim_end s ≡ s
unfolding trim_end
trim_end-plain [] h = refl
trim_end-plain (c ∷ s) h = ground (arith, plain_stays c, trim_end-plain s)

trim-plain : (s : Text) → all is_plain s ≡ true → trim s ≡ s
unfolding trim trim_start
trim-plain [] h = trim_end-plain [] h
trim-plain (c ∷ s) h = ground (arith, plain_stays c, trim_end-plain (c ∷ s))

abbrev tail : ℕ → ℕ → Text
tail a b = b'.' ∷ a ∷ b ∷ []

module _ (a b : ℕ) (da : is_digit a ≡ true) (db : is_digit b ≡ true) where
  plain-decimal : (s : Text) → all is_digit s ≡ true → all is_plain (s ++ tail a b) ≡ true
  plain-decimal [] h = ground arith
  plain-decimal (c ∷ s) h = ground (arith, plain-decimal s)

  money_rest-decimal : (s : Text) → all is_digit s ≡ true → is_money_rest (s ++ tail a b) ≡ true
  unfolding is_money_rest
  money_rest-decimal [] h = ground arith
  money_rest-decimal (c ∷ s) h = ground (arith, money_rest-decimal s)

  money-decimal :
      (s : Text)
      → starts_with_digit s ≡ true
      → all is_digit s ≡ true
      → is_money (s ++ tail a b) ≡ true
  unfolding is_money
  money-decimal [] k h = cc
  money-decimal (c ∷ s) k h = ground (arith, money_rest-decimal s)

  before_dot-decimal : (s : Text) → all is_digit s ≡ true → before_dot (s ++ tail a b) ≡ s
  unfolding before_dot
  before_dot-decimal [] h = refl
  before_dot-decimal (c ∷ s) h = ground (arith, before_dot-decimal s)

  after_dot-decimal : (s : Text) → all is_digit s ≡ true → after_dot (s ++ tail a b) ≡ a ∷ b ∷ []
  unfolding after_dot before_dot
  after_dot-decimal [] h = ground arith
  after_dot-decimal (c ∷ s) h = ground (arith, after_dot-decimal s)

two_digits : (m : ℕ) → m < 100 → pad_start (to_text m) ≡ (b'0' + m / 10) ∷ (b'0' + m % 10) ∷ []
unfolding to_text digits
two_digits m h = ground arith

two_value : (m : ℕ) → m < 100 → value_after 0 ((b'0' + m / 10) ∷ (b'0' + m % 10) ∷ []) ≡ m
unfolding value_after
two_value m h = ground arith

joined_cents : (x y n : ℕ) → x ≡ n / 100 → y ≡ n % 100 → x * 100 + y ≡ n
joined_cents x y n e f = omega arith

cents_of-decimal :
    (n : ℕ)
    → n ≤ 9_223_372_036_854_775_807
    → (is_money (trim (decimal n)) ≡ true) × (cents_of (trim (decimal n)) ≡ n)
cents_of-decimal n fits =
    let m = n % 100 in
    let s = to_text (n / 100) in
    let a = b'0' + m / 10 in
    let b = b'0' + m % 10 in
    let da : is_digit a ≡ true = ground arith in
    let db : is_digit b ≡ true = ground arith in
    let ds = all-to_text (n / 100) in
    let shape : decimal n ≡ s ++ tail a b =
      ap (λ t. s ++ (b'.' ∷ t)) (two_digits m (omega arith)) in
    let trimmed : trim (decimal n) ≡ s ++ tail a b =
      ap trim shape ∙ trim-plain _ (plain-decimal a b da db s ds) in
    let whole : value_after 0 (before_dot (s ++ tail a b)) ≡ n / 100 =
      ap (value_after 0) (before_dot-decimal a b da db s ds)
      ∙ value-to_text (n / 100) (omega arith) in
    let part : value_after 0 (pad_end (after_dot (s ++ tail a b))) ≡ m =
      ap (λ t. value_after 0 (pad_end t)) (after_dot-decimal a b da db s ds)
      ∙ two_value m (omega arith) in
    (
      ap is_money trimmed ∙ money-decimal a b da db s (starts-to_text (n / 100)) ds,
      ap cents_of trimmed ∙ joined_cents _ _ n whole part,
    )

-- Every amount from 0 to the largest bigint is printed as a decimal text, and that text is read back as
-- the same amount.
pub money_to_cents-decimal :
    (n : ℕ)
    → n ≤ 9_223_372_036_854_775_807
    → (t : Text) × (cents_to_decimal_string (pos n) ≡ ok t) × (money_to_cents t ≡ ok (pos n))
unfolding cents_to_decimal_string money_to_cents assert_postgres_bigint_range
money_to_cents-decimal n fits =
    let (reads, exact) = cents_of-decimal n fits in
    (decimal n, ground arith, rw reads (rw exact (ground arith)))
