-- ===== src/Common/Validation.antt =====
-- `moneyToCents` and `centsToDecimalString` of backend/src/common/validation.ts, on texts as lists of
-- character codes.
pub mod RoundTrip
use skrynia.Prelude.{
  ℕ, ◌+◌, ◌*◌, ◌/◌, ◌%◌, Bool, true, false, ◌&&◌, ◌||◌, List, [], ◌∷◌, ◌++◌, ◌==◌, ltb, leb,
  if◌then◌else◌, length,
}
use skrynia.Prelude.Int.{ℤ, pos, negsuc, ltb_ℤ, pos_part, neg_part}
use skrynia.Prelude.Decimal.{Text, is_digit, to_text, value_after}
use skrynia.Domain.Money.{postgres_bigint_max, assert_postgres_bigint_range}
use skrynia.Common.Errors.{Result, ok, err, bad_request}

-- The white space and line ends that `String.prototype.trim` removes.
abbrev pub is_space : ℕ → Bool
is_space c =
    leb 9 c && leb c 13
    || (c == 32)
    || (c == 160)
    || (c == 5_760)
    || leb 8_192 c && leb c 8_202
    || (c == 8_232)
    || (c == 8_233)
    || (c == 8_239)
    || (c == 8_287)
    || (c == 12_288)
    || (c == 65_279)

abbrev pub is_nil : Text → Bool
is_nil [] = true
is_nil (c ∷ s) = false

unfoldable pub trim_start : Text → Text
trim_start [] = []
trim_start (c ∷ s) = if is_space c then trim_start s else c ∷ s

unfoldable pub trim_end : Text → Text
trim_end [] = []
trim_end (c ∷ s) = let rest = trim_end s in if is_space c && is_nil rest then [] else c ∷ rest

-- `value.trim()`.
unfoldable pub trim : Text → Text
trim s = trim_end (trim_start s)

abbrev pub is_dot : ℕ → Bool
is_dot c = c == b'.'

-- `MONEY_PATTERN`: digits, and after a point one or two more.
abbrev pub is_fraction : Text → Bool
is_fraction (c ∷ []) = is_digit c
is_fraction (c ∷ d ∷ []) = is_digit c && is_digit d
is_fraction _ = false

unfoldable pub is_money_rest : Text → Bool
is_money_rest [] = true
is_money_rest (c ∷ s) = if is_dot c then is_fraction s else is_digit c && is_money_rest s

unfoldable pub is_money : Text → Bool
is_money [] = false
is_money (c ∷ s) = is_digit c && is_money_rest s

-- The first two parts of `trimmed.split(".")`; a part that is missing is `""`.
unfoldable pub before_dot : Text → Text
before_dot [] = []
before_dot (c ∷ s) = if is_dot c then [] else c ∷ before_dot s

unfoldable pub after_dot : Text → Text
after_dot [] = []
after_dot (c ∷ s) = if is_dot c then before_dot s else after_dot s

-- `fraction.padEnd(2, "0")` and `remainder.padStart(2, "0")`.
abbrev pub pad_end : Text → Text
pad_end [] = b'0' ∷ b'0' ∷ []
pad_end (c ∷ []) = c ∷ b'0' ∷ []
pad_end (c ∷ d ∷ s) = c ∷ d ∷ s

abbrev pub pad_start : Text → Text
pad_start [] = b'0' ∷ b'0' ∷ []
pad_start (c ∷ []) = b'0' ∷ c ∷ []
pad_start (c ∷ d ∷ s) = c ∷ d ∷ s

-- The cents of a text that the pattern accepts.
abbrev pub cents_of : Text → ℕ
cents_of s = value_after 0 (before_dot s) * 100 + value_after 0 (pad_end (after_dot s))

-- `moneyToCents`.
unfoldable pub money_to_cents : Text → Result ℤ
money_to_cents value =
    if is_money (trim value)
    then (if ltb_ℤ postgres_bigint_max (pos (cents_of (trim value)))
        then err (bad_request "Money amount too large")
        else assert_postgres_bigint_range (pos (cents_of (trim value))))
    else err (bad_request "Invalid money amount")

abbrev pub decimal : ℕ → Text
decimal magnitude = to_text (magnitude / 100) ++ (b'.' ∷ pad_start (to_text (magnitude % 100)))

abbrev pub signed_decimal : ℤ → Text
signed_decimal (pos n) = decimal n
signed_decimal (negsuc n) = b'-' ∷ decimal (neg_part (negsuc n))

abbrev pub printed : Result ℤ → Result Text
printed (ok v) = ok (signed_decimal v)
printed (err e) = err e

-- `centsToDecimalString`.
unfoldable pub cents_to_decimal_string : ℤ → Result Text
cents_to_decimal_string cents = printed (assert_postgres_bigint_range cents)
