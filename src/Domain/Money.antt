-- ===== src/Domain/Money.antt =====
-- backend/src/domain/money.ts, on values: a canonical cents string stands for the integer that it
-- spells; Canonical has the printing and the parsing of that string.
pub mod Bounds
pub mod Canonical
use skrynia.Prelude.{◌*◌, ◌/◌, Bool, ◌||◌, ◌&&◌, if◌then◌else◌}
use skrynia.Prelude.Int.{ℤ, pos, negsuc, ◌+ℤ◌, ◌-ℤ◌, -ℤ◌, ltb_ℤ, leb_ℤ, pos_part}
use skrynia.Common.Errors.{Result, ok, err, money_range, plain}

-- `POSTGRES_BIGINT_MAX` and `POSTGRES_BIGINT_MIN`.
abbrev pub postgres_bigint_max : ℤ
postgres_bigint_max = pos 9_223_372_036_854_775_807

abbrev pub postgres_bigint_min : ℤ
postgres_bigint_min = negsuc 9_223_372_036_854_775_807

unfoldable pub is_in_range : ℤ → Bool
is_in_range v = leb_ℤ postgres_bigint_min v && leb_ℤ v postgres_bigint_max

-- `assertPostgresBigintRange`.
unfoldable pub assert_postgres_bigint_range : ℤ → Result ℤ
unfolding is_in_range
assert_postgres_bigint_range v =
    if ltb_ℤ v postgres_bigint_min || ltb_ℤ postgres_bigint_max v then err money_range else ok v

-- `bigintToMoneyCents` of an operand, before an operation.
abbrev pub operand : ℤ → Result ℤ → Result ℤ
operand v next = if is_in_range v then next else err money_range

-- `addMoneyCents`, `subtractMoneyCents` and `absoluteMoneyCents`: the operands and the result are
-- checked.
unfoldable pub add_money_cents : ℤ → ℤ → Result ℤ
unfolding assert_postgres_bigint_range is_in_range
add_money_cents a b = operand a (operand b (assert_postgres_bigint_range (a +ℤ b)))

unfoldable pub subtract_money_cents : ℤ → ℤ → Result ℤ
unfolding assert_postgres_bigint_range is_in_range
subtract_money_cents a b = operand a (operand b (assert_postgres_bigint_range (a -ℤ b)))

unfoldable pub absolute_money_cents : ℤ → Result ℤ
unfolding assert_postgres_bigint_range is_in_range
absolute_money_cents a =
    operand a (assert_postgres_bigint_range (if ltb_ℤ a (pos 0) then -ℤ◌ a else a))

-- `platformFeeCents`; the source's `feeBps` is a number that must be an integer from 0 to 10000.
unfoldable pub platform_fee_cents : ℤ → ℤ → Result ℤ
unfolding assert_postgres_bigint_range is_in_range
platform_fee_cents amount fee_bps =
    if ltb_ℤ fee_bps (pos 0) || ltb_ℤ (pos 10_000) fee_bps
    then err (plain "feeBps must be an integer between 0 and 10000")
    else operand amount (
        if ltb_ℤ amount (pos 0)
        then err (plain "amountCents must be non-negative")
        else assert_postgres_bigint_range (pos (pos_part amount * pos_part fee_bps / 10_000)))
