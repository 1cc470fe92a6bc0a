-- ===== src/Domain/Money/Bounds.antt =====
-- The platform's fee of backend/src/domain/money.ts, and the range of its checked operations.
use skrynia.Prelude.{ℕ, suc, ◌*◌, ◌/◌, ◌≤◌, ◌<◌, ◌≡◌, arith}
use skrynia.Prelude.Int.{pos}
use skrynia.Common.Errors.{ok}
use skrynia.Domain.Money.{platform_fee_cents, assert_postgres_bigint_range}

share_le : (a b c : ℕ) → b ≤ c → a * b ≤ a * c
share_le a b c h = grind arith

-- For an amount in range and at most 10000 basis points the fee is computed, is at most the amount,
-- and is the share of the amount rounded down to a cent.
pub platform_fee_cents-floor :
    (amount bps : ℕ)
    → amount ≤ 9_223_372_036_854_775_807
    → bps ≤ 10_000
    → (fee : ℕ) × (platform_fee_cents (pos amount) (pos bps) ≡ ok (pos fee))
      × (fee ≤ amount)
      × (fee * 10_000 ≤ amount * bps)
      × (amount * bps < suc fee * 10_000)
unfolding platform_fee_cents assert_postgres_bigint_range
platform_fee_cents-floor amount bps fits few =
    let most = share_le amount bps 10_000 few in
    (amount * bps / 10_000, ground arith, omega arith, omega arith, omega arith)
