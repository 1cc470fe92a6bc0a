-- ===== src/Tests/WalletRuns.antt =====
-- That the fixture runs of wallets commit, and the rows that they leave.
use skrynia.Prelude.{◌≡◌, refl, true, some}
use skrynia.Prelude.Table.{nat_eq}
use skrynia.Domain.Enums.{currency_eq}
use skrynia.Common.Errors.{ok}
use skrynia.Db.Keys.{wallet_eq, key_eq}
use skrynia.Prelude.Table.{find}
use skrynia.Wallet.Payouts.{begin_payout}
use skrynia.Tests.Fixtures.{
  is_ok, a_payout, rejected_run, start, a_topup, withdrawn_out, topup_run, withdrawn_run,
}
use skrynia.Tests.Services.{services}

pub topup_ok : is_ok topup_run ≡ true
unfolding services
topup_ok = refl

pub withdrawn_ok : is_ok withdrawn_run ≡ true
unfolding services
withdrawn_ok = refl

pub topup_filed : find 7 start.topups ≡ some a_topup
unfolding find
topup_filed = refl

pub rejected_ok : is_ok rejected_run ≡ true
unfolding services
rejected_ok = refl

pub payout_filed : find withdrawn_out.0 withdrawn_out.1.payouts ≡ some a_payout
unfolding services
payout_filed = refl

pub payout_read :
    begin_payout withdrawn_out.0 (some "bank-1") withdrawn_out.1 ≡ ok ("bank-1", withdrawn_out.1)
unfolding services
payout_read = refl
