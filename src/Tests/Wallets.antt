-- ===== src/Tests/Wallets.antt =====
-- The theorems on top-ups, withdrawals and payouts at the fixture wallet.
use skrynia.Prelude.{◌≡◌, ◌⊎◌, inr, some, true, false}
use skrynia.Prelude.Int.{pos, negsuc, ◌≤ℤ◌, ◌<ℤ◌}
use skrynia.Domain.Enums.{uah}
use skrynia.Common.Errors.{Error, ok, err, bad_request}
use skrynia.Db.Rows.{Db, PayoutRow, completed_topup, paid_payout}
use skrynia.Db.Tx.{in_tx}
use skrynia.Orders.Books.{books}
use skrynia.Orders.Escrow.{wallet_of}
use skrynia.Wallet.{complete_wallet_topup, post_manual_adjustment}
use skrynia.Wallet.Adjustments.{post_manual_adjustment-fails}
use skrynia.Wallet.Balances.{
  topup_spec, withdrawal_spec, rejection_spec, request_withdrawal-books, reject_payout-books,
}
use skrynia.Wallet.Payouts.{complete_payout, reject_payout, finish_payout}
use skrynia.Wallet.Payouts.Outcomes.{payout_settles_once, paid_and_refunded}
use skrynia.Wallet.Topups.{complete_wallet_topup-books, complete_wallet_topup-again}
use skrynia.Tests.Fixtures.{
  committed, start, a_topup, a_payout, topup_run, topup_out, withdrawn_run, withdrawn_out,
  rejected_run, rejected_out,
}
use skrynia.Tests.WalletRuns.{
  payout_filed, payout_read, rejected_ok, topup_filed, topup_ok, withdrawn_ok,
}

topped_up : topup_run ≡ ok topup_out
topped_up = committed (a_topup, start) topup_run topup_ok

withdrawn : withdrawn_run ≡ ok withdrawn_out
withdrawn = committed (0, start) withdrawn_run withdrawn_ok

rejected : rejected_run ≡ ok rejected_out
rejected = committed (a_payout, start) rejected_run rejected_ok

complete_wallet_topup-books_example :
    ((true ≡ true)
      × (books topup_out.1 ≡ topup_spec 7 a_topup (books start))
      × (topup_out.0.status ≡ completed_topup))
    ⊎ ((true ≡ false) × (topup_out.0 ≡ a_topup) × (topup_out.1 ≡ start))
complete_wallet_topup-books_example =
    complete_wallet_topup-books 7 "liqpay" "ref-1" start a_topup topup_filed topped_up

complete_wallet_topup-again_example :
    complete_wallet_topup 7 "fondy" "ref-2" topup_out.1 ≡ ok topup_out
complete_wallet_topup-again_example =
    complete_wallet_topup-again 7 "liqpay" "ref-1" start "fondy" "ref-2" topped_up

request_withdrawal-books_example :
    (pos 0 <ℤ pos 200)
    × (pos 200 ≤ℤ (books topup_out.1).available (wallet_of 10 uah))
    × (books withdrawn_out.1
        ≡ withdrawal_spec topup_out.1.next_id 10 (pos 200) uah (books topup_out.1))
request_withdrawal-books_example =
    request_withdrawal-books 10 (pos 200) uah "card" topup_out.1 withdrawn

reject_payout-books_example : books rejected_out.1 ≡ rejection_spec a_payout (books withdrawn_out.1)
reject_payout-books_example =
    reject_payout-books withdrawn_out.0 99 "wrong card" a_payout withdrawn_out.1 payout_filed
      rejected

payout_settles_once_example :
    (complete_payout withdrawn_out.0 99 (some "bank-1") rejected_out.1
      ≡ err (bad_request "Only pending payouts can be completed"))
    × (reject_payout withdrawn_out.0 99 "again" rejected_out.1
        ≡ err (bad_request "Only pending payouts can be rejected"))
payout_settles_once_example =
    payout_settles_once withdrawn_out.0 99 99 (some "bank-1") (some "bank-1") "wrong card" "again"
      withdrawn_out.1 (inr rejected)

paid_and_refunded_example :
    (q : PayoutRow) × (d₂ : Db) × (finish_payout withdrawn_out.0 98 "bank-1" rejected_out.1
      ≡ ok (q, d₂))
    × (q.status ≡ paid_payout)
    × (books d₂ ≡ rejection_spec a_payout (books withdrawn_out.1))
paid_and_refunded_example =
    paid_and_refunded withdrawn_out.0 99 98 (some "bank-1") "wrong card" "bank-1" a_payout
      withdrawn_out.1 payout_filed payout_read rejected

post_manual_adjustment-fails_example :
    (e : Error) × (in_tx (post_manual_adjustment 10 (negsuc 4) uah) start ≡ (err e, start))
post_manual_adjustment-fails_example = post_manual_adjustment-fails 10 (negsuc 4) uah start
