-- ===== src/Tests/Fixtures.antt =====
-- One order of 10.00 UAH, with a fee of 0.50, from its payment to its release or refund; one
-- top-up, and one withdrawal.
use skrynia.Prelude.{ℕ, [], ◌∷◌, Bool, true, false, Option, none, some, ◌≡◌, refl}
use skrynia.Prelude.Int.{pos}
use skrynia.Domain.Enums.{
  pending, delivered, completed, canceled, uah, user, admin, active, manual, CurrencyCode,
}
use skrynia.Common.Errors.{Result, ok, err}
use skrynia.Db.Rows.{
  Db, OrderRow, PaymentProviderName, mock, seller, seller_delivered, test_payment,
  test_payment_failed, TopupRow, pending_topup, ReviewRow, PayoutRow, manual_payout, pending_payout,
}
use skrynia.Orders.Policy.{TransitionOrderInput}
use skrynia.Orders.Lifecycle.{Config, transition_order}
use skrynia.Orders.Escrow.{Capture}
use skrynia.Orders.Escrow.Lock.{lock_escrow}
use skrynia.Orders.Escrow.Release.{ReleaseOptions, by_buyer, release_escrow}
use skrynia.Orders.Escrow.Refund.{refund_escrow}
use skrynia.Db.Keys.{LedgerKey}
use skrynia.Orders.Accounting.{LedgerEntryInput, post_ledger_entry}
use skrynia.Orders.Bookings.{payment_capture_entry}
use skrynia.Orders.Routes.{create_order, deliver_order, review_order}
use skrynia.Wallet.{complete_wallet_topup, request_withdrawal}
use skrynia.Wallet.Payouts.{reject_payout}

abbrev pub is_ok : {A : Type 0} → Result A → Bool
is_ok (ok a) = true
is_ok (err e) = false

-- What a run returned, or the fallback.
abbrev pub out : {A : Type 0} → A → Result A → A
out a (ok b) = b
out a (err e) = a

pub committed : {A : Type 0} (a : A) (r : Result A) → is_ok r ≡ true → r ≡ ok (out a r)
committed a (ok b) h = refl
committed a (err e) h = cc

abbrev pub config : Config
config = record { platform_fee_bps = 500; auto_release_hours = 72 }

abbrev pub an_order : CurrencyCode → OrderRow
an_order c = record {
  id = 1;
  buyer_id = 10;
  seller_id = 20;
  product_id = 5;
  quantity = 1;
  amount_cents = pos 1000;
  fee_cents = pos 50;
  currency = c;
  status = pending;
  payment_provider = none;
  payment_reference = none;
  delivery_note = none;
  auto_release_at = none;
  paid_at = none;
  delivered_at = none;
  completed_at = none;
  updated_at = 0;
}

abbrev pub a_topup : TopupRow
a_topup = record {
  user_id = 10;
  amount_cents = pos 300;
  currency = uah;
  status = pending_topup;
  payment_provider = none;
  payment_reference = none;
}

abbrev pub start_of : CurrencyCode → Db
start_of c = record {
  now = 100;
  next_id = 50;
  users = (10, user) ∷ (20, user) ∷ (99, admin) ∷ [];
  banned = [];
  orders = (1, an_order c) ∷ [];
  products =
      (
        5,
        record {
          seller_id = 20;
          price_cents = pos 1000;
          currency = c;
          stock = 3;
          status = active;
          delivery_type = manual;
          delivery_template = none;
          sales_count = 0;
        },
      )
      ∷ [];
  wallets = [];
  platform_wallets = (uah, pos 0) ∷ [];
  transactions = [];
  ledger = record { accounts = []; entries = []; lines = [] };
  order_events = [];
  outbox = [];
  conversations = [];
  messages = [];
  topups = (7, a_topup) ∷ [];
  payouts = [];
  disputes = [];
  reviews = [];
}

abbrev pub start : Db
start = start_of uah

abbrev pub provider : PaymentProviderName → Capture
provider name i = ok (record { provider = name; reference = "pay-1" })

abbrev pub paid_run : Result (OrderRow × Db)
paid_run = lock_escrow config provider 1 10 mock none none start

abbrev pub paid_out : OrderRow × Db
paid_out = out (an_order uah, start) paid_run

abbrev pub delivery : TransitionOrderInput
delivery = record {
  order_id = 1;
  to = delivered;
  actor = record { id = some 20; role = seller };
  reason = seller_delivered;
  expected_from = none;
  dispute_reason = none;
  dispute_id = none;
  system_message_ids = [];
}

abbrev pub delivered_run : Result (OrderRow × Db)
delivered_run = transition_order config delivery paid_out.1

abbrev pub delivered_out : OrderRow × Db
delivered_out = out paid_out delivered_run

abbrev pub by_the_buyer : ReleaseOptions
by_the_buyer = record { admin_id = none; source = by_buyer; actor_id = some 10 }

abbrev pub released_run : Result (OrderRow × Db)
released_run = release_escrow config 1 by_the_buyer delivered_out.1

abbrev pub released_out : OrderRow × Db
released_out = out delivered_out released_run

abbrev pub refunded_run : Result (OrderRow × Db)
refunded_run = refund_escrow config 1 none delivered_out.1

abbrev pub refunded_out : OrderRow × Db
refunded_out = out delivered_out refunded_run

abbrev pub topup_run : Result (TopupRow × Db)
topup_run = complete_wallet_topup 7 "liqpay" "ref-1" start

abbrev pub topup_out : TopupRow × Db
topup_out = out (a_topup, start) topup_run

abbrev pub withdrawn_run : Result (ℕ × Db)
withdrawn_run = request_withdrawal 10 (pos 200) uah "card" topup_out.1

abbrev pub withdrawn_out : ℕ × Db
withdrawn_out = out (0, start) withdrawn_run

-- A completed order, and a pending one whose simulated payment fails.
abbrev pub two_orders : Db
two_orders = record start {
  orders =
      (1, record (an_order uah) { status = completed })
      ∷ (2, record (an_order uah) { id = 2 })
      ∷ [];
}

abbrev pub cancellation : TransitionOrderInput
cancellation = record {
  order_id = 2;
  to = canceled;
  actor = record { id = some 10; role = test_payment };
  reason = test_payment_failed;
  expected_from = some (pending ∷ []);
  dispute_reason = none;
  dispute_id = none;
  system_message_ids = [];
}

abbrev pub canceled_run : Result (OrderRow × Db)
canceled_run = transition_order config cancellation two_orders

abbrev pub canceled_out : OrderRow × Db
canceled_out = out (an_order uah, two_orders) canceled_run

-- The entry of the fixture order's payment, posted by itself.
abbrev pub balanced_entry : LedgerEntryInput
balanced_entry = payment_capture_entry 1 20 (pos 1000) uah

abbrev pub posting_run : Result (Option LedgerKey × Db)
posting_run = post_ledger_entry balanced_entry start

abbrev pub posting_out : Option LedgerKey × Db
posting_out = out (none, start) posting_run

-- The payout that the withdrawal opens.
abbrev pub a_payout : PayoutRow
a_payout = record {
  user_id = 10;
  transaction_id = topup_out.1.next_id;
  amount_cents = pos 200;
  currency = uah;
  provider = manual_payout;
  destination = "card";
  status = pending_payout;
  reference = none;
  admin_note = none;
  processed_by = none;
}

abbrev pub rejected_run : Result (PayoutRow × Db)
rejected_run = reject_payout withdrawn_out.0 99 "wrong card" withdrawn_out.1

abbrev pub rejected_out : PayoutRow × Db
rejected_out = out (a_payout, start) rejected_run

-- The handlers of the routes.
abbrev pub created_run : Result ((OrderRow × ℕ) × Db)
created_run = create_order 10 5 2 start

abbrev pub created_out : (OrderRow × ℕ) × Db
created_out = out ((an_order uah, 0), start) created_run

abbrev pub handed_run : Result (OrderRow × Db)
handed_run = deliver_order config 1 20 "the key" paid_out.1

abbrev pub handed_out : OrderRow × Db
handed_out = out paid_out handed_run

abbrev pub no_review : ReviewRow
no_review = record { id = 0; seller_id = 0; buyer_id = 0; rating = 1; comment = none }

abbrev pub reviewed_run : Result ((ReviewRow × Bool) × Db)
reviewed_run = review_order 1 10 5 (some "fast") released_out.1

abbrev pub reviewed_out : (ReviewRow × Bool) × Db
reviewed_out = out ((no_review, false), start) reviewed_run
