-- ===== src/Marketplace/Runs.antt =====
-- Any sequence of committed transactions of backend/src/modules/orders and of
-- backend/src/modules/users/wallet.service.ts, by any users and in any order. `elsewhere` stands for
-- everything else that the application writes: it touches neither orders, top-ups, payouts nor money.
use skrynia.Prelude.{ℕ, String, ◌≡◌, Option}
use skrynia.Prelude.Int.{ℤ}
use skrynia.Prelude.Table.{nat_eq}
use skrynia.Domain.Enums.{CurrencyCode}
use skrynia.Common.Errors.{ok}
use skrynia.Db.Rows.{Db, OrderRow, TopupRow, PayoutRow, PaymentProviderName, OrderTransitionActor}
use skrynia.Db.Files.{SameFiles}
use skrynia.Db.Frame.{SameFunds}
use skrynia.Orders.Policy.{TransitionOrderInput}
use skrynia.Orders.Lifecycle.{Config, transition_order}
use skrynia.Orders.Escrow.{Capture}
use skrynia.Orders.Escrow.Lock.{lock_escrow}
use skrynia.Orders.Escrow.Release.{ReleaseOptions, release_escrow}
use skrynia.Orders.Escrow.Refund.{refund_escrow}
use skrynia.Orders.Routes.{create_order, start_order, deliver_order, confirm_order}
use skrynia.Orders.AutoRelease.{run_auto_release_sweep}
use skrynia.Wallet.{create_wallet_topup, complete_wallet_topup, request_withdrawal}
use skrynia.Wallet.Payouts.{finish_payout, reject_payout}
use skrynia.Marketplace.Openings.{IsSound}
use skrynia.Marketplace.Orders.{transition_order-IsSound}
use skrynia.Marketplace.Escrow.{lock_escrow-IsSound, release_escrow-IsSound, refund_escrow-IsSound}
use skrynia.Marketplace.Requests.{SameFiles-Filing}
use skrynia.Marketplace.Agreement.{
  create_wallet_topup-IsSound, complete_wallet_topup-IsSound, request_withdrawal-IsSound,
  finish_payout-IsSound, reject_payout-IsSound,
}
use skrynia.Marketplace.Routes.{
  Filing-quiet, create_order-IsSound, start_order-IsSound, deliver_order-IsSound,
  confirm_order-IsSound, run_auto_release_sweep-IsSound,
}

-- One committed transaction. The write of `completePayout` may come at any time, since nothing holds
-- the payout between its read and its write.
pub data Step (c : Config) : Db → Db → Type 0 where
  creates :
      {d e : Db} (user product quantity : ℕ) {r : OrderRow × ℕ}
      → create_order user product quantity d ≡ ok (r, e)
      → Step c d e
  pays :
      {d e : Db} (capture : PaymentProviderName → Capture) (id buyer : ℕ)
      (provider : PaymentProviderName) (reference : Option String)
      (actor : Option OrderTransitionActor) {r : OrderRow}
      → lock_escrow c capture id buyer provider reference actor d ≡ ok (r, e)
      → Step c d e
  starts :
      {d e : Db} (id user : ℕ) {r : OrderRow} → start_order c id user d ≡ ok (r, e) → Step c d e
  delivers :
      {d e : Db} (id user : ℕ) (note : String) {r : OrderRow}
      → deliver_order c id user note d ≡ ok (r, e)
      → Step c d e
  confirms :
      {d e : Db} (id user : ℕ) {r : OrderRow} → confirm_order c id user d ≡ (ok r, e) → Step c d e
  sweeps : {d : Db} → Step c d (run_auto_release_sweep c d)
  transitions :
      {d e : Db} (i : TransitionOrderInput) {r : OrderRow}
      → transition_order c i d ≡ ok (r, e)
      → Step c d e
  releases :
      {d e : Db} (id : ℕ) (i : ReleaseOptions) {r : OrderRow}
      → release_escrow c id i d ≡ ok (r, e)
      → Step c d e
  refunds :
      {d e : Db} (id : ℕ) (admin : Option ℕ) {r : OrderRow}
      → refund_escrow c id admin d ≡ ok (r, e)
      → Step c d e
  tops_up :
      {d e : Db} (user : ℕ) (v : ℤ) (currency : CurrencyCode) {n : ℕ}
      → create_wallet_topup user v currency d ≡ (ok n, e)
      → Step c d e
  completes :
      {d e : Db} (id : ℕ) (provider reference : String) {r : TopupRow}
      → complete_wallet_topup id provider reference d ≡ ok (r, e)
      → Step c d e
  withdraws :
      {d e : Db} (user : ℕ) (v : ℤ) (currency : CurrencyCode) (destination : String) {n : ℕ}
      → request_withdrawal user v currency destination d ≡ ok (n, e)
      → Step c d e
  pays_out :
      {d e : Db} (id admin : ℕ) (reference : String) {r : PayoutRow}
      → finish_payout id admin reference d ≡ ok (r, e)
      → Step c d e
  rejects :
      {d e : Db} (id admin : ℕ) (reason : String) {r : PayoutRow}
      → reject_payout id admin reason d ≡ ok (r, e)
      → Step c d e
  elsewhere : {d e : Db} → SameFiles d e → SameFunds d e → Step c d e

pub data Steps (c : Config) : Db → Db → Type 0 where
  stop : {d : Db} → Steps c d d
  next : {d e f : Db} → Step c d e → Steps c e f → Steps c d f

Step-IsSound : {c : Config} {d e : Db} → Step c d e → IsSound d → IsSound e
Step-IsSound {d = d} (creates user product quantity h) s =
    create_order-IsSound d s user product quantity h
Step-IsSound {c} {d} (pays capture id buyer provider reference actor h) s =
    lock_escrow-IsSound c capture id buyer provider reference actor d h s
Step-IsSound {c} {d} (starts id user h) s = start_order-IsSound d s c id user h
Step-IsSound {c} {d} (delivers id user note h) s = deliver_order-IsSound d s c id user note h
Step-IsSound {c} {d} (confirms id user h) s = confirm_order-IsSound d s c id user h
Step-IsSound {c} {d} sweeps s = run_auto_release_sweep-IsSound c d s
Step-IsSound {c} {d} (transitions i h) s = transition_order-IsSound c i d h s
Step-IsSound {c} {d} (releases id i h) s = release_escrow-IsSound c id d i h s
Step-IsSound {c} {d} (refunds id admin h) s = refund_escrow-IsSound c id d admin h s
Step-IsSound {d = d} (tops_up user v currency h) s =
    create_wallet_topup-IsSound d s user v currency h
Step-IsSound {d = d} (completes id provider reference h) s =
    complete_wallet_topup-IsSound d s id provider reference h
Step-IsSound {d = d} (withdraws user v currency destination h) s =
    request_withdrawal-IsSound d s user v currency destination h
Step-IsSound {d = d} (pays_out id admin reference h) s =
    finish_payout-IsSound d s id admin reference h
Step-IsSound {d = d} (rejects id admin reason h) s = reject_payout-IsSound d s id admin reason h
Step-IsSound (elsewhere files funds) s = Filing-quiet funds s (SameFiles-Filing files)

-- Through any sequence of committed transactions everything stays sound: wallets and ledger agree,
-- and no entry is posted that a row on file leaves open.
pub Steps-IsSound : {c : Config} {d e : Db} → Steps c d e → IsSound d → IsSound e
Steps-IsSound stop s = s
Steps-IsSound (next st rest) s = Steps-IsSound rest (Step-IsSound st s)
