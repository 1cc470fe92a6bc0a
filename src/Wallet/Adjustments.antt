-- ===== src/Wallet/Adjustments.antt =====
-- `postManualAdjustment` of backend/src/modules/users/wallet.service.ts, against the check on the
-- `type` column that it writes.
use skrynia.Prelude.{ℕ, ◌≡◌, refl, arith, Option}
use skrynia.Prelude.Int.{ℤ}
use skrynia.Domain.Enums.{CurrencyCode}
use skrynia.Common.Errors.{Error, Result, ok, err}
use skrynia.Db.Keys.{WalletId}
use skrynia.Db.Rows.{Db, Direction, TransactionStatus, manual_adjustment}
use skrynia.Db.Tx.{Tx, in_tx}
use skrynia.Db.Tables.{insert_transaction}
use skrynia.Db.Steps.{bind-step, guard-step, lift-step, wallet-step}
use skrynia.Wallet.{post_manual_adjustment}

refused_type :
    (w : WalletId) (o : Option ℕ) (x : Direction) (a : ℤ) (s : TransactionStatus) (d : Db) {n : ℕ}
    {d' : Db}
    → ¬ (insert_transaction w o manual_adjustment x a s d ≡ ok (n, d'))
unfolding insert_transaction
refused_type w o x a s d h = ground arith

never_commits :
    (user : ℕ) (amount : ℤ) (c : CurrencyCode) (d : Db) {n : ℕ} {d' : Db}
    → ¬ (post_manual_adjustment user amount c d ≡ ok (n, d'))
unfolding post_manual_adjustment
never_commits user amount c d h = guard-step d _ _ _ h λ _ h. lift-step d _ _ h λ magnitude _ h.
    bind-step d _ _ h λ w s₁ _ h. wallet-step s₁ _ _ h λ row _ h. guard-step s₁ _ _ _ h λ _ h.
      lift-step s₁ _ _ h λ next _ h. bind-step s₁ _ _ h λ _ s₂ _ h.
        bind-step s₂ _ _ h
          λ adjustment s₃ _ h. bind-step s₃ _ _ h λ _ s₄ e _. refused_type _ _ _ _ _ s₃ e

rolled_back :
    {A : Type 0} (m : Tx A) (d : Db)
    → ((a : A) (d' : Db) → ¬ (m d ≡ ok (a, d')))
    → (e : Error) × (in_tx m d ≡ (err e, d))
unfolding in_tx
rolled_back {A = A} m d never = decided (m d) refl
  where
    decided : (r : Result (A × Db)) → m d ≡ r → (e : Error) × (in_tx m d ≡ (err e, d))
    decided (ok (a, d')) h = absurd (never a d' h)
    decided (err e) h = (e, rw (in_tx, h) refl)

-- A manual adjustment throws for every user, amount and currency, and leaves the database as it was.
pub post_manual_adjustment-fails :
    (user : ℕ) (amount : ℤ) (c : CurrencyCode) (d : Db)
    → (e : Error) × (in_tx (post_manual_adjustment user amount c) d ≡ (err e, d))
post_manual_adjustment-fails user amount c d =
    rolled_back (post_manual_adjustment user amount c) d λ n d'. never_commits user amount c d
