-- ===== src/Orders/Books.antt =====
-- The abstract books of the marketplace: what backend/src/modules/orders and
-- backend/src/modules/users/wallet.service.ts promise about money, with no tables in it. Wallets and
-- the platform's wallets are amounts, the ledger is a balance for each account and a set of keys.
pub mod Wallets
use mathlib.Core.Path.{fun_ext}
use skrynia.Prelude.{
  ◌≡◌, refl, ap, sym, ◌∙◌, Bool, true, false, Option, none, some, arith, if◌then◌else◌, is_some,
  Bool-cases, inl, inr,
}
use skrynia.Prelude.Int.{ℤ, pos, ◌+ℤ◌}
use skrynia.Prelude.Table.{Eq, Table, find, put, find-put}
use skrynia.Domain.Enums.{CurrencyCode, currency_eq}
use skrynia.Common.Errors.{ok}
use skrynia.Db.Keys.{
  AccountCode, LedgerKey, WalletId, wallet_eq, key_eq, user_payable, seller_escrow,
  platform_revenue,
}
use skrynia.Db.Rows.{Db, WalletRow, Ledger}
use skrynia.Db.Tables.{update_wallet, update_platform_wallet}
use skrynia.Db.Frame.{SameFunds}
use skrynia.Orders.Accounting.{LedgerEntryInput, write_entry, post_ledger_entry}
use skrynia.Orders.Accounting.Balance.{
  balance, effect, post_ledger_entry-eq-ok, write_entry-taken, write_entry-free, write_entry-posted,
  insert_lines-balance, with_entry,
}

pub record Books : Type 0 where
  pub available : WalletId → ℤ
  pub escrow : WalletId → ℤ
  pub revenue : CurrencyCode → ℤ
  pub account : AccountCode → ℤ
  pub posted : LedgerKey → Bool

-- A wallet that has no row holds nothing.
abbrev pub available_of : Option WalletRow → ℤ
available_of none = pos 0
available_of (some r) = r.available_cents

abbrev pub escrow_of : Option WalletRow → ℤ
escrow_of none = pos 0
escrow_of (some r) = r.escrow_cents

abbrev pub revenue_of : Option ℤ → ℤ
revenue_of none = pos 0
revenue_of (some v) = v

-- The books that the tables of a database stand for.
unfoldable pub books : Db → Books
books d = record {
  available = λ w. available_of (find w d.wallets);
  escrow = λ w. escrow_of (find w d.wallets);
  revenue = λ c. revenue_of (find c d.platform_wallets);
  account = λ a. balance a d.ledger.lines;
  posted = λ k. is_some (find k d.ledger.entries);
}

-- A function that is changed at one argument.
abbrev pub set_at {ℓ κ} : {K : Type ℓ} {V : Type κ} ⦃e : Eq K⦄ → K → V → (K → V) → K → V
set_at ⦃e⦄ k v f j = if e.beq k j then v else f j

-- An entry is posted unless its key is taken.
abbrev pub post_spec : LedgerEntryInput → Books → Books
post_spec i m = if m.posted i.idempotency_key then m else record m {
  account = λ a. effect a i.lines +ℤ m.account a;
  posted = set_at i.idempotency_key true m.posted;
}

pub Books-ext :
    (m n : Books)
    → m.available ≡ n.available
    → m.escrow ≡ n.escrow
    → m.revenue ≡ n.revenue
    → m.account ≡ n.account
    → m.posted ≡ n.posted
    → m ≡ n
Books-ext m n a e r b p =
    λ j. record { available = a j; escrow = e j; revenue = r j; account = b j; posted = p j }

-- Steps that leave the money tables alone leave the books alone.
pub books-SameFunds : {d d' : Db} → SameFunds d d' → books d' ≡ books d
unfolding books
books-SameFunds {d} {d'} s = λ j. record {
  available = λ w. available_of (find w (s.wallets j));
  escrow = λ w. escrow_of (find w (s.wallets j));
  revenue = λ c. revenue_of (find c (s.platform_wallets j));
  account = λ a. balance a ((s.ledger j).lines);
  posted = λ k. is_some (find k ((s.ledger j).entries));
}

books-write_entry :
    (i : LedgerEntryInput) (d : Db) (r : Option LedgerKey) (g : Ledger)
    → write_entry i d.ledger ≡ ok (r, g)
    → books (record d { ledger = g }) ≡ post_spec i (books d)
unfolding books
books-write_entry i d r g h =
    elim (Bool-cases (is_some (find i.idempotency_key d.ledger.entries))) [
      | inl taken ↦ rw taken (rw ((write_entry-taken i d.ledger taken h).1))
      | inr free ↦ rw free (
          Books-ext _ _ refl refl refl
            (fun_ext λ a.
              insert_lines-balance i.idempotency_key i.currency a i.lines (with_entry i d.ledger)
                (write_entry-free i d.ledger free h))
            (fun_ext λ k. write_entry-posted i d.ledger free h k))
    ]

-- Posting an entry does to the books what the specification says, whether its key is free or taken.
pub books-post :
    (i : LedgerEntryInput) (d : Db) {r : Option LedgerKey} {d' : Db}
    → post_ledger_entry i d ≡ ok (r, d')
    → books d' ≡ post_spec i (books d)
books-post i d {r} {d'} h =
    let (_, frame, written) = post_ledger_entry-eq-ok i d h in
    ap books frame ∙ books-write_entry i d r d'.ledger written
