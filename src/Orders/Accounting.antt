-- ===== src/Orders/Accounting.antt =====
-- backend/src/modules/orders/accounting.service.ts: double-entry bookkeeping. An entry is posted
-- once for its idempotency key. Account names and metadata, which nothing reads, are left out.
pub mod Balance
use skrynia.Prelude.{
  List, [], ◌∷◌, ◌++◌, Bool, not, ◌&&◌, ◌||◌, Option, none, some, ℕ, length, get_or, ltb,
  if◌then◌else◌,
}
use skrynia.Prelude.Int.{ℤ, pos, ◌+ℤ◌, ltb_ℤ, leb_ℤ, beq_ℤ}
use skrynia.Prelude.Table.{find, put}
use skrynia.Domain.Enums.{CurrencyCode}
use skrynia.Domain.Money.{assert_postgres_bigint_range, subtract_money_cents, absolute_money_cents}
use skrynia.Common.Errors.{Result, ok, err, bad_request, pg, check_violation}
use skrynia.Db.Keys.{
  AccountCode, LedgerKey, account_eq, key_eq, provider_clearing, seller_escrow, user_payable,
  platform_revenue, manual_adjustment_equity, payment_capture_key, escrow_release_key, refund_key,
  wallet_topup_key, wallet_withdrawal_key, withdrawal_reversal_key, manual_adjustment_key,
}
use skrynia.Db.Rows.{
  Db, AccountType, asset, liability, revenue, equity, EntryType, capture_entry, release_entry,
  refund_entry, adjustment_entry, Ledger, LedgerLine,
}
use skrynia.Db.Tx.{Tx, ◌>>=◌, ◌>>◌, pure, throw_if, lift}

-- `LedgerLineInput`.
pub record LedgerLineInput : Type 0 where
  pub account_code : AccountCode
  pub account_type : AccountType
  pub user_id : Option ℕ
  pub debit_cents : Option ℤ
  pub credit_cents : Option ℤ

-- `LedgerEntryInput`.
pub record LedgerEntryInput : Type 0 where
  pub idempotency_key : LedgerKey
  pub entry_type : EntryType
  pub order_id : Option ℕ
  pub currency : CurrencyCode
  pub lines : List LedgerLineInput

-- `line.debitCents ?? "0"` and `line.creditCents ?? "0"`.
abbrev pub debit_of : LedgerLineInput → ℤ
debit_of l = get_or l.debit_cents (pos 0)

abbrev pub credit_of : LedgerLineInput → ℤ
credit_of l = get_or l.credit_cents (pos 0)

-- The `reduce` over the lines: exact sums of parsed amounts.
unfoldable pub total : (LedgerLineInput → ℤ) → ℤ → List LedgerLineInput → Result ℤ
total side sum [] = ok sum
total side sum (l ∷ ls) = elim (assert_postgres_bigint_range (side l)) [
  | ok v ↦ total side (sum +ℤ v) ls
  | err e ↦ err e
]

-- `ensureLedgerAccount`: `on conflict (code) do nothing`.
unfoldable pub ensure_ledger_account : LedgerLineInput → CurrencyCode → Ledger → Ledger
ensure_ledger_account l c g = elim (find l.account_code g.accounts) [
  | none ↦ record g {
    accounts =
        put l.account_code
          (record { account_type = l.account_type; currency = c; user_id = l.user_id }) g.accounts;
  }
  | some row ↦ g
]

-- The checks on `ledger_lines`: one side is positive, the other is zero.
abbrev pub line_fits : ℤ → ℤ → Bool
line_fits debit credit =
    (ltb_ℤ (pos 0) debit && beq_ℤ credit (pos 0)) || (ltb_ℤ (pos 0) credit && beq_ℤ debit (pos 0))

-- The loop over the lines: the account of each, and its row.
unfoldable pub insert_lines :
    LedgerKey → CurrencyCode → List LedgerLineInput → Ledger → Result Ledger
unfolding ensure_ledger_account
insert_lines key c [] g = ok g
insert_lines key c (l ∷ ls) g =
    let rest = insert_lines key c ls (record (ensure_ledger_account l c g) {
      lines =
          record {
            entry = key;
            account = l.account_code;
            debit_cents = debit_of l;
            credit_cents = credit_of l;
          }
          ∷ g.lines;
    }) in
    if line_fits (debit_of l) (credit_of l) then rest else err (pg check_violation)

-- The insert of an entry with its lines, or nothing where its key is taken.
unfoldable pub write_entry : LedgerEntryInput → Ledger → Result (Option LedgerKey × Ledger)
write_entry i g = elim (find i.idempotency_key g.entries) [
  | some row ↦ ok (none, g)
  | none ↦
      elim (insert_lines i.idempotency_key i.currency i.lines (record g {
        entries =
            put i.idempotency_key
              (record { entry_type = i.entry_type; order_id = i.order_id; currency = i.currency })
              g.entries;
      })) [ ok g' ↦ ok (some i.idempotency_key, g') | err e ↦ err e ]
]

-- The two totals agree and are positive.
unfoldable pub is_balanced : List LedgerLineInput → Result Bool
unfolding total
is_balanced ls = elim (total debit_of (pos 0) ls) [
  | err e ↦ err e
  | ok debits ↦ elim (total credit_of (pos 0) ls) [
    | err e ↦ err e
    | ok credits ↦ ok (not (leb_ℤ debits (pos 0) || not (beq_ℤ debits credits)))
  ]
]

unfoldable pub on_ledger : (Ledger → Result (Option LedgerKey × Ledger)) → Tx (Option LedgerKey)
on_ledger f d = elim (f d.ledger) [ ok (r, g) ↦ ok (r, record d { ledger = g }) | err e ↦ err e ]

-- `postLedgerEntry`; the id of an entry is its key.
unfoldable pub post_ledger_entry : LedgerEntryInput → Tx (Option LedgerKey)
post_ledger_entry i = do
  throw_if (ltb (length i.lines) 2) (bad_request "Ledger entry must contain at least two lines")
  balanced ← lift (is_balanced i.lines)
  throw_if (not balanced) (bad_request "Ledger entry is not balanced")
  on_ledger (write_entry i)

abbrev pub debit_line : AccountCode → AccountType → Option ℕ → ℤ → LedgerLineInput
debit_line a t u v = record {
  account_code = a;
  account_type = t;
  user_id = u;
  debit_cents = some v;
  credit_cents = none;
}

abbrev pub credit_line : AccountCode → AccountType → Option ℕ → ℤ → LedgerLineInput
credit_line a t u v = record {
  account_code = a;
  account_type = t;
  user_id = u;
  debit_cents = none;
  credit_cents = some v;
}
