-- ===== src/Orders/Accounting/Balance.antt =====
-- What the ledger of backend/src/modules/orders/accounting.service.ts adds up to: the balance of an
-- account, the trial balance, and how a posted entry changes them.
pub mod Posting
use skrynia.Prelude.{
  List, [], ◌∷◌, ◌++◌, ◌≡◌, refl, ◌⊎◌, inl, inr, true, false, Option, none, some, arith,
  if◌then◌else◌, is_some, Option-cases, Bool-cases,
}
use skrynia.Prelude.Int.{ℤ, pos, ◌+ℤ◌, ◌-ℤ◌, int_laws, beq_ℤ, leb_ℤ}
use skrynia.Prelude.Table.{find, put, find-put}
use skrynia.Domain.Money.{assert_postgres_bigint_range}
use skrynia.Domain.Enums.{CurrencyCode}
use skrynia.Common.Errors.{Result, ok, err}
use skrynia.Db.Keys.{AccountCode, LedgerKey, same_account, key_eq}
use skrynia.Db.Rows.{Db, Ledger, LedgerLine}
use skrynia.Db.Tx.{◌>>=◌, throw_if, lift}
use skrynia.Orders.Accounting.{
  LedgerLineInput, LedgerEntryInput, debit_of, credit_of, total, ensure_ledger_account,
  insert_lines, write_entry, is_balanced, on_ledger, post_ledger_entry,
}

-- Credits less debits of one account.
abbrev pub balance : AccountCode → List LedgerLine → ℤ
balance a [] = pos 0
balance a (l ∷ ls) =
    (if same_account l.account a then l.credit_cents -ℤ l.debit_cents else pos 0) +ℤ balance a ls

-- What the lines of an entry add to the balance of an account.
abbrev pub effect : AccountCode → List LedgerLineInput → ℤ
effect a [] = pos 0
effect a (l ∷ ls) =
    (if same_account l.account_code a then credit_of l -ℤ debit_of l else pos 0) +ℤ effect a ls

pub effect-append :
    (a : AccountCode) (xs ys : List LedgerLineInput)
    → effect a (xs ++ ys) ≡ effect a xs +ℤ effect a ys
effect-append a [] ys = grind int_laws
effect-append a (x ∷ xs) ys = grind (int_laws, effect-append a xs ys)

-- Credits less debits of all accounts.
abbrev pub trial_balance : List LedgerLine → ℤ
trial_balance [] = pos 0
trial_balance (l ∷ ls) = (l.credit_cents -ℤ l.debit_cents) +ℤ trial_balance ls

abbrev side_sum : (LedgerLineInput → ℤ) → List LedgerLineInput → ℤ
side_sum side [] = pos 0
side_sum side (l ∷ ls) = side l +ℤ side_sum side ls

-- The ledger with the rows of one line.
abbrev pub with_line : LedgerKey → CurrencyCode → LedgerLineInput → Ledger → Ledger
with_line key c l g = record (ensure_ledger_account l c g) {
  lines =
      record {
        entry = key;
        account = l.account_code;
        debit_cents = debit_of l;
        credit_cents = credit_of l;
      }
      ∷ g.lines;
}

ensure-entries :
    (l : LedgerLineInput) (c : CurrencyCode) (g : Ledger)
    → (ensure_ledger_account l c g).entries ≡ g.entries
unfolding ensure_ledger_account
ensure-entries l c g = ground arith

module _ (key : LedgerKey) (c : CurrencyCode) where
  pub insert_lines-balance :
      (a : AccountCode) (ls : List LedgerLineInput) (g : Ledger) {g' : Ledger}
      → insert_lines key c ls g ≡ ok g'
      → balance a g'.lines ≡ effect a ls +ℤ balance a g.lines
  unfolding insert_lines
  insert_lines-balance a [] g h = grind int_laws
  insert_lines-balance a (l ∷ ls) g h =
      grind (int_laws, insert_lines-balance a ls (with_line key c l g))

  pub insert_lines-trial :
      (ls : List LedgerLineInput) (g : Ledger) {g' : Ledger}
      → insert_lines key c ls g ≡ ok g'
      → trial_balance g'.lines
        ≡ side_sum credit_of ls -ℤ side_sum debit_of ls +ℤ trial_balance g.lines
  unfolding insert_lines
  insert_lines-trial [] g h = grind int_laws
  insert_lines-trial (l ∷ ls) g h = grind (int_laws, insert_lines-trial ls (with_line key c l g))

  pub insert_lines-entries :
      (ls : List LedgerLineInput) (g : Ledger) {g' : Ledger}
      → insert_lines key c ls g ≡ ok g'
      → g'.entries ≡ g.entries
  unfolding insert_lines
  insert_lines-entries [] g h = ground arith
  insert_lines-entries (l ∷ ls) g h =
      grind (arith, ensure-entries l c g, insert_lines-entries ls (with_line key c l g))

total-eq-side_sum :
    (side : LedgerLineInput → ℤ) (sum : ℤ) (ls : List LedgerLineInput) {v : ℤ}
    → total side sum ls ≡ ok v
    → v ≡ sum +ℤ side_sum side ls
unfolding total assert_postgres_bigint_range
total-eq-side_sum side sum [] h = grind int_laws
total-eq-side_sum side sum (l ∷ ls) h = grind (int_laws, total-eq-side_sum side (sum +ℤ side l) ls)

-- The test of an entry passes only where its two sides add up to the same amount.
is_balanced-eq-ok :
    (ls : List LedgerLineInput)
    → is_balanced ls ≡ ok true
    → side_sum credit_of ls ≡ side_sum debit_of ls
unfolding is_balanced
is_balanced-eq-ok ls h =
    grind (int_laws, total-eq-side_sum debit_of (pos 0) ls, total-eq-side_sum credit_of (pos 0) ls)

-- The ledger with the header row of an entry.
abbrev pub with_entry : LedgerEntryInput → Ledger → Ledger
with_entry i g = record g {
  entries =
      put i.idempotency_key
        (record { entry_type = i.entry_type; order_id = i.order_id; currency = i.currency })
        g.entries;
}

-- The entry that a posting writes under a key, free or taken.
module _ (i : LedgerEntryInput) (g : Ledger) {r : Option LedgerKey} {g' : Ledger} where
  pub write_entry-taken :
      is_some (find i.idempotency_key g.entries) ≡ true
      → write_entry i g ≡ ok (r, g')
      → (r ≡ none) × (g' ≡ g)
  unfolding write_entry
  write_entry-taken t h = ground arith

  pub write_entry-free :
      is_some (find i.idempotency_key g.entries) ≡ false
      → write_entry i g ≡ ok (r, g')
      → insert_lines i.idempotency_key i.currency i.lines (with_entry i g) ≡ ok g'
  unfolding write_entry
  write_entry-free t h = ground arith

  -- The keys that are taken after it.
  pub write_entry-posted :
      is_some (find i.idempotency_key g.entries) ≡ false
      → write_entry i g ≡ ok (r, g')
      → (k : LedgerKey)
      → is_some (find k g'.entries)
        ≡ (if key_eq.beq i.idempotency_key k then true else is_some (find k g.entries))
  unfolding write_entry
  write_entry-posted t h k =
      grind (arith, insert_lines-entries i.idempotency_key i.currency i.lines, find-put)

-- A committed posting: what it required, and what it wrote.
module _ (i : LedgerEntryInput) (d : Db) {r : Option LedgerKey} {d' : Db} where
  pub post_ledger_entry-eq-ok :
      post_ledger_entry i d ≡ ok (r, d')
      → (is_balanced i.lines ≡ ok true)
        × (d' ≡ record d { ledger = d'.ledger })
        × (write_entry i d.ledger ≡ ok (r, d'.ledger))
  unfolding post_ledger_entry ◌>>=◌ throw_if lift on_ledger
  post_ledger_entry-eq-ok h = ground arith
