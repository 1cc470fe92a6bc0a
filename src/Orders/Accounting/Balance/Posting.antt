-- ===== src/Orders/Accounting/Balance/Posting.antt =====
-- Double entry: what `postLedgerEntry` of backend/src/modules/orders/accounting.service.ts keeps.
use skrynia.Prelude.{◌≡◌, refl, ap, ◌∙◌, inl, inr, true, Option, none, arith, is_some, Bool-cases}
use skrynia.Prelude.Int.{int_laws}
use skrynia.Prelude.Table.{find}
use skrynia.Common.Errors.{ok}
use skrynia.Db.Keys.{LedgerKey, key_eq}
use skrynia.Db.Rows.{Db, Ledger}
use skrynia.Db.Tx.{◌>>=◌, throw_if, lift}
use skrynia.Orders.Accounting.{
  LedgerEntryInput, write_entry, is_balanced, on_ledger, post_ledger_entry,
}
use skrynia.Orders.Accounting.Balance.{
  trial_balance, is_balanced-eq-ok, insert_lines-trial, with_entry, write_entry-taken,
  write_entry-free, write_entry-posted, post_ledger_entry-eq-ok,
}

write_entry-trial :
    (i : LedgerEntryInput) (g : Ledger) {r : Option LedgerKey} {g' : Ledger}
    → is_balanced i.lines ≡ ok true
    → write_entry i g ≡ ok (r, g')
    → trial_balance g'.lines ≡ trial_balance g.lines
write_entry-trial i g b h = elim (Bool-cases (is_some (find i.idempotency_key g.entries))) [
  | inl t ↦ ap (λ x. trial_balance x.lines) ((write_entry-taken i g t h).1)
  | inr t ↦ grind (
    int_laws,
    insert_lines-trial i.idempotency_key i.currency i.lines (with_entry i g)
        (write_entry-free i g t h),
    is_balanced-eq-ok i.lines b,
  )
]

write_entry-taken_after :
    (i : LedgerEntryInput) (g : Ledger) {r : Option LedgerKey} {g' : Ledger}
    → write_entry i g ≡ ok (r, g')
    → is_some (find i.idempotency_key g'.entries) ≡ true
write_entry-taken_after i g h = elim (Bool-cases (is_some (find i.idempotency_key g.entries))) [
  | inl t ↦ ap (λ x. is_some (find i.idempotency_key x.entries)) ((write_entry-taken i g t h).1) ∙ t
  | inr t ↦
      write_entry-posted i g t h i.idempotency_key
      ∙ rw ((key_eq.beq_iff i.idempotency_key i.idempotency_key).1 refl) refl
]

module _ (i : LedgerEntryInput) (d : Db) {r : Option LedgerKey} {d' : Db} where
  -- A committed posting keeps the total of all credits less all debits.
  pub post_ledger_entry-trial_balance :
      post_ledger_entry i d ≡ ok (r, d')
      → trial_balance d'.ledger.lines ≡ trial_balance d.ledger.lines
  post_ledger_entry-trial_balance h =
      let (b, _, w) = post_ledger_entry-eq-ok i d h in write_entry-trial i d.ledger b w

  -- Posting an entry once more, after it was posted, commits, posts nothing and changes nothing.
  post_ledger_entry-again :
      post_ledger_entry i d ≡ ok (r, d') → post_ledger_entry i d' ≡ ok (none, d')
  unfolding post_ledger_entry ◌>>=◌ throw_if lift on_ledger write_entry
  post_ledger_entry-again h =
      let (b, _, w) = post_ledger_entry-eq-ok i d h in
      let taken = write_entry-taken_after i d.ledger w in ground arith
