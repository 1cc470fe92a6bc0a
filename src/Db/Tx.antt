-- ===== src/Db/Tx.antt =====
-- backend/src/db/pool.ts: a transaction is a function on the database that returns a result and the
-- new database, or throws. `in_tx` commits the one and rolls the other back.
use skrynia.Prelude.{◌≡◌, refl, Bool, false, if◌then◌else◌, arith, ◌⊎◌, inl, inr}
use skrynia.Common.Errors.{Error, Result, ok, err}
use skrynia.Db.Rows.{Db}

abbrev pub Tx : Type 0 → Type 0
Tx A = Db → Result (A × Db)

abbrev pub continue : {A B : Type 0} → (A → Tx B) → Result (A × Db) → Result (B × Db)
continue f (ok (a, d)) = f a d
continue f (err e) = err e

infixl 5 ◌>>=◌ ◌>>◌
unfoldable pub ◌>>=◌ : {A B : Type 0} → Tx A → (A → Tx B) → Tx B
◌>>=◌ m f d = continue f (m d)

abbrev pub ◌>>◌ : {A B : Type 0} → Tx A → Tx B → Tx B
m >> k = m >>= λ _. k

module _ {A : Type 0} where
  unfoldable pub pure : A → Tx A
  pure a d = ok (a, d)

  unfoldable pub throw : Error → Tx A
  throw e d = err e

  unfoldable pub gets : (Db → A) → Tx A
  gets f d = ok (f d, d)

  -- A computation without a database in it.
  unfoldable pub lift : Result A → Tx A
  lift (ok a) d = ok (a, d)
  lift (err e) d = err e

  -- A question that the code asks of the database, which may throw.
  unfoldable pub reads : (Db → Result A) → Tx A
  unfolding lift
  reads f d = lift (f d) d

  -- `catch (error) { throw f(error) }` round a computation without a database in it.
  abbrev pub rethrow : (Error → Error) → Result A → Result A
  rethrow f (ok a) = ok a
  rethrow f (err e) = err (f e)

-- `if (c) throw e`.
unfoldable pub throw_if : Bool → Error → Tx (Unit {0})
throw_if c e d = if c then err e else ok (tt, d)

unfoldable pub modify : (Db → Db) → Tx (Unit {0})
modify f d = ok (tt, f d)

-- What a caller sees: the result, and the database after it.
abbrev pub Action : Type 0 → Type 0
Action A = Db → Result A × Db

-- `inTx` and `inSerializableTx`: commit, or roll back and throw. Other transactions run before or
-- after, and a serialization failure is retried outside.
unfoldable pub in_tx : {A : Type 0} → Tx A → Action A
in_tx m d = elim (m d) [ ok (a, d') ↦ (ok a, d') | err e ↦ (err e, d) ]

continue-eq-ok :
    {A B : Type 0} (f : A → Tx B) (r : Result (A × Db)) {b : B} {d' : Db}
    → continue f r ≡ ok (b, d')
    → (a : A) × (s : Db) × (r ≡ ok (a, s)) × (f a s ≡ ok (b, d'))
continue-eq-ok f (ok (a, s)) h = (a, s, refl, h)
continue-eq-ok f (err e) h = cc

-- A committed sequence, taken apart: its first step committed, and then its second.
pub >>=-eq-ok :
    {A B : Type 0} (m : Tx A) (f : A → Tx B) (d : Db) {b : B} {d' : Db}
    → (m >>= f) d ≡ ok (b, d')
    → (a : A) × (s : Db) × (m d ≡ ok (a, s)) × (f a s ≡ ok (b, d'))
unfolding ◌>>=◌
>>=-eq-ok m f d h = continue-eq-ok f (m d) h

-- A guard that let a transaction through was false.
pub throw_if-eq-ok :
    (c : Bool) (e : Error) (d : Db) {u : Unit {0}} {d' : Db}
    → throw_if c e d ≡ ok (u, d')
    → (c ≡ false) × (d' ≡ d)
unfolding throw_if
throw_if-eq-ok c e d h = ground arith

pub in_tx-ok :
    {A : Type 0} (m : Tx A) (d : Db) {a : A} {s : Db} → m d ≡ ok (a, s) → in_tx m d ≡ (ok a, s)
unfolding in_tx
in_tx-ok m d h = rw (in_tx, h) refl

pub in_tx-err : {A : Type 0} (m : Tx A) (d : Db) {e : Error} → m d ≡ err e → in_tx m d ≡ (err e, d)
unfolding in_tx
in_tx-err m d h = rw (in_tx, h) refl

-- A committed transaction, or one that was rolled back.
pub in_tx-cases :
    {A : Type 0} (m : Tx A) (d : Db)
    → ((a : A) × (s : Db) × (m d ≡ ok (a, s)) × (in_tx m d ≡ (ok a, s)))
      ⊎ ((e : Error) × (m d ≡ err e) × (in_tx m d ≡ (err e, d)))
unfolding in_tx
in_tx-cases {A = A} m d = decided (m d) refl
  where
    decided :
        (r : Result (A × Db))
        → m d ≡ r
        → ((a : A) × (s : Db) × (m d ≡ ok (a, s)) × (in_tx m d ≡ (ok a, s)))
          ⊎ ((e : Error) × (m d ≡ err e) × (in_tx m d ≡ (err e, d)))
    decided (ok (a, s)) h = inl (a, s, h, rw (in_tx, h) refl)
    decided (err e) h = inr (e, h, rw (in_tx, h) refl)

pub in_tx-eq-ok :
    {A : Type 0} (m : Tx A) (d : Db) {a : A} {s : Db} → in_tx m d ≡ (ok a, s) → m d ≡ ok (a, s)
in_tx-eq-ok m d h = elim (in_tx-cases m d) [ inl (b, t, e, r) ↦ (cc) | inr (x, e, r) ↦ absurd (cc) ]
