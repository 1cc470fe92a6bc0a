-- ===== src/Db/Keeps.antt =====
-- Invariants of transactions, one rule for each way to build a transaction.
use mathlib.Core.Path.{subst}
use skrynia.Prelude.{◌≡◌, Bool, true, false, if◌then◌else◌}
use skrynia.Common.Errors.{Error, Result, ok, err}
use skrynia.Db.Rows.{Db}
use skrynia.Db.Tx.{Tx, ◌>>=◌, pure, throw, throw_if, gets, lift, reads, >>=-eq-ok}
use skrynia.Db.Tables.{reading}

-- Where `m` commits from a database with `P`, the new database has it.
pub record Keeps {A : Type 0} (P : Db → Type 0) (m : Tx A) : Type 0 where
  pub at : (d : Db) (a : A) (d' : Db) → P d → m d ≡ ok (a, d') → P d'

reading-kept :
    {A : Type 0} (P : Db → Type 0) (r : Result A) (d : Db) (b : A) (d' : Db)
    → P d
    → reading r d ≡ ok (b, d')
    → P d'
reading-kept P (ok a) d b d' h e = subst P (cc e) h
reading-kept P (err x) d b d' h e = cc e

module _ {A : Type 0} {P : Db → Type 0} where
  pub Keeps-pure : (a : A) → Keeps P (pure a)
  unfolding pure
  Keeps-pure a = record { at = λ d b d' h e. subst P (cc e) h }

  pub Keeps-throw : (x : Error) → Keeps {A = A} P (throw x)
  unfolding throw
  Keeps-throw x = record { at = λ d b d' h e. cc e }

  pub Keeps-lift : (r : Result A) → Keeps P (lift r)
  unfolding lift
  Keeps-lift (ok a) = record { at = λ d b d' h e. subst P (cc e) h }
  Keeps-lift (err x) = record { at = λ d b d' h e. cc e }

  pub Keeps-gets : (f : Db → A) → Keeps P (gets f)
  unfolding gets
  Keeps-gets f = record { at = λ d b d' h e. subst P (cc e) h }

  pub Keeps-reads : (f : Db → Result A) → Keeps P (reads f)
  unfolding reads
  Keeps-reads f = record { at = λ d b d' h e. (Keeps-lift (f d)).at d b d' h e }

  pub Keeps-reading : (f : Db → Result A) → Keeps P (λ d. reading (f d) d)
  Keeps-reading f = record { at = λ d. reading-kept P (f d) d }

  pub Keeps-if : (b : Bool) (m n : Tx A) → Keeps P m → Keeps P n → Keeps P (if b then m else n)
  Keeps-if true m n km kn = km
  Keeps-if false m n km kn = kn

module _ {P : Db → Type 0} where
  pub Keeps-throw_if : (b : Bool) (x : Error) → Keeps P (throw_if b x)
  unfolding throw_if
  Keeps-throw_if true x = record { at = λ d b d' h e. cc e }
  Keeps-throw_if false x = record { at = λ d b d' h e. subst P (cc e) h }

module _ {A B : Type 0} {P : Db → Type 0} where
  pub Keeps-bind :
      (m : Tx A) (f : A → Tx B) → Keeps P m → ((a : A) → Keeps P (f a)) → Keeps P (m >>= f)
  Keeps-bind m f km kf = record {
    at = λ d b d' h e.
        let (a, s, first, rest) = >>=-eq-ok m f d e in (kf a).at s b d' (km.at d a s h first) rest;
  }

pub ruleset keeps_rules = (
  Keeps-pure, Keeps-throw, Keeps-lift, Keeps-gets, Keeps-reads, Keeps-if, Keeps-throw_if,
  Keeps-bind,
)
