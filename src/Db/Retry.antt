-- ===== src/Db/Retry.antt =====
-- `inSerializableTx` of backend/src/db/pool.ts: a transaction with bounded retries. What other
-- transactions write before an attempt, and which attempts the database ends for their sake, are
-- parameters. The delays between attempts, the metrics and the log are left out.
use skrynia.Prelude.{
  ℕ, zero, suc, ◌+◌, ◌-◌, ◌≤◌, ◌<◌, ◌≡◌, refl, Bool, true, false, Option, none, some, arith, leb,
  inl, inr, Bool-cases, Option-cases, ◌⊎◌, get_or, if◌then◌else◌,
}
use skrynia.Common.Errors.{
  Error, Result, ok, err, pg, PgError, serialization_failure, deadlock_detected,
}
use skrynia.Db.Rows.{Db}
use skrynia.Db.Tx.{Tx, Action, in_tx, in_tx-cases}

-- `retryableTxCode(error) !== null`.
unfoldable pub is_retryable : Error → Bool
is_retryable (pg serialization_failure) = true
is_retryable (pg deadlock_detected) = true
is_retryable _ = false

-- `Math.max(1, options.maxAttempts ?? 3)`.
abbrev pub max_attempts : Option ℕ → ℕ
max_attempts wanted = if leb 1 (get_or wanted 3) then get_or wanted 3 else 1

module _ {A : Type 0} (fn : Tx A) (others : ℕ → Db → Db) (collision : ℕ → Db → Option PgError) where
  -- One `inTxWithIsolation("SERIALIZABLE", fn)`.
  unfoldable pub run_unless : Option PgError → Action A
  run_unless none d = in_tx fn d
  run_unless (some e) d = (err (pg e), d)

  unfoldable pub attempt : ℕ → Action A
  attempt n d = run_unless (collision n (others n d)) (others n d)

  -- After an attempt: a retryable failure goes on with the rest of the loop.
  unfoldable pub after_attempt : Action A → Result A × Db → Result A × Db
  after_attempt rest (ok a, s) = (ok a, s)
  after_attempt rest (err e, s) = if is_retryable e then rest s else (err e, s)

  -- The loop, with as many attempts left after this one as the first argument.
  unfoldable pub attempts : ℕ → ℕ → Action A
  attempts zero n d = attempt n d
  attempts (suc left) n d = after_attempt (attempts left (suc n)) (attempt n d)

  -- `inSerializableTx`.
  unfoldable pub in_serializable_tx : Option ℕ → Action A
  in_serializable_tx wanted = attempts (max_attempts wanted - 1) 1

  -- The attempts from `n` to before `m` failed for the sake of other transactions, and left nothing.
  pub data Failures : ℕ → ℕ → Db → Db → Type 0 where
    no_failure : {n : ℕ} {d : Db} → Failures n n d d
    failure :
        {n m : ℕ} {d t : Db} (e : Error)
        → is_retryable e ≡ true
        → attempt n d ≡ (err e, others n d)
        → Failures (suc n) m (others n d) t
        → Failures n m d t

  -- A failed attempt leaves what the others have written.
  attempt-cases :
      (n : ℕ) (d : Db)
      → ((a : A) × (s : Db) × (attempt n d ≡ (ok a, s)))
        ⊎ ((e : Error) × (attempt n d ≡ (err e, others n d)))
  unfolding attempt run_unless
  attempt-cases n d = elim (Option-cases (collision n (others n d))) [
    | inr (e, x) ↦ inr (pg e, rw x refl)
    | inl x ↦ elim (in_tx-cases fn (others n d)) [
      | inl (a, s, _, y) ↦ inl (a, s, rw x y)
      | inr (e, _, y) ↦ inr (e, rw x y)
    ]
  ]

  attempts-last :
      (left n : ℕ) (d : Db)
      → (m : ℕ) × (s : Db) × (m ≤ n + left)
        × Failures n m d s
        × (attempts left n d ≡ attempt m s)
        × (m < n + left → (e : Error) → attempt m s ≡ (err e, others m s) → is_retryable e ≡ false)
  unfolding attempts after_attempt
  attempts-last zero n d = (n, d, omega arith, no_failure, refl, λ h e x. absurd (omega arith))
  attempts-last (suc left) n d = elim (attempt-cases n d) [
    | inl (a, s, x) ↦ (n, d, omega arith, no_failure, rw x refl, λ h e y. cc)
    | inr (e, x) ↦ elim (Bool-cases (is_retryable e)) [
      | inr hard ↦ (
        n,
        d,
        omega arith,
        no_failure,
        rw (x, hard) refl,
        λ h f y. let same : e ≡ f = cc in rw⁻¹ same hard,
      )
      | inl soft ↦
          let (m, s, bound, before, last, final) = attempts-last left (suc n) (others n d) in
          (m, s, omega arith, failure e soft x before, rw (x, soft) last, λ h. final (omega arith))
    ]
  ]

  -- An `inSerializableTx` ends, with the outcome of one of its attempts, which are at most as many as
  -- allowed: each attempt before that one failed with a retryable error and left nothing of the
  -- transaction; and if that one failed too, its error was not retryable, or it was the last allowed.
  pub in_serializable_tx-bounded :
      (wanted : Option ℕ) (d : Db)
      → (m : ℕ) × (s : Db) × (m ≤ max_attempts wanted)
        × Failures 1 m d s
        × (in_serializable_tx wanted d ≡ attempt m s)
        × (m < max_attempts wanted
            → (e : Error) → attempt m s ≡ (err e, others m s)
            → is_retryable e ≡ false)
  unfolding in_serializable_tx
  in_serializable_tx-bounded wanted d =
      let (m, s, bound, before, same, final) = attempts-last (max_attempts wanted - 1) 1 d in
      let least : 1 ≤ max_attempts wanted = ground arith in
      (m, s, omega arith, before, same, λ h. final (omega arith))
