-- ===== src/Auth/Sessions/Runs.antt =====
-- Any sequence of logins, refreshes and logouts of backend/src/modules/auth/session.service.ts, each a
-- step of its own, after a logout.
use skrynia.Prelude.{ℕ, ◌+◌, ◌≤◌, ◌≡◌, true, false, ◌==◌, ltb, arith}
use skrynia.Prelude.Table.{nat_eq}
use skrynia.Auth.Sessions.{Store, SessionConfig, RotationInput, refused, rotate, issue}
use skrynia.Auth.Sessions.Logout.{Presented, revoke_presented}
use skrynia.Auth.Sessions.Revocation.{
  IsRevoked, put_other-IsRevoked, rotate-IsRevoked, rotate-refused,
}
use skrynia.Auth.Sessions.Families.{Names, revoke_presented-Kept, revoke_presented-IsRevoked}

-- A step after `start`, before the tombstones of `start` expire. A login makes a token of its own, whose
-- hash is not the id of the family.
pub data Step (c : SessionConfig) (family start : ℕ) : Store → Store → Type 0 where
  issues :
      (user version jti hash now : ℕ) (s : Store)
      → (hash == family) ≡ false
      → Step c family start s (issue c user version jti hash now s)
  rotates :
      (i : RotationInput) (now : ℕ) (s : Store)
      → ltb now (start + c.refresh_ttl) ≡ true
      → Step c family start s (rotate c i now s).0
  logs_out :
      (p : Presented) (now : ℕ) (s : Store)
      → start ≤ now
      → Step c family start s (revoke_presented c p now s)

pub data Steps (c : SessionConfig) (family start : ℕ) : Store → Store → Type 0 where
  stop : {s : Store} → Steps c family start s s
  next :
      {s t u : Store}
      → Step c family start s t
      → Steps c family start t u
      → Steps c family start s u

module _ {c : SessionConfig} {family start : ℕ} where
  Step-IsRevoked :
      {s t : Store}
      → Step c family start s t
      → IsRevoked family (start + c.refresh_ttl) s.families
      → IsRevoked family (start + c.refresh_ttl) t.families
  unfolding issue
  Step-IsRevoked (issues user version jti hash now s other) h =
      put_other-IsRevoked family (start + c.refresh_ttl) hash _ s.families other h
  Step-IsRevoked (rotates i now s early) h =
      rotate-IsRevoked c i family (start + c.refresh_ttl) now s early h
  Step-IsRevoked (logs_out p now s later) h =
      revoke_presented-Kept c family (start + c.refresh_ttl) now (omega arith) p s h

  Steps-IsRevoked :
      {s t : Store}
      → Steps c family start s t
      → IsRevoked family (start + c.refresh_ttl) s.families
      → IsRevoked family (start + c.refresh_ttl) t.families
  Steps-IsRevoked stop h = h
  Steps-IsRevoked (next x l) h = Steps-IsRevoked l (Step-IsRevoked x h)

-- A late refresh cannot bring a session back: after a logout that names a family, through any logins of
-- other families, refreshes and logouts, every rotation of that family is refused and writes nothing,
-- for as long as a refresh token that is issued at the logout would live.
pub revoke_presented-final :
    (c : SessionConfig) (p : Presented) (i : RotationInput) (start now : ℕ) (s t : Store)
    → Names p start s i.family
    → Steps c i.family start (revoke_presented c p start s) t
    → ltb now (start + c.refresh_ttl) ≡ true
    → rotate c i now t ≡ (t, refused)
revoke_presented-final c p i start now s t named l early =
    rotate-refused c i (start + c.refresh_ttl) now t early
      (Steps-IsRevoked l (revoke_presented-IsRevoked c i.family start p s named))
