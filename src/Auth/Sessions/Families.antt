-- ===== src/Auth/Sessions/Families.antt =====
-- What the steps of a logout of backend/src/modules/auth/session.service.ts leave of the families that
-- were revoked before, and of the family that it names.
use skrynia.Prelude.{
  ℕ, ◌+◌, ◌≤◌, ◌≡◌, refl, Bool, true, false, Option, none, some, ◌==◌, if◌then◌else◌, arith,
}
use skrynia.Prelude.Table.{nat_eq}
use skrynia.Auth.Redis.{get}
use skrynia.Auth.Sessions.{logout_receipt_ttl, Store, SessionConfig, FamilyRecord}
use skrynia.Auth.Sessions.Logout.{
  Presented, end_family, user_or, revoke_family, presented_user, presented_family, revoke_once,
  revoke_named, revoke_refresh, revoke_access_family, end_access, revoke_presented, forget_token,
  with_receipt, revoke_found, access_user,
}
use skrynia.Auth.Sessions.Revocation.{IsRevoked, put-IsRevoked, new-IsRevoked, end_family-families}

-- The families that the steps of a logout leave.
module _ (c : SessionConfig) (family deadline now : ℕ)
    (later : deadline ≤ now + c.refresh_ttl) where
  abbrev Kept : Store → Type 0
  Kept s = IsRevoked family deadline s.families

  end_family-Kept : (g user : ℕ) (s : Store) → Kept s → Kept (end_family c g user now s)
  end_family-Kept g user s h =
      rw (end_family-families) (put-IsRevoked family deadline g user _ s.families later h)

  revoke_family-Kept :
      (g : ℕ) (fallback : Option ℕ) (s : Store) → Kept s → Kept (revoke_family c g fallback now s).0
  unfolding revoke_family revoke_found
  revoke_family-Kept g fallback s h = by_user (user_or fallback (get now g s.families))
    where
      by_user : (o : Option ℕ) → Kept (revoke_found c g o now s).0
      by_user none = h
      by_user (some user) = end_family-Kept g user s h

  revoke_access_family-Kept :
      (o user : Option ℕ) (s : Store) → Kept s → Kept (revoke_access_family c o user now s)
  unfolding revoke_access_family
  revoke_access_family-Kept none user s h = h
  revoke_access_family-Kept (some g) user s h = revoke_family-Kept g user s h

  revoke_once-Kept :
      (earlier : Option ℕ) (g : ℕ) (user : Option ℕ) (s : Store)
      → Kept s
      → Kept (revoke_once c earlier g user now s).0
  unfolding revoke_once
  revoke_once-Kept none g user s h = revoke_family-Kept g user s h
  revoke_once-Kept (some e) g user s h = by_test (e == g)
    where
      by_test :
          (b : Bool)
          → Kept
              (if b
                then (s, user_or user (get now g s.families))
                else revoke_family c g user now s).0
      by_test true = h
      by_test false = revoke_family-Kept g user s h

  with_receipt-Kept :
      (o : Option ℕ) (g hash until : ℕ) (s : Store) → Kept s → Kept (with_receipt o g hash until s)
  with_receipt-Kept none g hash until s h = h
  with_receipt-Kept (some user) g hash until s h = h

  forget_token-Kept : (o : Option ℕ) (hash : ℕ) (s : Store) → Kept s → Kept (forget_token o hash s)
  forget_token-Kept none hash s h = h
  forget_token-Kept (some user) hash s h = h

  revoke_named-Kept :
      (earlier o user : Option ℕ) (hash : ℕ) (s : Store)
      → Kept s
      → Kept (revoke_named c earlier o user hash now s)
  unfolding revoke_named
  revoke_named-Kept earlier none user hash s h = h
  revoke_named-Kept earlier (some g) user hash s h =
      with_receipt-Kept (revoke_once c earlier g user now s).1 g hash _
        (revoke_once c earlier g user now s).0 (revoke_once-Kept earlier g user s h)

  revoke_refresh-Kept :
      (earlier o : Option ℕ) (s : Store) → Kept s → Kept (revoke_refresh c earlier o now s)
  unfolding revoke_refresh
  revoke_refresh-Kept earlier none s h = h
  revoke_refresh-Kept earlier (some hash) s h =
      forget_token-Kept (presented_user hash now s) hash _ (
        revoke_named-Kept earlier (presented_family hash now s) (presented_user hash now s) hash s
          h)

  end_access-Kept :
      (until : ℕ) (o : Option (ℕ × ℕ)) (s : Store) → Kept s → Kept (end_access until o s)
  end_access-Kept until none s h = h
  end_access-Kept until (some (jti, user)) s h = h

  pub revoke_presented-Kept :
      (p : Presented) (s : Store) → Kept s → Kept (revoke_presented c p now s)
  unfolding revoke_presented
  revoke_presented-Kept p s h = end_access-Kept _ p.access _ (
      revoke_refresh-Kept p.access_family p.refresh_hash _
        (revoke_access_family-Kept p.access_family (access_user p.access) s h))

-- The family that a logout names, its user being known: that of a valid access token, or else that of
-- the refresh token, where the token or the record of the family names the user.
pub data Names (p : Presented) (now : ℕ) (s : Store) (family : ℕ) : Type 0 where
  by_access :
      (jti user : ℕ)
      → p.access ≡ some (jti, user)
      → p.access_family ≡ some family
      → Names p now s family
  by_refresh :
      (hash user : ℕ)
      → p.access_family ≡ none
      → p.refresh_hash ≡ some hash
      → presented_family hash now s ≡ some family
      → user_or (presented_user hash now s) (get now family s.families) ≡ some user
      → Names p now s family

module _ (c : SessionConfig) (family now : ℕ) where
  abbrev Ended : Store → Type 0
  Ended s = IsRevoked family (now + c.refresh_ttl) s.families

  revoke_family-Ended :
      (fallback : Option ℕ) (user : ℕ) (s : Store)
      → user_or fallback (get now family s.families) ≡ some user
      → Ended (revoke_family c family fallback now s).0
  unfolding revoke_family revoke_found
  revoke_family-Ended fallback user s h =
      rw (h, end_family-families) (new-IsRevoked family user (now + c.refresh_ttl) s.families)

  revoke_known-Ended : (user : ℕ) (s : Store) → Ended (revoke_family c family (some user) now s).0
  revoke_known-Ended user s = by_record (get now family s.families) refl
    where
      by_record :
          (o : Option FamilyRecord)
          → get now family s.families ≡ o
          → Ended (revoke_family c family (some user) now s).0
      by_record none h = revoke_family-Ended (some user) user s (rw h)
      by_record (some f) h = revoke_family-Ended (some user) f.user s (rw h)

  -- After a logout the family that it names is revoked for the time to live of refresh tokens.
  pub revoke_presented-IsRevoked :
      (p : Presented) (s : Store) → Names p now s family → Ended (revoke_presented c p now s)
  unfolding revoke_presented revoke_access_family revoke_refresh revoke_named revoke_once
  revoke_presented-IsRevoked p s (by_access jti user named listed) =
      end_access-Kept c family (now + c.refresh_ttl) now (omega arith) _ p.access _ (
        revoke_refresh-Kept c family (now + c.refresh_ttl) now (omega arith) p.access_family
          p.refresh_hash _ (rw (named, listed) (revoke_known-Ended user s)))
  revoke_presented-IsRevoked p s (by_refresh hash user unlisted shown known owned) =
      end_access-Kept c family (now + c.refresh_ttl) now (omega arith) _ p.access _ (
        rw (unlisted, shown, known)
          (forget_token-Kept c family (now + c.refresh_ttl) now (omega arith)
            (presented_user hash now s) hash
            (with_receipt (revoke_family c family (presented_user hash now s) now s).1 family hash
              (now + logout_receipt_ttl)
              (revoke_family c family (presented_user hash now s) now s).0)
            (with_receipt-Kept c family (now + c.refresh_ttl) now (omega arith)
              (revoke_family c family (presented_user hash now s) now s).1 family hash _
              (revoke_family c family (presented_user hash now s) now s).0
              (revoke_family-Ended (presented_user hash now s) user s owned))))
