-- ===== src/Auth/Sessions/Logout.antt =====
-- `REVOKE_PRESENTED_SESSION_SCRIPT` of backend/src/modules/auth/session.service.ts: what a logout makes
-- of the credentials that a browser presents. The ids that it returns, for realtime events, are left
-- out.
use skrynia.Prelude.{ℕ, ◌+◌, List, [], ◌∷◌, false, Option, none, some, ◌==◌, leb, if◌then◌else◌}
use skrynia.Prelude.Table.{Table, put, nat_eq}
use skrynia.Prelude.Order.{filter}
use skrynia.Auth.Redis.{get, del, srem, or_empty}
use skrynia.Auth.Sessions.{
  Store, SessionConfig, RefreshRecord, plain_user, full_record, FamilyRecord, zset_of,
  logout_receipt_ttl,
}

-- `family.u`, or the user that the credential names.
abbrev pub user_or : Option ℕ → Option FamilyRecord → Option ℕ
user_or fallback none = fallback
user_or fallback (some f) = some f.user

-- The loop over the sessions of a family.
unfoldable pub end_sessions : ℕ → ℕ → Table ℕ ℕ → Store → Store
end_sessions user until [] s = s
end_sessions user until ((jti, ends) ∷ l) s = end_sessions user until l (record s {
  sessions = del jti s.sessions;
  user_sessions = srem user jti s.user_sessions;
  session_revoked = put jti (tt, until) s.session_revoked;
})

-- The loop over its tokens.
unfoldable pub end_tokens : ℕ → ℕ → ℕ → List ℕ → Store → Store
end_tokens user family until [] s = s
end_tokens user family until (hash ∷ l) s = end_tokens user family until l (record s {
  logout_receipts = put hash ((user, family), until) s.logout_receipts;
  refresh = del hash s.refresh;
  user_refresh = srem user hash s.user_refresh;
})

-- The sessions of a family that have not ended: `ZRANGEBYSCORE … now +inf`.
unfoldable pub listed_sessions : ℕ → ℕ → Store → Table ℕ ℕ
listed_sessions family now s =
    filter (λ (jti, ends). leb now ends) (zset_of (get now family s.family_sessions))

-- `revokeFamily`, for a family whose user is known.
unfoldable pub end_family : SessionConfig → ℕ → ℕ → ℕ → Store → Store
end_family c family user now s =
    let tokens : List ℕ = or_empty (get now family s.family_tokens) in
    let s₁ : Store = record s {
      families =
          put family (record { is_active = false; user = user }, now + c.refresh_ttl) s.families;
    } in
    let s₂ : Store = end_sessions user (now + c.refresh_ttl) (listed_sessions family now s) s₁ in
    let s₃ : Store =
      end_tokens user family (now + logout_receipt_ttl) tokens
        (record s₂ { family_sessions = del family s₂.family_sessions }) in
    record s₃ {
      family_tokens = del family s₃.family_tokens;
      user_families = srem user family s₃.user_families;
    }

unfoldable pub revoke_found : SessionConfig → ℕ → Option ℕ → ℕ → Store → Store × Option ℕ
revoke_found c family none now s = (s, none)
revoke_found c family (some user) now s = (end_family c family user now s, some user)

-- `revokeFamily`, with the user that it found.
unfoldable pub revoke_family : SessionConfig → ℕ → Option ℕ → ℕ → Store → Store × Option ℕ
revoke_family c family fallback now s =
    revoke_found c family (user_or fallback (get now family s.families)) now s

-- What a logout has in its cookies: the session of a valid access token, with its family where the
-- token has not expired, and the hash of the refresh token.
pub record Presented : Type 0 where
  pub access : Option (ℕ × ℕ)
  pub access_family : Option ℕ
  pub refresh_hash : Option ℕ

abbrev pub record_user : Option RefreshRecord → Option ℕ
record_user none = none
record_user (some (plain_user u)) = some u
record_user (some (full_record u v f)) = some u

abbrev pub record_family : Option RefreshRecord → Option ℕ
record_family (some (full_record u v (some f))) = some f
record_family _ = none

abbrev pub receipt_user : Option (ℕ × ℕ) → Option ℕ
receipt_user none = none
receipt_user (some (user, family)) = some user

abbrev pub receipt_family : Option (ℕ × ℕ) → Option ℕ
receipt_family none = none
receipt_family (some (user, family)) = some family

abbrev pub or_other : Option ℕ → Option ℕ → Option ℕ
or_other none b = b
or_other (some a) b = some a

-- `if not refreshFamilyId and refreshUserId then refreshFamilyId = refreshHash end`.
abbrev pub or_own : Option ℕ → Option ℕ → ℕ → Option ℕ
or_own (some f) user hash = some f
or_own none (some user) hash = some hash
or_own none none hash = none

unfoldable pub presented_user : ℕ → ℕ → Store → Option ℕ
presented_user hash now s =
    or_other (record_user (get now hash s.refresh)) (receipt_user (get now hash s.logout_receipts))

-- `refreshFamilyId`.
unfoldable pub presented_family : ℕ → ℕ → Store → Option ℕ
presented_family hash now s =
    or_own
      (or_other (get now hash s.family_for) (
        or_other (record_family (get now hash s.refresh))
          (receipt_family (get now hash s.logout_receipts))))
      (presented_user hash now s) hash

-- The family of the refresh token is revoked, unless the access token named it before.
unfoldable pub revoke_once : SessionConfig → Option ℕ → ℕ → Option ℕ → ℕ → Store → Store × Option ℕ
revoke_once c (some earlier) family fallback now s =
    if earlier == family
    then (s, user_or fallback (get now family s.families))
    else revoke_family c family fallback now s
revoke_once c none family fallback now s = revoke_family c family fallback now s

abbrev pub with_receipt : Option ℕ → ℕ → ℕ → ℕ → Store → Store
with_receipt none family hash until s = s
with_receipt (some user) family hash until s = record s {
  logout_receipts = put hash ((user, family), until) s.logout_receipts;
}

unfoldable pub revoke_named : SessionConfig → Option ℕ → Option ℕ → Option ℕ → ℕ → ℕ → Store → Store
revoke_named c earlier none user hash now s = s
revoke_named c earlier (some family) user hash now s =
    let revoked : Store × Option ℕ = revoke_once c earlier family user now s in
    with_receipt (revoked.1) family hash (now + logout_receipt_ttl) (revoked.0)

abbrev pub forget_token : Option ℕ → ℕ → Store → Store
forget_token none hash s = record s { refresh = del hash s.refresh }
forget_token (some user) hash s = record s {
  refresh = del hash s.refresh;
  user_refresh = srem user hash s.user_refresh;
}

unfoldable pub revoke_refresh : SessionConfig → Option ℕ → Option ℕ → ℕ → Store → Store
revoke_refresh c earlier none now s = s
revoke_refresh c earlier (some hash) now s =
    let user : Option ℕ = presented_user hash now s in
    forget_token user hash (revoke_named c earlier (presented_family hash now s) user hash now s)

abbrev pub access_user : Option (ℕ × ℕ) → Option ℕ
access_user none = none
access_user (some (jti, user)) = some user

-- `if accessFamilyId ~= ""`.
unfoldable pub revoke_access_family : SessionConfig → Option ℕ → Option ℕ → ℕ → Store → Store
revoke_access_family c none user now s = s
revoke_access_family c (some family) user now s = (revoke_family c family user now s).0

abbrev pub end_access : ℕ → Option (ℕ × ℕ) → Store → Store
end_access until none s = s
end_access until (some (jti, user)) s = record s {
  sessions = del jti s.sessions;
  user_sessions = srem user jti s.user_sessions;
  session_revoked = put jti (tt, until) s.session_revoked;
}

-- The script.
unfoldable pub revoke_presented : SessionConfig → Presented → ℕ → Store → Store
revoke_presented c p now s = end_access (now + c.refresh_ttl) p.access (
    revoke_refresh c p.access_family p.refresh_hash now
      (revoke_access_family c p.access_family (access_user p.access) now s))
