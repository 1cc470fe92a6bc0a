-- ===== src/Auth/Sessions.antt =====
-- backend/src/modules/auth/session.service.ts: the Redis scripts that issue, rotate and revoke the
-- credentials of a browser. Tokens are named by their hashes, families by the hash of their first
-- token, and sessions by their `jti`. A stored JSON text is the record that it spells. Each script is
-- one step, since Redis runs scripts one after the other; `now` is the time of the step, which the
-- scripts get from their caller.
pub mod Logout
pub mod Rotation
pub mod Capacity
pub mod Revocation
pub mod Families
pub mod Runs
use skrynia.Prelude.{
  ℕ, ◌+◌, List, [], ◌∷◌, Bool, true, false, not, ◌&&◌, ◌||◌, is_some, Option, none, some, ◌==◌, ltb,
  leb, if◌then◌else◌, length,
}
use skrynia.Prelude.Table.{Table, find, put, nat_eq}
use skrynia.Prelude.Order.{filter}
use skrynia.Auth.Redis.{Keys, get, del, sadd, srem, or_empty}

-- `refresh:<hash>`: a JSON record, or the user id alone in records from before the rollout.
pub data RefreshRecord : Type 0 where
  plain_user : ℕ → RefreshRecord
  full_record : ℕ → ℕ → Option ℕ → RefreshRecord

abbrev pub same_family : Option ℕ → Option ℕ → Bool
same_family none none = true
same_family (some a) (some b) = a == b
same_family _ _ = false

abbrev pub same_record : RefreshRecord → RefreshRecord → Bool
same_record (plain_user a) (plain_user b) = a == b
same_record (full_record a v f) (full_record b w g) = (a == b) && (v == w) && same_family f g
same_record _ _ = false

-- `refresh_family:<id>`: `{s, u}`.
pub record FamilyRecord : Type 0 where
  pub is_active : Bool
  pub user : ℕ

pub record Store : Type 0 where
  pub sessions : Keys ℕ
  pub refresh : Keys RefreshRecord
  pub families : Keys FamilyRecord
  pub family_for : Keys ℕ
  pub session_family : Keys ℕ
  pub family_sessions : Keys (Table ℕ ℕ)
  pub family_tokens : Keys (List ℕ)
  pub user_sessions : Keys (List ℕ)
  pub user_refresh : Keys (List ℕ)
  pub user_families : Keys (List ℕ)
  pub rotation_receipts : Keys ℕ
  pub logout_receipts : Keys (ℕ × ℕ)
  pub session_revoked : Keys (Unit {0})

-- The settings: times to live in seconds, and `REFRESH_ROTATION_ENABLED`.
pub record SessionConfig : Type 0 where
  pub access_ttl : ℕ
  pub refresh_ttl : ℕ
  pub rotates : Bool

abbrev pub alias_ttl : ℕ
alias_ttl = 300

abbrev pub rotation_receipt_ttl : ℕ
rotation_receipt_ttl = 300

abbrev pub logout_receipt_ttl : ℕ
logout_receipt_ttl = 691_200

abbrev pub max_family_sessions : ℕ
max_family_sessions = 512

pub record RotationInput : Type 0 where
  pub user : ℕ
  pub version : ℕ
  pub family : ℕ
  pub old_hash : ℕ
  pub expected : RefreshRecord
  pub jti : ℕ
  pub new_hash : ℕ
  pub previous_session : Option ℕ

-- What `ROTATE_REFRESH_SESSION_SCRIPT` returns: 0, 1 or 2.
pub data RotationReply : Type 0 where
  refused rotated over_capacity : RotationReply

abbrev pub is_record : RefreshRecord → Option RefreshRecord → Bool
is_record r none = false
is_record r (some s) = same_record s r

abbrev pub is_value : ℕ → Option ℕ → Bool
is_value a none = false
is_value a (some b) = b == a

-- `family.s == "active" and family.u == user`.
abbrev pub is_active_for : ℕ → Option FamilyRecord → Bool
is_active_for user none = false
is_active_for user (some f) = f.is_active && f.user == user

-- A family without a record is one from before the rollout.
abbrev pub may_rotate : ℕ → Option FamilyRecord → Bool
may_rotate user none = true
may_rotate user (some f) = f.is_active && f.user == user

abbrev pub new_record : RotationInput → RefreshRecord
new_record i = full_record i.user i.version (some i.family)

-- The repeated request: its receipt, its family, its new token and its new session are there.
unfoldable pub is_repeat : RotationInput → ℕ → Store → Bool
is_repeat i now s =
    is_value i.new_hash (get now i.old_hash s.rotation_receipts)
    && is_active_for i.user (get now i.family s.families)
    && is_record (new_record i) (get now i.new_hash s.refresh)
    && is_value i.user (get now i.jti s.sessions)

abbrev pub zset_of : Option (Table ℕ ℕ) → Table ℕ ℕ
zset_of none = []
zset_of (some t) = t

-- The sessions of the family that have not ended: `ZREMRANGEBYSCORE … -inf now`.
unfoldable pub current_sessions : RotationInput → ℕ → Store → Table ℕ ℕ
current_sessions i now s =
    filter (λ (jti, ends). ltb now ends) (zset_of (get now i.family s.family_sessions))

abbrev pub counted : Table ℕ ℕ → Option ℕ → ℕ
counted t none = 0
counted t (some jti) = if is_some (find jti t) then 0 else 1

-- `projectedSessionCount`.
unfoldable pub projected_count : RotationInput → Table ℕ ℕ → ℕ
projected_count i t = length t + counted t (some i.jti) + counted t i.previous_session

abbrev pub with_session : ℕ → Option ℕ → Table ℕ ℕ → Table ℕ ℕ
with_session ends none t = t
with_session ends (some jti) t = put jti ends t

abbrev pub with_bridge : RotationInput → ℕ → Option ℕ → Keys ℕ → Keys ℕ
with_bridge i until none t = t
with_bridge i until (some jti) t = put jti (i.family, until) t

abbrev pub add_session : ℕ → ℕ → ℕ → Option ℕ → Keys (List ℕ) → Keys (List ℕ)
add_session now user until none t = t
add_session now user until (some jti) t = sadd now user jti until t

-- The end of the script: the presented token is consumed.
unfoldable pub consume : Bool → RotationInput → Store → Store
consume false i s = s
consume true i s = record s {
  refresh = del i.old_hash s.refresh;
  family_tokens = srem i.family i.old_hash s.family_tokens;
  user_refresh = srem i.user i.old_hash s.user_refresh;
}

-- The members of `user_sessions` whose sessions have ended are dropped: the loop over the expired
-- sessions.
unfoldable pub drop_sessions : ℕ → List (ℕ × ℕ) → Keys (List ℕ) → Keys (List ℕ)
drop_sessions user [] t = t
drop_sessions user ((jti, ends) ∷ l) t = drop_sessions user l (srem user jti t)

unfoldable pub expired_sessions : RotationInput → ℕ → Store → Table ℕ ℕ
expired_sessions i now s =
    filter (λ (jti, ends). leb ends now) (zset_of (get now i.family s.family_sessions))

-- The purge of the sessions that have ended, which is made before the count is checked.
unfoldable pub purged : RotationInput → ℕ → Store → Store
purged i now s = record s {
  user_sessions = drop_sessions i.user (expired_sessions i now s) s.user_sessions;
  family_sessions = elim (find i.family s.family_sessions) [
    | none ↦ s.family_sessions
    | some (t, until) ↦ put i.family (current_sessions i now s, until) s.family_sessions
  ];
}

-- The writes of a rotation, to a family with these sessions.
unfoldable pub write_rotation : SessionConfig → RotationInput → Table ℕ ℕ → ℕ → Store → Store
write_rotation c i current now s =
    let ends : ℕ = now + c.access_ttl in
    let until : ℕ = now + c.refresh_ttl in
    consume c.rotates i (record s {
      families = put i.family (record { is_active = true; user = i.user }, until) s.families;
      sessions = put i.jti (i.user, ends) s.sessions;
      refresh = put i.new_hash (new_record i, until) s.refresh;
      family_for = put i.old_hash (i.family, now + alias_ttl) s.family_for;
      family_sessions =
          put i.family (with_session ends i.previous_session (put i.jti ends current), until)
            s.family_sessions;
      session_family = with_bridge i ends i.previous_session s.session_family;
      user_sessions =
          add_session now i.user until i.previous_session
            (sadd now i.user i.jti until s.user_sessions);
      family_tokens = sadd now i.family i.new_hash until s.family_tokens;
      user_refresh = sadd now i.user i.new_hash until s.user_refresh;
      user_families = sadd now i.user i.family until s.user_families;
      rotation_receipts =
          put i.old_hash (i.new_hash, now + rotation_receipt_ttl) s.rotation_receipts;
    })

-- `ROTATE_REFRESH_SESSION_SCRIPT`.
unfoldable pub rotate : SessionConfig → RotationInput → ℕ → Store → Store × RotationReply
rotate c i now s =
    if not (is_record i.expected (get now i.old_hash s.refresh))
    then (s, if is_repeat i now s then rotated else refused)
    else if not (may_rotate i.user (get now i.family s.families))
    then (s, refused)
    else if ltb max_family_sessions (projected_count i (current_sessions i now s))
    then (purged i now s, over_capacity)
    else (write_rotation c i (current_sessions i now s) now (purged i now s), rotated)

-- The transaction of `issueSession`, for a new token whose hash names its family.
unfoldable pub issue : SessionConfig → ℕ → ℕ → ℕ → ℕ → ℕ → Store → Store
issue c user version jti hash now s =
    let ends : ℕ = now + c.access_ttl in
    let until : ℕ = now + c.refresh_ttl in
    record s {
      sessions = put jti (user, ends) s.sessions;
      refresh = put hash (full_record user version (some hash), until) s.refresh;
      families = put hash (record { is_active = true; user = user }, until) s.families;
      family_for = put hash (hash, now + alias_ttl) s.family_for;
      family_sessions =
          put hash (put jti ends (zset_of (get now hash s.family_sessions)), until)
            s.family_sessions;
      family_tokens = sadd now hash hash until s.family_tokens;
      user_sessions = sadd now user jti until s.user_sessions;
      user_refresh = sadd now user hash until s.user_refresh;
      user_families = sadd now user hash until s.user_families;
    }
