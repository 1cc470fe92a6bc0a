-- ===== src/Tests/Sessions.antt =====
-- Sessions of backend/src/modules/auth/session.service.ts on a store with one login.
use skrynia.Prelude.{◌≡◌, refl, ℕ, ◌∷◌, [], none, some, true}
use skrynia.Prelude.Table.{Table, find, put, nat_eq}
use skrynia.Prelude.Order.{filter}
use skrynia.Auth.Redis.{del, without_member}
use skrynia.Auth.Sessions.{
  Store, SessionConfig, RotationInput, full_record, refused, rotated, issue, rotate, write_rotation,
  consume, drop_sessions, expired_sessions, purged, current_sessions, projected_count, is_repeat,
}
use skrynia.Auth.Sessions.Logout.{Presented, presented_family, presented_user, revoke_presented}
use skrynia.Auth.Sessions.Rotation.{rotate-once, rotate-repeats}
use skrynia.Auth.Sessions.Capacity.{rotate-bounded, IsExtended}
use skrynia.Auth.Sessions.Families.{by_refresh}
use skrynia.Auth.Sessions.Runs.{stop, next, rotates, issues, revoke_presented-final}

-- The scripts and all that they call.
unfoldable scripts : Unit {0}
unfolding consume current_sessions del drop_sessions expired_sessions filter find is_repeat issue
    presented_family presented_user projected_count purged put rotate without_member write_rotation
scripts = tt

abbrev settings : SessionConfig
settings = record { access_ttl = 900; refresh_ttl = 604_800; rotates = true }

abbrev nothing : Store
nothing = record {
  sessions = [];
  refresh = [];
  families = [];
  family_for = [];
  session_family = [];
  family_sessions = [];
  family_tokens = [];
  user_sessions = [];
  user_refresh = [];
  user_families = [];
  rotation_receipts = [];
  logout_receipts = [];
  session_revoked = [];
}

-- User 7 has logged in at 1,000 with session 40 and token 500.
abbrev logged_in : Store
logged_in = issue settings 7 1 40 500 1_000 nothing

-- At 1,600 the token is exchanged for token 501.
abbrev refresh_input : RotationInput
refresh_input = record {
  user = 7;
  version = 1;
  family = 500;
  old_hash = 500;
  expected = full_record 7 1 (some 500);
  jti = 41;
  new_hash = 501;
  previous_session = none;
}

abbrev stolen_input : RotationInput
stolen_input = record refresh_input { jti = 42; new_hash = 666 }

abbrev refreshed : Store
refreshed = (rotate settings refresh_input 1_600 logged_in).0

rotate-once_example : rotate settings stolen_input 1_700 refreshed ≡ (refreshed, refused)
unfolding scripts
rotate-once_example =
    rotate-once settings settings refresh_input stolen_input 1_600 1_700 logged_in refreshed refl
      refl refl refl refl

rotate-repeats_example : rotate settings refresh_input 1_700 refreshed ≡ (refreshed, rotated)
unfolding scripts
rotate-repeats_example =
    rotate-repeats settings settings refresh_input 1_600 1_700 logged_in refreshed refl refl refl
      refl refl refl refl

rotate-bounded_example :
    (t : Table ℕ ℕ) × (find 500 refreshed.family_sessions ≡ some (t, 606_400))
    × IsExtended settings refresh_input 1_600 logged_in t
unfolding scripts
rotate-bounded_example = rotate-bounded settings refresh_input 1_600 logged_in refreshed refl refl

-- The session of the login is still there after the exchange.
both_sessions : find 500 refreshed.family_sessions ≡ some ((40, 1_900) ∷ (41, 2_500) ∷ [], 606_400)
unfolding scripts
both_sessions = refl

-- At 1,650 user 7 logs out with the old token, whose family is found by its alias; then the new token
-- is presented, another browser logs in, and the new token is presented again.
abbrev presented : Presented
presented = record { access = none; access_family = none; refresh_hash = some 500 }

abbrev logged_out : Store
logged_out = revoke_presented settings presented 1_650 refreshed

abbrev late_input : RotationInput
late_input = record refresh_input {
  old_hash = 501;
  expected = full_record 7 1 (some 500);
  jti = 43;
  new_hash = 502;
}

abbrev tried : Store
tried = (rotate settings late_input 1_660 logged_out).0

abbrev elsewhere_logged_in : Store
elsewhere_logged_in = issue settings 7 1 44 503 1_670 tried

revoke_presented-final_example :
    rotate settings late_input 1_680 elsewhere_logged_in ≡ (elsewhere_logged_in, refused)
unfolding scripts
revoke_presented-final_example =
    revoke_presented-final settings presented late_input 1_650 1_680 refreshed elsewhere_logged_in
      (by_refresh 500 7 refl refl refl refl)
      (next (rotates late_input 1_660 logged_out refl)
        (next (issues 7 1 44 503 1_670 tried refl) stop))
      refl
