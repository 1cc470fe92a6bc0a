-- ===== src/Auth/Sessions/Capacity.antt =====
-- The sessions of a refresh family of backend/src/modules/auth/session.service.ts after a rotation.
use skrynia.Prelude.{
  ℕ, ◌+◌, ◌≤◌, ◌<◌, ◌≡◌, refl, ap, sym, ◌∙◌, ltb, [], ◌∷◌, Bool, true, false, Option, none, some,
  length, arith,
}
use skrynia.Prelude.Table.{Table, find, put, find-put, find-put_self, nat_eq}
use skrynia.Prelude.Order.{filter}
use skrynia.Auth.Redis.{get, length-put, length-put_present}
use skrynia.Auth.Sessions.{
  Store, SessionConfig, RotationInput, rotated, is_record, current_sessions, projected_count,
  consume, write_rotation, rotate, max_family_sessions, counted, with_session,
}
use skrynia.Auth.Sessions.Rotation.{rotate-committed}

counted-put : (k v : ℕ) (t : Table ℕ ℕ) (o : Option ℕ) → counted (put k v t) o ≤ counted t o
counted-put k v t none = omega arith
counted-put k v t (some j) = ground (arith, find-put k j v t)

length-put-counted : (k v : ℕ) (t : Table ℕ ℕ) → length (put k v t) ≤ length t + counted t (some k)
length-put-counted k v t = by_row (find k t) refl
  where
    by_row : (o : Option ℕ) → find k t ≡ o → length (put k v t) ≤ length t + counted t (some k)
    by_row none h = rw h (length-put k v t)
    by_row (some w) h = ground (arith, h, length-put_present k v w t h)

length-with_session :
    (c : RotationInput) (ends : ℕ) (t : Table ℕ ℕ)
    → length (with_session ends c.previous_session (put c.jti ends t)) ≤ projected_count c t
unfolding projected_count
length-with_session c ends t = by_previous c.previous_session
  where
    by_previous :
        (o : Option ℕ)
        → length (with_session ends o (put c.jti ends t))
          ≤ length t + counted t (some c.jti) + counted t o
    by_previous none = omega (arith, length-put-counted c.jti ends t)
    by_previous (some p) = omega (
      arith,
      length-put-counted p ends (put c.jti ends t),
      length-put-counted c.jti ends t,
      counted-put c.jti ends t (some p),
    )

consume-family_sessions :
    (b : Bool) (i : RotationInput) (s : Store) → (consume b i s).family_sessions ≡ s.family_sessions
unfolding consume
consume-family_sessions false i s = refl
consume-family_sessions true i s = refl

abbrev sessions_after : SessionConfig → RotationInput → ℕ → Store → Table ℕ ℕ
sessions_after c i now s =
    with_session (now + c.access_ttl) i.previous_session
      (put i.jti (now + c.access_ttl) (current_sessions i now s))

-- Which sessions a filter by the end keeps.
find-filter_live :
    (jti now ends : ℕ) (t : Table ℕ ℕ)
    → find jti t ≡ some ends
    → now < ends
    → find jti (filter (λ (j, e). ltb now e) t) ≡ some ends
unfolding find filter
find-filter_live jti now ends [] there lasts = absurd (cc)
find-filter_live jti now ends ((j, e) ∷ t) there lasts =
    ground (arith, find-filter_live jti now ends t)

filter_live-find :
    (jti now ends : ℕ) (t : Table ℕ ℕ)
    → find jti (filter (λ (j, e). ltb now e) t) ≡ some ends
    → now < ends
unfolding find filter
filter_live-find jti now ends [] there = absurd (cc)
filter_live-find jti now ends ((j, e) ∷ t) there = ground (arith, filter_live-find jti now ends t)

find-with_session :
    (ends jti : ℕ) (p : Option ℕ) (new : ℕ) (t : Table ℕ ℕ)
    → ¬ (jti ≡ new)
    → ¬ (p ≡ some jti)
    → find jti (with_session ends p (put new ends t)) ≡ find jti t
find-with_session ends jti none new t other apart = ground (arith, find-put new jti ends t)
find-with_session ends jti (some q) new t other apart =
    let x = find-put q jti ends (put new ends t) in
    let y = find-put new jti ends t in let z : ¬ (q ≡ jti) = λ e. apart (ap some e) in ground arith

find-with_session_new :
    (ends : ℕ) (p : Option ℕ) (new : ℕ) (t : Table ℕ ℕ)
    → find new (with_session ends p (put new ends t)) ≡ some ends
find-with_session_new ends none new t = find-put_self new ends t
find-with_session_new ends (some q) new t =
    let x = find-put q new ends (put new ends t) in let y = find-put_self new ends t in ground arith

-- The sessions of a family after a rotation at `now` that left it with the table `t`.
pub record IsExtended (c : SessionConfig) (i : RotationInput) (now : ℕ) (s : Store) (t : Table ℕ ℕ)
    : Type 0 where
  pub bounded : length t ≤ 512
  pub new : find i.jti t ≡ some (now + c.access_ttl)
  pub previous : (jti : ℕ) → i.previous_session ≡ some jti → find jti t ≡ some (now + c.access_ttl)
  -- A session that had not ended is there still.
  pub kept :
      (u : Table ℕ ℕ) (until jti ends : ℕ)
      → find i.family s.family_sessions ≡ some (u, until)
      → now < until
      → find jti u ≡ some ends
      → now < ends
      → ¬ (jti ≡ i.jti)
      → ¬ (i.previous_session ≡ some jti)
      → find jti t ≡ some ends
  -- One that had ended is not.
  pub current :
      (jti ends : ℕ)
      → find jti t ≡ some ends
      → ¬ (jti ≡ i.jti)
      → ¬ (i.previous_session ≡ some jti)
      → now < ends

sessions_after-IsExtended :
    (c : SessionConfig) (i : RotationInput) (now : ℕ) (s : Store)
    → projected_count i (current_sessions i now s) ≤ max_family_sessions
    → IsExtended c i now s (sessions_after c i now s)
unfolding current_sessions
sessions_after-IsExtended c i now s few = record {
  bounded =
      omega (arith, few, length-with_session i (now + c.access_ttl) (current_sessions i now s));
  new = find-with_session_new (now + c.access_ttl) i.previous_session i.jti _;
  previous = λ jti e. rw e (find-put_self jti (now + c.access_ttl) _);
  kept = λ u until jti ends listed lives there lasts other apart.
      let alive : ltb now until ≡ true = ground arith in
      find-with_session (now + c.access_ttl) jti i.previous_session i.jti _ other apart
      ∙ rw (listed, alive) (find-filter_live jti now ends u there lasts);
  current = λ jti ends there other apart. filter_live-find jti now ends _ (
      sym (
        find-with_session (now + c.access_ttl) jti i.previous_session i.jti
          (current_sessions i now s) other apart)
      ∙ there);
}

-- A rotation of a live token leaves its family with at most 512 sessions: the new session and the one
-- that it came from, each with a full time to live, and all others that had not ended, as they were; no
-- session is dropped to make room, and none that had ended stays.
pub rotate-bounded :
    (c : SessionConfig) (i : RotationInput) (now : ℕ) (s s' : Store)
    → is_record i.expected (get now i.old_hash s.refresh) ≡ true
    → rotate c i now s ≡ (s', rotated)
    → (t : Table ℕ ℕ) × (find i.family s'.family_sessions ≡ some (t, now + c.refresh_ttl))
      × IsExtended c i now s t
unfolding write_rotation
rotate-bounded c i now s s' live_token committed =
    let (_, few, written) = rotate-committed c i now s s' live_token committed in
    (
      sessions_after c i now s,
      rw (written, consume-family_sessions c.rotates i, find-put_self),
      sessions_after-IsExtended c i now s few,
    )
