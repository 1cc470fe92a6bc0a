-- ===== src/Auth/Sessions/Revocation.antt =====
-- What a logout of backend/src/modules/auth/session.service.ts leaves of a refresh family: its record
-- says that it is revoked.
use skrynia.Prelude.{
  ℕ, ◌+◌, ◌≤◌, ◌≡◌, refl, ◌∙◌, List, [], ◌∷◌, Bool, true, false, not, ◌&&◌, Option, none, some,
  ◌==◌, ltb, leb, ==_iff, if◌then◌else◌, arith,
}
use skrynia.Prelude.Table.{Table, find, put, find-put, nat_eq}
use skrynia.Auth.Redis.{Keys, get, live}
use skrynia.Auth.Sessions.{
  Store, SessionConfig, FamilyRecord, RotationInput, RotationReply, refused, is_record, may_rotate,
  is_active_for, is_repeat, current_sessions, projected_count, purged, consume, write_rotation,
  rotate, max_family_sessions,
}
use skrynia.Auth.Sessions.Logout.{end_sessions, end_tokens, listed_sessions, end_family}

abbrev is_tombstone : ℕ → Option (FamilyRecord × ℕ) → Bool
is_tombstone deadline none = false
is_tombstone deadline (some (f, until)) = not f.is_active && leb deadline until

-- The family is recorded as revoked until the deadline, or longer.
unfoldable pub IsRevoked : ℕ → ℕ → Keys FamilyRecord → Type 0
IsRevoked family deadline t = is_tombstone deadline (find family t) ≡ true

pub put-IsRevoked :
    (family deadline g user until : ℕ) (t : Keys FamilyRecord)
    → deadline ≤ until
    → IsRevoked family deadline t
    → IsRevoked family deadline (put g (record { is_active = false; user = user }, until) t)
unfolding IsRevoked
put-IsRevoked family deadline g user until t later h =
    ground (arith, find-put g family (record { is_active = false; user = user }, until) t)

pub put_other-IsRevoked :
    (family deadline g : ℕ) (r : FamilyRecord × ℕ) (t : Keys FamilyRecord)
    → (g == family) ≡ false
    → IsRevoked family deadline t
    → IsRevoked family deadline (put g r t)
unfolding IsRevoked
put_other-IsRevoked family deadline g r t other h = rw (find-put, other) h

pub new-IsRevoked :
    (family user until : ℕ) (t : Keys FamilyRecord)
    → IsRevoked family until (put family (record { is_active = false; user = user }, until) t)
unfolding IsRevoked
new-IsRevoked family user until t =
    ground (arith, find-put family family (record { is_active = false; user = user }, until) t)

end_sessions-families :
    (user until : ℕ) (l : Table ℕ ℕ) (s : Store)
    → (end_sessions user until l s).families ≡ s.families
unfolding end_sessions
end_sessions-families user until [] s = refl
end_sessions-families user until ((jti, ends) ∷ l) s = end_sessions-families user until l _

end_tokens-families :
    (user family until : ℕ) (l : List ℕ) (s : Store)
    → (end_tokens user family until l s).families ≡ s.families
unfolding end_tokens
end_tokens-families user family until [] s = refl
end_tokens-families user family until (hash ∷ l) s = end_tokens-families user family until l _

pub end_family-families :
    (c : SessionConfig) (family user now : ℕ) (s : Store)
    → (end_family c family user now s).families
      ≡ put family (record { is_active = false; user = user }, now + c.refresh_ttl) s.families
unfolding end_family
end_family-families c family user now s =
    end_tokens-families user family _ _ _
    ∙ end_sessions-families user (now + c.refresh_ttl) (listed_sessions family now s) _

-- The record of a family that refuses every rotation of it.
tombstone-refuses :
    (user deadline now : ℕ) (o : Option (FamilyRecord × ℕ))
    → ltb now deadline ≡ true
    → is_tombstone deadline o ≡ true
    → (may_rotate user (live now o) ≡ false) × (is_active_for user (live now o) ≡ false)
tombstone-refuses user deadline now none early h = ground arith
tombstone-refuses user deadline now (some (f, until)) early h = ground arith

pub rotate-refused :
    (c : SessionConfig) (i : RotationInput) (deadline now : ℕ) (s : Store)
    → ltb now deadline ≡ true
    → IsRevoked i.family deadline s.families
    → rotate c i now s ≡ (s, refused)
unfolding rotate is_repeat IsRevoked
rotate-refused c i deadline now s early h =
    ground (arith, tombstone-refuses i.user deadline now (find i.family s.families) early h)

consume-families :
    (b : Bool) (i : RotationInput) (s : Store) → (consume b i s).families ≡ s.families
unfolding consume
consume-families false i s = refl
consume-families true i s = refl

write_rotation-families :
    (c : SessionConfig) (i : RotationInput) (l : Table ℕ ℕ) (now : ℕ) (s : Store)
    → (write_rotation c i l now s).families
      ≡ put i.family (record { is_active = true; user = i.user }, now + c.refresh_ttl) s.families
unfolding write_rotation
write_rotation-families c i l now s = consume-families c.rotates i _

rotate_other-IsRevoked :
    (c : SessionConfig) (i : RotationInput) (family deadline now : ℕ) (s : Store)
    → (i.family == family) ≡ false
    → IsRevoked family deadline s.families
    → IsRevoked family deadline ((rotate c i now s).0).families
unfolding rotate purged
rotate_other-IsRevoked c i family deadline now s other h =
    on_both (not (is_record i.expected (get now i.old_hash s.refresh))) _ _ h (
      on_both (not (may_rotate i.user (get now i.family s.families))) _ _ h (
        on_both (ltb max_family_sessions (projected_count i (current_sessions i now s))) _ _
          purged_revoked
          (rw (write_rotation-families) (
            put_other-IsRevoked family deadline i.family _ (purged i now s).families other
              purged_revoked))))
  where
    on_both :
        (b : Bool) (x y : Store × RotationReply)
        → IsRevoked family deadline (x.0).families
        → IsRevoked family deadline (y.0).families
        → IsRevoked family deadline ((if b then x else y).0).families
    on_both false x y p q = q
    on_both true x y p q = p

    purged_revoked : IsRevoked family deadline (purged i now s).families
    purged_revoked = h

pub rotate-IsRevoked :
    (c : SessionConfig) (i : RotationInput) (family deadline now : ℕ) (s : Store)
    → ltb now deadline ≡ true
    → IsRevoked family deadline s.families
    → IsRevoked family deadline ((rotate c i now s).0).families
rotate-IsRevoked c i family deadline now s early h = by_family (i.family == family) refl
  where
    by_family :
        (b : Bool)
        → (i.family == family) ≡ b
        → IsRevoked family deadline ((rotate c i now s).0).families
    by_family false other = rotate_other-IsRevoked c i family deadline now s other h
    by_family true same =
        rw (rotate-refused c i deadline now s early (rw ((==_iff i.family family).0 same) h)) h
