-- ===== src/Auth/Sessions/Rotation.antt =====
-- The rotation of a refresh token of backend/src/modules/auth/session.service.ts: a token is exchanged
-- once.
use skrynia.Prelude.{
  ℕ, ◌+◌, ◌≤◌, ◌≡◌, refl, ap, ◌∙◌, Bool, true, false, none, some, ◌==◌, ltb, arith,
}
use skrynia.Prelude.Table.{Table, find, put, find-put_self, nat_eq}
use skrynia.Auth.Redis.{Keys, get, live, find-del}
use skrynia.Auth.Sessions.{
  Store, SessionConfig, RotationInput, refused, rotated, is_record, is_value, new_record,
  may_rotate, is_repeat, current_sessions, projected_count, purged, consume, write_rotation, rotate,
  max_family_sessions, rotation_receipt_ttl,
}

-- What a rotation of a live token has tested and written.
pub rotate-committed :
    (c : SessionConfig) (i : RotationInput) (now : ℕ) (s s' : Store)
    → is_record i.expected (get now i.old_hash s.refresh) ≡ true
    → rotate c i now s ≡ (s', rotated)
    → (may_rotate i.user (get now i.family s.families) ≡ true)
      × (projected_count i (current_sessions i now s) ≤ max_family_sessions)
      × (s' ≡ write_rotation c i (current_sessions i now s) now (purged i now s))
unfolding rotate
rotate-committed c i now s s' live_token h = ground arith

consume-refresh :
    (b : Bool) (i : RotationInput) (s : Store)
    → b ≡ true
    → find i.old_hash (consume b i s).refresh ≡ none
unfolding consume
consume-refresh false i s h = ground (arith, h)
consume-refresh true i s h = rw (find-del, (nat_eq.beq_iff i.old_hash i.old_hash).1 refl)

consume-rotation_receipts :
    (b : Bool) (i : RotationInput) (s : Store)
    → (consume b i s).rotation_receipts ≡ s.rotation_receipts
unfolding consume
consume-rotation_receipts false i s = refl
consume-rotation_receipts true i s = refl

consumed_token :
    (c : SessionConfig) (i : RotationInput) (t : Table ℕ ℕ) (now : ℕ) (s : Store)
    → c.rotates ≡ true
    → find i.old_hash (write_rotation c i t now s).refresh ≡ none
unfolding write_rotation
consumed_token c i t now s h = consume-refresh c.rotates i _ h

written_receipt :
    (c : SessionConfig) (i : RotationInput) (t : Table ℕ ℕ) (now : ℕ) (s : Store)
    → find i.old_hash (write_rotation c i t now s).rotation_receipts
      ≡ some (i.new_hash, now + rotation_receipt_ttl)
unfolding write_rotation
written_receipt c i t now s =
    ap (find i.old_hash) (consume-rotation_receipts c.rotates i _)
    ∙ find-put_self i.old_hash (i.new_hash, now + rotation_receipt_ttl) s.rotation_receipts

other_token :
    (a b until now : ℕ) → (a == b) ≡ false → is_value b (live now (some (a, until))) ≡ false
other_token a b until now h = ground (arith, h)

-- A token that was consumed is of no use to another request.
pub consumed-refused :
    (c : SessionConfig) (j : RotationInput) (now until a : ℕ) (s : Store)
    → find j.old_hash s.refresh ≡ none
    → find j.old_hash s.rotation_receipts ≡ some (a, until)
    → (a == j.new_hash) ≡ false
    → rotate c j now s ≡ (s, refused)
unfolding rotate is_repeat
consumed-refused c j now until a s gone receipt other =
    rw (gone, receipt, other_token a j.new_hash until now other)

-- A rotation of a live token, where tokens rotate, is the last one of that token: at any later time and
-- under any settings, a request that presents the token again for another new token is refused and
-- writes nothing.
pub rotate-once :
    (c c' : SessionConfig) (i j : RotationInput) (now later : ℕ) (s s' : Store)
    → c.rotates ≡ true
    → is_record i.expected (get now i.old_hash s.refresh) ≡ true
    → rotate c i now s ≡ (s', rotated)
    → j.old_hash ≡ i.old_hash
    → (i.new_hash == j.new_hash) ≡ false
    → rotate c' j later s' ≡ (s', refused)
rotate-once c c' i j now later s s' rotates live_token committed same other =
    consumed-refused c' j later (now + rotation_receipt_ttl) i.new_hash s'
      (rw (same, written) (consumed_token c i _ now _ rotates))
      (rw (same, written) (written_receipt c i _ now _)) other
  where
    written : s' ≡ write_rotation c i (current_sessions i now s) now (purged i now s)
    written = (rotate-committed c i now s s' live_token committed).2

get-put :
    {V : Type 0} (now k until : ℕ) (v : V) (t : Keys V)
    → ltb now until ≡ true
    → get now k (put k (v, until) t) ≡ some v
get-put now k until v t h = rw (find-put_self, h)

consume-kept :
    (b : Bool) (i : RotationInput) (s : Store) (hash : ℕ)
    → (i.old_hash == hash) ≡ false
    → (find hash (consume b i s).refresh ≡ find hash s.refresh)
      × ((consume b i s).families ≡ s.families)
      × ((consume b i s).sessions ≡ s.sessions)
unfolding consume
consume-kept false i s hash h = (refl, refl, refl)
consume-kept true i s hash h = (rw (find-del, h), refl, refl)

==_self : (n : ℕ) → (n == n) ≡ true
==_self n = ground arith

is_repeat-found :
    (i : RotationInput) (now : ℕ) (s : Store)
    → get now i.old_hash s.rotation_receipts ≡ some i.new_hash
    → get now i.family s.families ≡ some (record { is_active = true; user = i.user })
    → get now i.new_hash s.refresh ≡ some (new_record i)
    → get now i.jti s.sessions ≡ some i.user
    → is_repeat i now s ≡ true
unfolding is_repeat
is_repeat-found i now s receipt family token session = rw (
  receipt,
  family,
  token,
  session,
  ==_self i.new_hash,
  ==_self i.user,
  ==_self i.version,
  ==_self i.family,
)

repeat-written :
    (c : SessionConfig) (i : RotationInput) (t : Table ℕ ℕ) (now later : ℕ) (s : Store)
    → (i.old_hash == i.new_hash) ≡ false
    → ltb later (now + rotation_receipt_ttl) ≡ true
    → ltb later (now + c.access_ttl) ≡ true
    → ltb later (now + c.refresh_ttl) ≡ true
    → is_repeat i later (write_rotation c i t now s) ≡ true
unfolding is_repeat write_rotation
repeat-written c i t now later s new receipt_lives session_lives family_lives =
    is_repeat-found i later (write_rotation c i t now s)
      (rw (
        consume-rotation_receipts c.rotates i,
        get-put later i.old_hash (now + rotation_receipt_ttl) i.new_hash s.rotation_receipts
            receipt_lives,
      ))
      (rw (kept.1, find-put_self, family_lives)) (rw (kept.0, find-put_self, family_lives))
      (rw (kept.2, find-put_self, session_lives))
  where
    kept :
        (find i.new_hash (write_rotation c i t now s).refresh
          ≡ find i.new_hash (put i.new_hash (new_record i, now + c.refresh_ttl) s.refresh))
        × ((write_rotation c i t now s).families
            ≡ put i.family
                (record { is_active = true; user = i.user }, now + c.refresh_ttl)
                s.families)
        × ((write_rotation c i t now s).sessions
            ≡ put i.jti (i.user, now + c.access_ttl) s.sessions)
    kept = consume-kept c.rotates i _ i.new_hash new

-- A request that was lost on its way back may be sent again: while its receipt, its new session and its
-- family last, the rotation of the same token for the same new token, where tokens rotate and the two
-- differ, is confirmed and writes nothing.
pub rotate-repeats :
    (c c' : SessionConfig) (i : RotationInput) (now later : ℕ) (s s' : Store)
    → c.rotates ≡ true
    → (i.old_hash == i.new_hash) ≡ false
    → is_record i.expected (get now i.old_hash s.refresh) ≡ true
    → rotate c i now s ≡ (s', rotated)
    → ltb later (now + rotation_receipt_ttl) ≡ true
    → ltb later (now + c.access_ttl) ≡ true
    → ltb later (now + c.refresh_ttl) ≡ true
    → rotate c' i later s' ≡ (s', rotated)
unfolding rotate
rotate-repeats c c' i now later s s' rotates new live_token committed receipt session family =
    rw (gone, repeated)
  where
    written : s' ≡ write_rotation c i (current_sessions i now s) now (purged i now s)
    written = (rotate-committed c i now s s' live_token committed).2

    gone : find i.old_hash s'.refresh ≡ none
    gone = rw (written, consumed_token c i (current_sessions i now s) now (purged i now s) rotates)

    repeated : is_repeat i later s' ≡ true
    repeated = rw (written, repeat-written c i _ now later _ new receipt session family)
