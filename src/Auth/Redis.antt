-- ===== src/Auth/Redis.antt =====
-- Keys of Redis that expire: a value and the second from which the key is gone.
use skrynia.Prelude.{
  ℕ, ◌+◌, ◌≤◌, ◌≡◌, List, [], ◌∷◌, any, Option, none, some, ltb, ◌==◌, if◌then◌else◌, length, arith,
}
use skrynia.Prelude.Table.{Table, find, put, nat_eq}

abbrev pub Keys {κ} : Type κ → Type κ
Keys V = Table ℕ (V × ℕ)

module _ {κ} {V : Type κ} where
  abbrev pub live : ℕ → Option (V × ℕ) → Option V
  live now none = none
  live now (some (v, until)) = if ltb now until then some v else none

  -- `GET`.
  abbrev pub get : ℕ → ℕ → Keys V → Option V
  get now k t = live now (find k t)

  -- `DEL`, and `ZREM` or `SREM` of a member.
  unfoldable pub del : ℕ → Table ℕ V → Table ℕ V
  del k [] = []
  del k ((j, v) ∷ t) = if j == k then del k t else (j, v) ∷ del k t

module _ {κ} {V : Type κ} where
  pub find-del : (k j : ℕ) (t : Table ℕ V) → find j (del k t) ≡ (if k == j then none else find j t)
  unfolding find del
  find-del k j [] = ground arith
  find-del k j ((i, v) ∷ t) = ground (arith, find-del k j t)

  -- A write adds at most one key.
  pub length-put : (k : ℕ) (v : V) (t : Table ℕ V) → length (put k v t) ≤ length t + 1
  unfolding put
  length-put k v [] = omega arith
  length-put k v ((j, w) ∷ t) = ground (arith, length-put k v t)

  pub length-put_present :
      (k : ℕ) (v w : V) (t : Table ℕ V) → find k t ≡ some w → length (put k v t) ≡ length t
  unfolding put find
  length-put_present k v w [] h = ground arith
  length-put_present k v w ((j, x) ∷ t) h = ground (arith, length-put_present k v w t)

-- Members of a set: `SMEMBERS` after `SADD` and `SREM`.
abbrev pub with_member : ℕ → List ℕ → List ℕ
with_member a xs = if any (λ x. x == a) xs then xs else a ∷ xs

unfoldable pub without_member : ℕ → List ℕ → List ℕ
without_member a [] = []
without_member a (x ∷ xs) = if x == a then without_member a xs else x ∷ without_member a xs

-- A key that holds a collection, and is empty where it is missing.
module _ {κ} {V : Type κ} where
  abbrev pub or_empty : Option (List V) → List V
  or_empty none = []
  or_empty (some l) = l

-- `SREM`, which keeps the time of the key and makes none.
abbrev pub removed : ℕ → Option (List ℕ × ℕ) → ℕ → Keys (List ℕ) → Keys (List ℕ)
removed a none k t = t
removed a (some (l, until)) k t = put k (without_member a l, until) t

abbrev pub srem : ℕ → ℕ → Keys (List ℕ) → Keys (List ℕ)
srem k a t = removed a (find k t) k t

-- `SADD` and `EXPIRE`.
abbrev pub sadd : ℕ → ℕ → ℕ → ℕ → Keys (List ℕ) → Keys (List ℕ)
sadd now k a until t = put k (with_member a (or_empty (get now k t)), until) t
