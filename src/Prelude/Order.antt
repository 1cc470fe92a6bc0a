-- ===== src/Prelude/Order.antt =====
-- `where … order by … limit n`: filtering, sorting and cutting lists, and which elements remain.
use Prim.Native.Nat.{ℕ, zero, suc, ◌≤◌}
use mathlib.Core.Path.{◌≡◌, refl, ap, ◌∙◌}
use mathlib.Core.Bool.{Bool, true, false, ◌||◌}
use mathlib.Core.List.{List, [], ◌∷◌}
use mathlib.Core.Option.{Option, none, some}
use native.Mathlib.Omega.{arith}
use skrynia.Prelude.Tests.{if◌then◌else◌, length, any, Bool-cases}
use mathlib.Core.Logic.{inl, inr}
use skrynia.Prelude.Table.{Eq, Table, find, put, find-put}

module _ {ℓ} {A : Type ℓ} where
  -- `where`.
  unfoldable pub filter : (A → Bool) → List A → List A
  filter p [] = []
  filter p (x ∷ xs) = if p x then x ∷ filter p xs else filter p xs

  unfoldable pub insert_by : (A → A → Bool) → A → List A → List A
  insert_by before x [] = x ∷ []
  insert_by before x (y ∷ ys) = if before y x then y ∷ insert_by before x ys else x ∷ y ∷ ys

  -- `order by`.
  unfoldable pub sort_by : (A → A → Bool) → List A → List A
  sort_by before [] = []
  sort_by before (x ∷ xs) = insert_by before x (sort_by before xs)

  -- `limit`.
  unfoldable pub take : ℕ → List A → List A
  take zero xs = []
  take (suc n) [] = []
  take (suc n) (x ∷ xs) = x ∷ take n xs

module _ {ℓ} {A : Type ℓ} where
  any-insert_by :
      (p : A → Bool) (before : A → A → Bool) (x : A) (xs : List A)
      → any p (insert_by before x xs) ≡ (p x || any p xs)
  unfolding insert_by
  any-insert_by p before x [] = refl
  any-insert_by p before x (y ∷ ys) = ground (arith, any-insert_by p before x ys)

  pub any-sort_by :
      (p : A → Bool) (before : A → A → Bool) (xs : List A) → any p (sort_by before xs) ≡ any p xs
  unfolding sort_by
  any-sort_by p before [] = refl
  any-sort_by p before (x ∷ xs) =
      any-insert_by p before x (sort_by before xs) ∙ ap (λ b. p x || b) (any-sort_by p before xs)

  pub any-take : (p : A → Bool) (n : ℕ) (xs : List A) → any p (take n xs) ≡ true → any p xs ≡ true
  unfolding take
  any-take p zero xs h = cc
  any-take p (suc n) [] h = h
  any-take p (suc n) (x ∷ xs) h = ground (arith, any-take p n xs)

  -- What is cut off was cut off because the limit was reached.
  pub any-take_full :
      (p : A → Bool) (n : ℕ) (xs : List A)
      → any p xs ≡ true
      → any p (take n xs) ≡ false
      → length (take n xs) ≡ n
  unfolding take
  any-take_full p zero xs h k = refl
  any-take_full p (suc n) [] h k = cc
  any-take_full p (suc n) (x ∷ xs) h k = ground (arith, any-take_full p n xs)

  pub length-take : (n : ℕ) (xs : List A) → length (take n xs) ≤ n
  unfolding take
  length-take zero xs = omega arith
  length-take (suc n) [] = omega arith
  length-take (suc n) (x ∷ xs) = let h = length-take n xs in omega arith

module _ {ℓ κ} {K : Type ℓ} {V : Type κ} ⦃e : Eq K⦄ where
  -- `update … where …`, by what it makes of each row.
  unfoldable pub update_all : (K → V → V) → Table K V → Table K V
  update_all f [] = []
  update_all f ((k, v) ∷ t) = (k, f k v) ∷ update_all f t

  -- A unique index: no key has two rows.
  abbrev pub IsUnique : Table K V → Type (ℓ ⊔ κ)
  IsUnique [] = Unit
  IsUnique ((k, v) ∷ t) = (find k t ≡ none) × IsUnique t

module _ {κ} {V : Type κ} where
  abbrev pub holds : (V → Bool) → Option V → Bool
  holds p none = false
  holds p (some v) = p v

  abbrev pub mapped : (V → V) → Option V → Option V
  mapped f none = none
  mapped f (some v) = some (f v)

module _ {ℓ κ} {K : Type ℓ} {V : Type κ} ⦃e : Eq K⦄ where
  abbrev pub has_key : K → K × V → Bool
  has_key k (j, v) = e.beq j k

  pub find-update_all :
      (f : K → V → V) (k : K) (t : Table K V) → find k (update_all f t) ≡ mapped (f k) (find k t)
  unfolding find update_all
  find-update_all f k [] = refl
  find-update_all f k ((j, v) ∷ t) = ground (arith, e.beq_iff j k, find-update_all f k t)

  any-filter_absent :
      (p : K × V → Bool) (k : K) (t : Table K V)
      → find k t ≡ none
      → any (has_key k) (filter p t) ≡ false
  unfolding find filter
  any-filter_absent p k [] h = refl
  any-filter_absent p k ((j, v) ∷ t) h = ground (arith, any-filter_absent p k t)

  -- A key is among the rows that were filtered where its row meets the condition.
  pub any-filter :
      (p : K × V → Bool) (k : K) (t : Table K V)
      → IsUnique t
      → any (has_key k) (filter p t) ≡ holds (λ v. p (k, v)) (find k t)
  unfolding find filter
  any-filter p k [] u = refl
  any-filter p k ((j, v) ∷ t) (free, u) = elim (Bool-cases (e.beq j k)) [
    | inl same ↦ ground (arith, (e.beq_iff j k).0 same, any-filter_absent p k t)
    | inr other ↦ ground (arith, any-filter p k t u)
  ]

module _ {ℓ κ} {K : Type ℓ} {V : Type κ} ⦃e : Eq K⦄ where
  pub IsUnique-update_all : (f : K → V → V) (t : Table K V) → IsUnique t → IsUnique (update_all f t)
  unfolding update_all
  IsUnique-update_all f [] u = tt
  IsUnique-update_all f ((k, v) ∷ t) (free, u) =
      (ground (arith, find-update_all f k t), IsUnique-update_all f t u)

  pub IsUnique-put : (k : K) (v : V) (t : Table K V) → IsUnique t → IsUnique (put k v t)
  unfolding put find
  IsUnique-put k v [] u = (refl, tt)
  IsUnique-put k v ((j, w) ∷ t) (free, u) = elim (Bool-cases (e.beq j k)) [
    | inl same ↦ rw same (rw ((e.beq_iff j k).0 same) at free, u)
    | inr other ↦
        rw other
          (find-put k j v t ∙ ground (arith, e.beq_iff k j, e.beq_iff j k), IsUnique-put k v t u)
  ]

module _ {ℓ κ} {K : Type ℓ} {V : Type κ} ⦃e : Eq K⦄ where
  find-filter_absent :
      (p : K × V → Bool) (k : K) (t : Table K V) → find k t ≡ none → find k (filter p t) ≡ none
  unfolding find filter
  find-filter_absent p k [] h = refl
  find-filter_absent p k ((j, v) ∷ t) h = ground (arith, find-filter_absent p k t)

  -- A row that meets the condition is still there.
  pub find-filter :
      (p : K × V → Bool) (k : K) (v : V) (t : Table K V)
      → find k t ≡ some v
      → p (k, v) ≡ true
      → find k (filter p t) ≡ some v
  unfolding find filter
  find-filter p k v [] h m = cc
  find-filter p k v ((j, w) ∷ t) h m = elim (Bool-cases (e.beq j k)) [
    | inl same ↦ let q = (e.beq_iff j k).0 same in ground arith
    | inr other ↦ ground (arith, find-filter p k v t)
  ]

  pub IsUnique-filter : (p : K × V → Bool) (t : Table K V) → IsUnique t → IsUnique (filter p t)
  unfolding filter
  IsUnique-filter p [] u = tt
  IsUnique-filter p ((j, v) ∷ t) (free, u) = elim (Bool-cases (p (j, v))) [
    | inl kept ↦ rw kept (find-filter_absent p j t free, IsUnique-filter p t u)
    | inr gone ↦ rw gone (IsUnique-filter p t u)
  ]
