-- ===== src/Prelude/Decimal.antt =====
-- Texts as lists of character codes, and the decimal digits of a number: what `BigInt(text)` and
-- `value.toString()` of JavaScript do on digits. Twenty digits are enough for any amount in
-- PostgreSQL's bigint range.
use Prim.Native.Nat.{ℕ, zero, suc, ◌+◌, ◌-◌, ◌*◌, ◌/◌, ◌%◌, ◌^◌, ◌<◌}
use mathlib.Core.Path.{◌≡◌, refl}
use mathlib.Core.Bool.{Bool, true, false, ◌&&◌}
use mathlib.Core.List.{List, [], ◌∷◌}
use mathlib.Core.Logic.{inl, inr}
use native.Mathlib.Omega.{arith}
use skrynia.Prelude.Tests.{if◌then◌else◌, leb, ltb, Bool-cases}

abbrev pub Text : Type 0
Text = List ℕ

abbrev pub is_digit : ℕ → Bool
is_digit c = leb b'0' c && leb c b'9'

abbrev pub all {ℓ} : {A : Type ℓ} → (A → Bool) → List A → Bool
all p [] = true
all p (x ∷ xs) = p x && all p xs

-- The digits of `n` in front of `rest`, at most as many as the first argument.
unfoldable pub digits : ℕ → ℕ → Text → Text
digits zero n rest = rest
digits (suc f) n rest =
    if ltb n 10 then (b'0' + n) ∷ rest else digits f (n / 10) ((b'0' + n % 10) ∷ rest)

-- `value.toString()`.
unfoldable pub to_text : ℕ → Text
to_text n = digits 20 n []

-- `BigInt(text)` of a text of digits, behind the digits read before it.
unfoldable pub value_after : ℕ → Text → ℕ
value_after n [] = n
value_after n (c ∷ s) = value_after (n * 10 + (c - b'0')) s

all-digits :
    (f n : ℕ) (rest : Text) → all is_digit rest ≡ true → all is_digit (digits f n rest) ≡ true
unfolding digits
all-digits zero n rest h = h
all-digits (suc f) n rest h = ground (arith, all-digits f (n / 10) ((b'0' + n % 10) ∷ rest))

value-digits :
    (f n : ℕ) (rest : Text)
    → n < 10 ^ suc f
    → value_after 0 (digits (suc f) n rest) ≡ value_after n rest
unfolding digits value_after
value-digits zero n rest h = ground arith
value-digits (suc f) n rest h = ground (arith, value-digits f (n / 10) ((b'0' + n % 10) ∷ rest))

abbrev pub starts_with_digit : Text → Bool
starts_with_digit [] = false
starts_with_digit (c ∷ s) = is_digit c

starts-digits :
    (f n : ℕ) (rest : Text)
    → starts_with_digit rest ≡ true
    → starts_with_digit (digits f n rest) ≡ true
unfolding digits
starts-digits zero n rest h = h
starts-digits (suc f) n rest h = elim (Bool-cases (ltb n 10)) [
  | inl few ↦ rw few (ground arith)
  | inr many ↦ rw many (starts-digits f (n / 10) ((b'0' + n % 10) ∷ rest) (ground arith))
]

pub starts-to_text : (n : ℕ) → starts_with_digit (to_text n) ≡ true
unfolding to_text digits
starts-to_text n = elim (Bool-cases (ltb n 10)) [
  | inl few ↦ rw few (ground arith)
  | inr many ↦ rw many (starts-digits 19 (n / 10) ((b'0' + n % 10) ∷ []) (ground arith))
]

pub all-to_text : (n : ℕ) → all is_digit (to_text n) ≡ true
unfolding to_text
all-to_text n = all-digits 20 n [] refl

pub value-to_text : (n : ℕ) → n < 10 ^ 20 → value_after 0 (to_text n) ≡ n
unfolding to_text value_after
value-to_text n h = value-digits 19 n [] h
