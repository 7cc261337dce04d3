-- ===== src/Common/Lists.antt =====
-- Lists measured and indexed by native numbers: `Vec` and slices of the source.
use Prim.Native.Nat.{ℕ, zero, suc, ◌+◌, ◌-◌, ◌<◌, ◌≤◌}
use native.Mathlib.Numerals.{unary_clauses}
use mathlib.Core.Path.{◌≡◌, refl, ap, subst, sym, ◌∙◌}
use mathlib.Core.Bool.{Bool, true, false, ◌&&◌, ◌||◌}
use mathlib.Core.List.{List, [], ◌∷◌, ◌++◌}
use mathlib.Core.Logic.{inl, inr}
use mathlib.Core.Option
use mathlib.Core.Option.{Option, none, some, some-injective}
use native.Mathlib.Omega.{arith}
use auto_ai.Common.Tests.{if◌then◌else◌, ◌>>=◌, Option-cases, Bool-cases}

module _ {ℓ} {A : Type ℓ} where
  abbrev pub length : List A → ℕ
  length [] = 0
  length (x ∷ xs) = suc (length xs)

  abbrev pub get_elem? : List A → ℕ → Option A
  get_elem? [] i = none
  get_elem? (x ∷ xs) zero = some x
  get_elem? (x ∷ xs) (suc i) = get_elem? xs i

  abbrev pub take : ℕ → List A → List A
  take zero xs = []
  take (suc n) [] = []
  take (suc n) (x ∷ xs) = x ∷ take n xs

  abbrev pub drop : ℕ → List A → List A
  drop zero xs = xs
  drop (suc n) [] = []
  drop (suc n) (x ∷ xs) = drop n xs

  pub length-append : (xs ys : List A) → length (xs ++ ys) ≡ length xs + length ys
  length-append [] ys = omega arith
  length-append (x ∷ xs) ys = omega (arith, length-append xs ys)

  pub take-append-drop : (n : ℕ) (xs : List A) → take n xs ++ drop n xs ≡ xs
  take-append-drop zero xs = refl
  take-append-drop (suc n) [] = refl
  take-append-drop (suc n) (x ∷ xs) = ap (◌∷◌ x) (take-append-drop n xs)

  -- An index is in bounds exactly when there is an element at it.
  pub get_elem?-some : (xs : List A) (i : ℕ) → i < length xs → (a : A) × (get_elem? xs i ≡ some a)
  get_elem?-some [] i h = elim h [ ]
  get_elem?-some (x ∷ xs) zero h = (x, refl)
  get_elem?-some (x ∷ xs) (suc i) h = get_elem?-some xs i (omega arith)

  pub lt_of_get_elem? : (xs : List A) (i : ℕ) {a : A} → get_elem? xs i ≡ some a → i < length xs
  lt_of_get_elem? [] i h = cc
  lt_of_get_elem? (x ∷ xs) zero h = omega arith
  lt_of_get_elem? (x ∷ xs) (suc i) h = omega (arith, lt_of_get_elem? xs i h)

  -- `iter().position(p)`, `iter().find(p)`, `iter().any(p)`, `iter().all(p)`, `filter(p)`
  abbrev pub position : (A → Bool) → List A → Option ℕ
  position p [] = none
  position p (x ∷ xs) = if p x then some 0 else Option.map suc (position p xs)

  abbrev pub find : (A → Bool) → List A → Option A
  find p [] = none
  find p (x ∷ xs) = if p x then some x else find p xs

  abbrev pub any : (A → Bool) → List A → Bool
  any p [] = false
  any p (x ∷ xs) = p x || any p xs

  abbrev pub all : (A → Bool) → List A → Bool
  all p [] = true
  all p (x ∷ xs) = p x && all p xs

  abbrev pub filter : (A → Bool) → List A → List A
  filter p [] = []
  filter p (x ∷ xs) = if p x then x ∷ filter p xs else filter p xs

  -- The first match is in bounds, and it is a match.
  pub position-some :
      (p : A → Bool) (xs : List A) (i : ℕ)
      → position p xs ≡ some i
      → (a : A) × (get_elem? xs i ≡ some a) × (p a ≡ true)
  position-some p [] i h = cc
  position-some p (x ∷ xs) i h = elim (Bool-cases (p x)) [
    | inl yes_x ↦ (x, ground arith, yes_x)
    | inr no_x ↦ elim (Option-cases (position p xs)) [
      | inl e ↦ absurd (ground arith)
      | inr (j, e) ↦ let (a, at_j, holds) = position-some p xs j e in (a, ground arith, holds)
    ]
  ]

  pub filter-append :
      (p : A → Bool) (xs ys : List A) → filter p (xs ++ ys) ≡ filter p xs ++ filter p ys
  filter-append p [] ys = refl
  filter-append p (x ∷ xs) ys = ground (arith, filter-append p xs ys)

  pub length-filter-le : (p : A → Bool) (xs : List A) → length (filter p xs) ≤ length xs
  length-filter-le p [] = omega arith
  length-filter-le p (x ∷ xs) = ground (arith, length-filter-le p xs)

  pub length-drop : (n : ℕ) (xs : List A) → length (drop n xs) ≡ length xs - n
  length-drop zero xs = omega arith
  length-drop (suc n) [] = omega arith
  length-drop (suc n) (x ∷ xs) = omega (arith, length-drop n xs)

  pub drop-drop : (m n : ℕ) (xs : List A) → drop m (drop n xs) ≡ drop (n + m) xs
  drop-drop m zero xs = ap (λ k. drop k xs) (omega arith)
  drop-drop zero (suc n) [] = simp unary_clauses refl
  drop-drop (suc m) (suc n) [] = simp unary_clauses refl
  drop-drop m (suc n) (x ∷ xs) =
      subst (λ k. drop m (drop n xs) ≡ drop k (x ∷ xs)) sum (drop-drop m n xs)
    where
      sum : suc (n + m) ≡ suc n + m
      sum = omega arith

  pub find_of_position : (p : A → Bool) (xs : List A) → position p xs ≡ none → find p xs ≡ none
  find_of_position p [] h = refl
  find_of_position p (x ∷ xs) h = elim (Option-cases (position p xs)) [
    | inl e ↦ ground (arith, find_of_position p xs e)
    | inr (i, e) ↦ ground arith
  ]

  pub drop-length : (xs : List A) → drop (length xs) xs ≡ []
  drop-length [] = refl
  drop-length (x ∷ xs) = drop-length xs

  -- What is found is an element, and a match.
  pub find-some :
      (p : A → Bool) (xs : List A) (a : A)
      → find p xs ≡ some a
      → ((i : ℕ) × (get_elem? xs i ≡ some a)) × (p a ≡ true)
  find-some p [] a h = cc
  find-some p (x ∷ xs) a h = elim (Bool-cases (p x)) [
    | inl yes_x ↦ ((0, first yes_x), ap p (sym (same yes_x)) ∙ yes_x)
    | inr no_x ↦ let ((i, at_i), holds) = find-some p xs a (ground arith) in ((suc i, at_i), holds)
  ]
    where
      first : p x ≡ true → some x ≡ some a
      first yes_x = ground arith

      same : p x ≡ true → x ≡ a
      same yes_x = ground arith

  -- An element at some index.
  abbrev pub IsMember : A → List A → Type ℓ
  IsMember a xs = (i : ℕ) × (get_elem? xs i ≡ some a)

  pub forall-cons :
      (P : A → Type ℓ) (x : A) (xs : List A)
      → P x
      → ((a : A) → IsMember a xs → P a)
      → (a : A) → IsMember a (x ∷ xs)
      → P a
  forall-cons P x xs h rest a (zero, q) = subst P (some-injective _ _ q) h
  forall-cons P x xs h rest a (suc i, q) = rest a (i, q)

  pub find-position : (p : A → Bool) (xs : List A) → find p xs ≡ (position p xs >>= get_elem? xs)
  find-position p [] = refl
  find-position p (x ∷ xs) = elim (Option-cases (position p xs)) [
    | inl e ↦ ground (arith, find-position p xs)
    | inr (i, e) ↦ ground (arith, find-position p xs)
  ]
