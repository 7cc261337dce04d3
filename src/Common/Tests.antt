-- ===== src/Common/Tests.antt =====
-- Boolean tests, the conditional, and equality as an interface: `==` of the program's types.
use Prim.Native.Nat.{ℕ, ◌≤◌, ◌<◌, compare, Ordering}
use Prim.Native.String.{String}
use mathlib.Core.Path.{◌≡◌, refl, sym, ◌∙◌}
use mathlib.Core.Logic.{◌↔◌, ◌≢◌, ◌⊎◌, inl, inr}
use mathlib.Core.Bool.{Bool, true, false}
use mathlib.Core.Option.{Option, none, some}
use native.Mathlib.Omega.{arith}
use text.Mathlib.Text.{◌==◌ as str_eq}
use text.Mathlib.TextEquality.{eq_iff}

abbrev pub ltb : ℕ → ℕ → Bool
ltb a b = elim (compare a b) [ Ordering.lt ↦ true | _ ↦ false ]

abbrev pub leb : ℕ → ℕ → Bool
leb a b = elim (compare a b) [ Ordering.gt ↦ false | _ ↦ true ]

abbrev pub nat_beq : ℕ → ℕ → Bool
nat_beq a b = elim (compare a b) [ Ordering.eq ↦ true | _ ↦ false ]

infix 1 if◌then◌else◌
abbrev pub if◌then◌else◌ {ℓ} : {A : Type ℓ} → Bool → A → A → A
if true then x else y = x
if false then x else y = y

pub nat_beq_iff : (a b : ℕ) → (nat_beq a b ≡ true) ↔ (a ≡ b)
nat_beq_iff a b = ground arith

pub ltb→lt : (a b : ℕ) → ltb a b ≡ true → a < b
ltb→lt a b h = ground arith

pub lt→ltb : (a b : ℕ) → a < b → ltb a b ≡ true
lt→ltb a b h = ground arith

pub ltb-false : (a b : ℕ) → b ≤ a → ltb a b ≡ false
ltb-false a b h = ground arith

pub leb→le : (a b : ℕ) → leb a b ≡ true → a ≤ b
leb→le a b h = ground arith

pub lt_of_leb : (a b : ℕ) → leb a b ≡ false → b < a
lt_of_leb a b h = ground arith

pub le-cases : (a b : ℕ) → a ≤ b → (a ≡ b) ⊎ (a < b)
le-cases a b h = ground arith

pub le-or_gt : (a b : ℕ) → (a ≤ b) ⊎ (b < a)
le-or_gt a b = ground arith

pub Bool-cases : (b : Bool) → (b ≡ true) ⊎ (b ≡ false)
Bool-cases true = inl refl
Bool-cases false = inr refl

pub Option-cases {ℓ} : {A : Type ℓ} (o : Option A) → (o ≡ none) ⊎ ((a : A) × (o ≡ some a))
Option-cases none = inl refl
Option-cases (some a) = inr (a, refl)

-- `Option::or`
abbrev pub or {ℓ} : {A : Type ℓ} → Option A → Option A → Option A
or none b = b
or (some a) b = some a

abbrev pub min : ℕ → ℕ → ℕ
min a b = if leb a b then a else b

-- `Option::unwrap_or`
abbrev pub unwrap_or {ℓ} : {A : Type ℓ} → Option A → A → A
unwrap_or none d = d
unwrap_or (some a) d = a

-- `PartialEq` and `Eq` of the source: a Boolean test that decides equality.
pub record Eq {ℓ} (A : Type ℓ) : Type ℓ where
  pub eq : A → A → Bool
  pub decides : {a b : A} → (eq a b ≡ true) ↔ (a ≡ b)

module _ {ℓ} {A : Type ℓ} ⦃e : Eq A⦄ where
  infix 50 ◌==◌
  abbrev pub ◌==◌ : A → A → Bool
  ◌==◌ a b = e.eq a b

  pub beq-true_self : (a : A) → (a == a) ≡ true
  beq-true_self a = e.decides.1 refl

  pub eq_of_beq : (a b : A) → (a == b) ≡ true → a ≡ b
  eq_of_beq a b h = e.decides.0 h

  pub beq-false : (a b : A) → a ≢ b → (a == b) ≡ false
  beq-false a b h = elim (Bool-cases (a == b)) [ inl q ↦ absurd (h (eq_of_beq a b q)) | inr q ↦ q ]

  pub beq-symmetric : (a b : A) → (a == b) ≡ (b == a)
  beq-symmetric a b = elim (Bool-cases (a == b)) [
    | inl q ↦ q ∙ sym (e.decides.1 (sym (eq_of_beq a b q)))
    | inr q ↦ elim (Bool-cases (b == a)) [
      | inl r ↦ absurd (absent q (e.decides.1 (sym (eq_of_beq b a r))))
      | inr r ↦ q ∙ sym r
    ]
  ]
    where
      absent : (a == b) ≡ false → (a == b) ≡ true → ⊥
      absent q r = cc

instance abbrev pub string_eq : Eq String
string_eq = record { eq = str_eq; decides = eq_iff _ _ }

instance abbrev pub nat_eq : Eq ℕ
nat_eq = record { eq = nat_beq; decides = nat_beq_iff _ _ }

-- `?` on an option
infixl 5 ◌>>=◌
abbrev pub ◌>>=◌ {ℓ κ} : {A : Type ℓ} {B : Type κ} → Option A → (A → Option B) → Option B
none >>= f = none
some a >>= f = f a
