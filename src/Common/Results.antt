-- ===== src/Common/Results.antt =====
-- `Result<A, E>` of the source, with `?` as the bind of a `do` block.
use mathlib.Core.Path.{Path, ◌≡◌, refl, ap, ◌∙◌}
use mathlib.Core.Logic.{◌⊎◌, inl, inr}

pub data Result {ℓ κ} (E : Type ℓ) (A : Type κ) : Type (ℓ ⊔ κ) where
  err : E → Result E A
  ok : A → Result E A

module _ {ℓ κ ι} {E : Type ℓ} {A : Type κ} {B : Type ι} where
  infixl 5 ◌>>=◌
  abbrev pub ◌>>=◌ : Result E A → (A → Result E B) → Result E B
  err e >>= f = err e
  ok a >>= f = f a

  -- A step that succeeds, and the rest with its value.
  pub ok_then :
      (f : A → Result E B) {m : Result E A} {a : A} {r : Result E B}
      → m ≡ ok a
      → f a ≡ r
      → (m >>= f) ≡ r
  ok_then f m_ok rest = ap (λ m. m >>= f) m_ok ∙ rest

-- `map_err`
abbrev pub map_err {ℓ κ ι} :
    {E : Type ℓ} {D : Type κ} {A : Type ι} → (E → D) → Result E A → Result D A
map_err f (err e) = err (f e)
map_err f (ok a) = ok a

module _ {ℓ κ} {E : Type ℓ} {A : Type κ} where
  abbrev value : A → Result E A → A
  value a (err e) = a
  value a (ok b) = b

  pub ok-injective : (a b : A) → Path (Result E A) (ok a) (ok b) → a ≡ b
  ok-injective a b q = ap (value a) q

  pub Result-cases : (m : Result E A) → ((e : E) × (m ≡ err e)) ⊎ ((a : A) × (m ≡ ok a))
  Result-cases (err e) = inl (e, refl)
  Result-cases (ok a) = inr (a, refl)
