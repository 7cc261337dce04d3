-- ===== src/Config/Tier/Nearest.antt =====
-- Which model serves a tier, described apart from the search.
use auto_ai.Common.{
  zero, suc, [], ◌∷◌, none, some, inl, inr, refl, ◌≤◌, ◌<◌, ◌⊎◌, List, ℕ, arith, ◌≡◌, find,
  IsMember, forall-cons, Bool-cases, ◌==◌, Option-cases, find-some, leb, leb→le, nat_beq_iff,
  lt_of_leb,
}
use auto_ai.Config.Tier.{
  tier_eq, ModelTier, gap_key, ModelDefinition, min_from, order, resolve_model_id,
}

-- `m` serves the tier at least as well as `other`.
abbrev pub Better : ModelTier → ModelDefinition → ModelDefinition → Type 0
Better desired m other =
    (order desired ≤ order other.tier
      → (order desired ≤ order m.tier) × (order m.tier ≤ order other.tier))
    × (order other.tier < order desired
        → (order desired ≤ order m.tier) ⊎ (order other.tier ≤ order m.tier))

abbrev pub Nearest : ModelTier → List ModelDefinition → ModelDefinition → Type 0
Nearest desired ms m =
    IsMember m ms × ((other : ModelDefinition) → IsMember other ms → Better desired m other)

order-le : (t : ModelTier) → order t ≤ 4
order-le ModelTier.min = omega arith
order-le ModelTier.lite = omega arith
order-le ModelTier.mid = omega arith
order-le ModelTier.pro = omega arith
order-le ModelTier.max = omega arith

Better-of_key :
    (desired : ModelTier) (m other : ModelDefinition)
    → gap_key desired m ≤ gap_key desired other
    → Better desired m other
unfolding gap_key
Better-of_key desired m other h = (
  λ above. ground (arith, order-le m.tier, order-le other.tier, order-le desired),
  λ below. ground (arith, order-le m.tier, order-le other.tier, order-le desired),
)

min_from-least :
    (key : ModelDefinition → ℕ) (best : ModelDefinition) (ms : List ModelDefinition)
    → (key (min_from key best ms) ≤ key best)
      × ((other : ModelDefinition) → IsMember other ms → key (min_from key best ms) ≤ key other)
unfolding min_from
min_from-least key best [] = (omega arith, λ other (i, q). cc)
min_from-least key best (m ∷ ms) = elim (Bool-cases (leb (key best) (key m))) [
  | inl keeps ↦ rw keeps (
      let (least, rest) = min_from-least key best ms in
      (
        least,
        forall-cons (λ o. key (min_from key best ms) ≤ key o) m ms
            (omega (arith, leb→le (key best) (key m) keeps)) rest,
      ))
  | inr moves ↦ rw moves (
      let (least, rest) = min_from-least key m ms in
      (
        omega (arith, lt_of_leb (key best) (key m) moves),
        forall-cons (λ o. key (min_from key m ms) ≤ key o) m ms least rest,
      ))
]

min_from-IsMember :
    (key : ModelDefinition → ℕ) (best : ModelDefinition) (ms : List ModelDefinition)
    → IsMember (min_from key best ms) (best ∷ ms)
unfolding min_from
min_from-IsMember key best [] = (0, refl)
min_from-IsMember key best (m ∷ ms) = elim (Bool-cases (leb (key best) (key m))) [
  | inl keeps ↦ rw keeps (skip_second (min_from-IsMember key best ms))
  | inr moves ↦ rw moves (let (i, q) = min_from-IsMember key m ms in (suc i, q))
]
  where
    skip_second : {a : ModelDefinition} → IsMember a (best ∷ ms) → IsMember a (best ∷ m ∷ ms)
    skip_second (zero, q) = (0, q)
    skip_second (suc i, q) = (suc (suc i), q)

Nearest-exact :
    (desired : ModelTier) (ms : List ModelDefinition) (m : ModelDefinition)
    → find (λ m. m.tier == desired) ms ≡ some m
    → Nearest desired ms m
Nearest-exact desired ms m h =
    let (member, q) = find-some (λ m. m.tier == desired) ms m h in
    (member, λ other at_i. ground (arith, (nat_beq_iff (order m.tier) (order desired)).0 q))

Nearest-min_by_key :
    (desired : ModelTier) (m : ModelDefinition) (ms : List ModelDefinition)
    → Nearest desired (m ∷ ms) (min_from (gap_key desired) m ms)
Nearest-min_by_key desired m ms =
    let (least, rest) = min_from-least (gap_key desired) m ms in
    (
      min_from-IsMember (gap_key desired) m ms,
      λ other at_i. Better-of_key desired (min_from (gap_key desired) m ms) other (
          forall-cons (λ o. gap_key desired (min_from (gap_key desired) m ms) ≤ gap_key desired o) m
            ms least rest other at_i),
    )

-- A tier is served whenever there is a model: by one of them, at the tier or nearest above it, or, where
-- no model reaches the tier, by one of the strongest below it.
pub resolve_model_id-Nearest :
    (desired : ModelTier) (ms : List ModelDefinition)
    → ((ms ≡ []) × (resolve_model_id desired ms ≡ none))
      ⊎ ((m : ModelDefinition) × (resolve_model_id desired ms ≡ some m.id) × Nearest desired ms m)
unfolding resolve_model_id
resolve_model_id-Nearest desired [] = inl (refl, refl)
resolve_model_id-Nearest desired (m ∷ ms) =
    elim (Option-cases (find (λ m. m.tier == desired) (m ∷ ms))) [
      | inl e ↦ inr (min_from (gap_key desired) m ms, rw e refl, Nearest-min_by_key desired m ms)
      | inr (exact, e) ↦ inr (exact, rw e refl, Nearest-exact desired (m ∷ ms) exact e)
    ]
