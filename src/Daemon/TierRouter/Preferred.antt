-- ===== src/Daemon/TierRouter/Preferred.antt =====
-- The chain with a preferred provider, beside the chain without and `resolve`.
use mathlib.Core.List.{Perm, perm_middle}
use mathlib.Core.List.Perm
use mathlib.Core.Option.{some-injective}
use auto_ai.Common.{
  zero, suc, [], ◌∷◌, none, some, inl, inr, refl, ◌++◌, sym, ap, subst, string_eq, List, Option, ℕ,
  String, get_elem?, ◌≡◌, take, position, drop, ◌==◌, Bool, Option-cases, find, find-position,
  position-some,
}
use auto_ai.Daemon.TierRouter.{
  TierCandidate, resolve, candidates_preferred, ModelTier, front_at, TierRouter, first, candidates,
  move_front, or_first,
}

split_at :
    (chain : List TierCandidate) (idx : ℕ) (c : TierCandidate)
    → get_elem? chain idx ≡ some c
    → take idx chain ++ c ∷ drop (suc idx) chain ≡ chain
split_at [] idx c h = cc
split_at (x ∷ chain) zero c h = ap (λ y. y ∷ chain) (sym (some-injective _ _ h))
split_at (x ∷ chain) (suc idx) c h = ap (◌∷◌ x) (split_at chain idx c h)

Perm-front_at : (chain : List TierCandidate) (at_i : Option ℕ) → Perm (front_at at_i chain) chain
unfolding move_front
Perm-front_at chain none = Perm.refl chain
Perm-front_at chain (some idx) = elim (Option-cases (get_elem? chain idx)) [
  | inl e ↦ rw e (Perm.refl chain)
  | inr (c, e) ↦ rw e (
      subst (λ whole. Perm (c ∷ (take idx chain ++ drop (suc idx) chain)) whole)
        (split_at chain idx c e)
        (Perm.symm (perm_middle {a = c} (take idx chain) (drop (suc idx) chain))))
]

-- A preferred provider reorders the chain and loses no candidate.
pub candidates_preferred-Perm :
    (tier : ModelTier) (preferred_provider : Option String) (r : TierRouter)
    → Perm (candidates_preferred tier preferred_provider r) (candidates tier r)
unfolding candidates_preferred
candidates_preferred-Perm tier none r = Perm.refl (candidates tier r)
candidates_preferred-Perm tier (some pref) r =
    Perm-front_at (candidates tier r) (position (λ c. c.provider == pref) (candidates tier r))

-- What `resolve` gives is the head of the chain that the server tries.
pub resolve-candidates_preferred :
    (tier : ModelTier) (preferred_provider : Option String) (r : TierRouter)
    → resolve tier preferred_provider r ≡ first (candidates_preferred tier preferred_provider r)
unfolding resolve candidates_preferred
resolve-candidates_preferred tier none r = refl
resolve-candidates_preferred tier (some pref) r = head (candidates tier r)
  where
    matches : TierCandidate → Bool
    matches c = c.provider == pref

    head :
        (base : List TierCandidate)
        → or_first (find matches base) base ≡ first (front_at (position matches base) base)
    head base = elim (Option-cases (position matches base)) [
      | inl e ↦ rw (find-position matches base, e) refl
      | inr (i, e) ↦
          let (c, at_i, holds) = position-some matches base i e in
          rw (find-position matches base, e, at_i) refl
    ]
