-- ===== src/Daemon/TierRouter/Derived.antt =====
-- The routing that is derived from the providers: the default provider's models of the tier, then
-- the first such model of every other provider.
use auto_ai.Common.{
  [], ◌∷◌, none, some, true, false, inl, inr, refl, ◌++◌, ◌∙◌, sym, ap, subst, string_eq, ◌&&◌,
  ◌||◌, not, ◌≡◌, append-nil, append_assoc, take, if◌then◌else◌, List, String, Option, ◌==◌, Bool,
  Bool-cases, arith, beq-true_self, ◌⊎◌, eq_of_beq,
}
use auto_ai.Config.Tier.{ModelTier, tier_eq, ModelDefinition}
use auto_ai.Config.Provider.{ProviderConfig}
use auto_ai.Common.HashMap
use auto_ai.Common.HashMap.{HashMap, get_or-modify}
use auto_ai.Daemon.TierRouter.{
  TierCandidate, Routing, add_models, push, candidate, has_provider, add_fallbacks,
}

abbrev pub models_of : ModelTier → String → List ModelDefinition → List TierCandidate
models_of tier name [] = []
models_of tier name (m ∷ ms) =
    if m.tier == tier then candidate name m ∷ models_of tier name ms else models_of tier name ms

abbrev pub models_of_default : ModelTier → String → Option ProviderConfig → List TierCandidate
models_of_default tier name none = []
models_of_default tier name (some pc) = models_of tier name pc.models

abbrev pub fallbacks : ModelTier → String → HashMap String ProviderConfig → List TierCandidate
fallbacks tier default_provider [] = []
fallbacks tier default_provider ((name, pc) ∷ providers) =
    (if name == default_provider then [] else take 1 (models_of tier name pc.models))
    ++ fallbacks tier default_provider providers

-- Every provider has one entry.
abbrev pub absent : String → HashMap String ProviderConfig → Bool
absent name [] = true
absent name ((other, _) ∷ providers) = not (name == other) && absent name providers

abbrev pub distinct : HashMap String ProviderConfig → Bool
distinct [] = true
distinct ((name, _) ∷ providers) = absent name providers && distinct providers

abbrev pub cands : ModelTier → Routing → List TierCandidate
cands tier routing = HashMap.get_or tier [] routing

cands-push :
    (tier : ModelTier) (name : String) (m : ModelDefinition) (routing : Routing)
    → cands tier (push name m routing)
      ≡ (if m.tier == tier then cands tier routing ++ candidate name m ∷ [] else cands tier routing)
cands-push tier name m routing =
    get_or-modify m.tier tier [] (λ cs. cs ++ candidate name m ∷ []) routing

pub cands-add_models :
    (tier : ModelTier) (name : String) (ms : List ModelDefinition) (routing : Routing)
    → cands tier (add_models name ms routing) ≡ cands tier routing ++ models_of tier name ms
unfolding add_models
cands-add_models tier name [] routing = sym (append-nil (cands tier routing))
cands-add_models tier name (m ∷ ms) routing =
    cands-add_models tier name ms (push name m routing)
    ∙ ap (λ cs. cs ++ models_of tier name ms) (cands-push tier name m routing)
    ∙ regroup (m.tier == tier)
  where
    regroup :
        (here : Bool)
        → (if here then cands tier routing ++ candidate name m ∷ [] else cands tier routing)
            ++ models_of tier name ms
          ≡ cands tier routing
            ++ (if here then candidate name m ∷ models_of tier name ms else models_of tier name ms)
    regroup true =
        append_assoc (cands tier routing) (candidate name m ∷ []) (models_of tier name ms)
    regroup false = refl

pub has_provider-append :
    (name : String) (xs ys : List TierCandidate)
    → has_provider name (xs ++ ys) ≡ has_provider name xs || has_provider name ys
has_provider-append name [] ys = refl
has_provider-append name (c ∷ xs) ys = ground (arith, has_provider-append name xs ys)

has_provider-push :
    (name : String) (m : ModelDefinition) (xs : List TierCandidate)
    → has_provider name (xs ++ candidate name m ∷ []) ≡ true
has_provider-push name m xs =
    ground (arith, has_provider-append name xs (candidate name m ∷ []), beq-true_self name)

-- One step of the fallbacks, seen from one tier.
after_fallback : String → ModelDefinition → Routing → Routing
after_fallback name m routing =
    if has_provider name (cands m.tier routing) then routing else push name m routing

cands-after_fallback :
    (tier : ModelTier) (name : String) (m : ModelDefinition) (routing : Routing)
    → cands tier (after_fallback name m routing) ≡ (
        if m.tier == tier && not (has_provider name (cands tier routing))
        then cands tier routing ++ candidate name m ∷ []
        else cands tier routing)
unfolding after_fallback
cands-after_fallback tier name m routing = elim (Bool-cases (m.tier == tier)) [
  | inl here ↦
      subst
        (λ t. cands t (after_fallback name m routing) ≡ (
          if m.tier == t && not (has_provider name (cands t routing))
          then cands t routing ++ candidate name m ∷ []
          else cands t routing))
        (eq_of_beq m.tier tier here)
        (at_own (Bool-cases (has_provider name (cands m.tier routing))))
  | inr other ↦ elim (Bool-cases (has_provider name (cands m.tier routing))) [
    | inl has ↦ rw (other, has) refl
    | inr lacks ↦ rw (other, lacks) (cands-push tier name m routing ∙ rw other refl)
  ]
]
  where
    at_own :
        (has_provider name (cands m.tier routing) ≡ true)
          ⊎ (has_provider name (cands m.tier routing) ≡ false)
        → cands m.tier (after_fallback name m routing) ≡ (
            if m.tier == m.tier && not (has_provider name (cands m.tier routing))
            then cands m.tier routing ++ candidate name m ∷ []
            else cands m.tier routing)
    at_own (inl has) = rw (beq-true_self m.tier, has) refl
    at_own (inr lacks) =
        rw (beq-true_self m.tier, lacks)
          (cands-push m.tier name m routing ∙ rw (beq-true_self m.tier) refl)

no_push :
    (tier : ModelTier) (name : String) (m : ModelDefinition) (routing : Routing)
    → (m.tier == tier && not (has_provider name (cands tier routing))) ≡ false
    → cands tier (after_fallback name m routing) ≡ cands tier routing
no_push tier name m routing h = cands-after_fallback tier name m routing ∙ rw h refl

cands-add_fallbacks_present :
    (tier : ModelTier) (name : String) (ms : List ModelDefinition) (routing : Routing)
    → has_provider name (cands tier routing) ≡ true
    → cands tier (add_fallbacks name ms routing) ≡ cands tier routing
unfolding add_fallbacks after_fallback
cands-add_fallbacks_present tier name [] routing h = refl
cands-add_fallbacks_present tier name (m ∷ ms) routing h =
    cands-add_fallbacks_present tier name ms (after_fallback name m routing)
      (ap (has_provider name) same ∙ h)
    ∙ same
  where
    same : cands tier (after_fallback name m routing) ≡ cands tier routing
    same = no_push tier name m routing (ground (arith, h))

pub cands-add_fallbacks :
    (tier : ModelTier) (name : String) (ms : List ModelDefinition) (routing : Routing)
    → has_provider name (cands tier routing) ≡ false
    → cands tier (add_fallbacks name ms routing)
      ≡ cands tier routing ++ take 1 (models_of tier name ms)
unfolding add_fallbacks after_fallback
cands-add_fallbacks tier name [] routing h = sym (append-nil (cands tier routing))
cands-add_fallbacks tier name (m ∷ ms) routing h = elim (Bool-cases (m.tier == tier)) [
  | inl here ↦ rw here (
      let pushed : cands tier (after_fallback name m routing)
          ≡ cands tier routing ++ candidate name m ∷ [] =
        cands-after_fallback tier name m routing ∙ rw (here, h) refl in
      cands-add_fallbacks_present tier name ms (after_fallback name m routing)
        (ap (has_provider name) pushed ∙ has_provider-push name m (cands tier routing))
      ∙ pushed)
  | inr other ↦ rw other (
      let same : cands tier (after_fallback name m routing) ≡ cands tier routing =
        no_push tier name m routing (ground (arith, other)) in
      cands-add_fallbacks tier name ms (after_fallback name m routing)
        (ap (has_provider name) same ∙ h)
      ∙ ap (λ cs. cs ++ take 1 (models_of tier name ms)) same)
]
