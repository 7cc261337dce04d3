-- ===== src/Daemon/TierRouter.antt =====
-- tier_router.rs: the candidates that serve a tier, the primary first.
mod Examples
pub mod Derived
pub mod Chains
pub mod Preferred
use auto_ai.Common.{
  zero, suc, [], ◌∷◌, none, some, true, false, ◌++◌, string_eq, ◌==◌, if◌then◌else◌, get_elem?,
  take, drop, position, find, any, map, String, List, Option, Bool, ℕ,
}
use auto_ai.Common.HashMap
use auto_ai.Common.HashMap.{HashMap}
use auto_ai.Config.Tier.{ModelTier, tier_eq, parse_name, ModelDefinition}
use auto_ai.Config.Provider.{ProviderConfig, DaemonConfig, TierRouting, TierRouteCandidate}

pub record TierCandidate : Type 0 where
  pub provider : String
  pub model : String

abbrev pub Routing : Type 0
Routing = HashMap ModelTier (List TierCandidate)

pub record TierRouter : Type 0 where
  pub routing : Routing

abbrev of_route : TierRouteCandidate → TierCandidate
of_route c = record { provider = c.provider; model = c.model }

abbrev set_route : Option ModelTier → List TierRouteCandidate → Routing → Routing
set_route none candidates routing = routing
set_route (some tier) candidates routing = HashMap.insert tier (map of_route candidates) routing

-- The explicit routes, in the order of the map; names of no tier are skipped.
unfoldable pub explicit : HashMap String (List TierRouteCandidate) → Routing → Routing
explicit [] routing = routing
explicit ((tier_name, candidates) ∷ routes) routing =
    explicit routes (set_route (parse_name tier_name) candidates routing)

abbrev pub candidate : String → ModelDefinition → TierCandidate
candidate name m = record { provider = name; model = m.id }

-- `routing.entry(m.tier).or_default().push(…)`
abbrev pub push : String → ModelDefinition → Routing → Routing
push name m routing = HashMap.modify m.tier [] (λ cands. cands ++ candidate name m ∷ []) routing

unfoldable pub add_models : String → List ModelDefinition → Routing → Routing
add_models name [] routing = routing
add_models name (m ∷ ms) routing = add_models name ms (push name m routing)

abbrev pub has_provider : String → List TierCandidate → Bool
has_provider name cands = any (λ c. c.provider == name) cands

-- At most one model of a provider for a tier.
unfoldable pub add_fallbacks : String → List ModelDefinition → Routing → Routing
add_fallbacks name [] routing = routing
add_fallbacks name (m ∷ ms) routing =
    add_fallbacks name ms (
      if has_provider name (HashMap.get_or m.tier [] routing) then routing else push name m routing)

unfoldable pub add_others : String → HashMap String ProviderConfig → Routing → Routing
unfolding add_fallbacks
add_others default_provider [] routing = routing
add_others default_provider ((name, pc) ∷ providers) routing =
    add_others default_provider providers
      (if name == default_provider then routing else add_fallbacks name pc.models routing)

abbrev pub add_default : String → Option ProviderConfig → Routing → Routing
add_default name none routing = routing
add_default name (some pc) routing = add_models name pc.models routing

unfoldable pub derived : DaemonConfig → Routing
unfolding add_models add_others
derived config =
    add_others config.default_provider config.providers (
      add_default config.default_provider (HashMap.get config.default_provider config.providers) [])

unfoldable pub routing_of : HashMap String (List TierRouteCandidate) → DaemonConfig → Routing
unfolding explicit derived
routing_of [] config = derived config
routing_of (route ∷ routes) config = explicit (route ∷ routes) []

unfoldable pub from_config : DaemonConfig → TierRouter
unfolding routing_of
from_config config = record { routing = routing_of config.tier_routing.routes config }

abbrev pub candidates : ModelTier → TierRouter → List TierCandidate
candidates tier r = HashMap.get_or tier [] r.routing

-- `chain.remove(idx)` and `chain.insert(0, …)`; `idx` is a position in the chain.
unfoldable pub move_front : Option TierCandidate → ℕ → List TierCandidate → List TierCandidate
move_front none idx chain = chain
move_front (some c) idx chain = c ∷ (take idx chain ++ drop (suc idx) chain)

abbrev pub front_at : Option ℕ → List TierCandidate → List TierCandidate
front_at none base = base
front_at (some idx) base = move_front (get_elem? base idx) idx base

abbrev pub prefer : Option String → List TierCandidate → List TierCandidate
prefer none base = base
prefer (some pref) base = front_at (position (λ c. c.provider == pref) base) base

unfoldable pub candidates_preferred : ModelTier → Option String → TierRouter → List TierCandidate
unfolding move_front
candidates_preferred tier preferred_provider r = prefer preferred_provider (candidates tier r)

abbrev pub first : List TierCandidate → Option TierCandidate
first [] = none
first (c ∷ _) = some c

abbrev pub or_first : Option TierCandidate → List TierCandidate → Option TierCandidate
or_first none cands = first cands
or_first (some c) cands = some c

abbrev pub resolve_in : Option String → List TierCandidate → Option TierCandidate
resolve_in none cands = first cands
resolve_in (some pref) cands = or_first (find (λ c. c.provider == pref) cands) cands

unfoldable pub resolve : ModelTier → Option String → TierRouter → Option TierCandidate
resolve tier preferred_provider r = resolve_in preferred_provider (candidates tier r)
