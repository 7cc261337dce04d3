-- ===== src/Config/Tier/Examples.antt =====
-- Tests of the tiers, and the theorem about them at a configuration.
use auto_ai.Common.{none, some, refl, ◌≡◌, [], List, ◌⊎◌, ◌∷◌}
use auto_ai.Config.Tier.{parse_name, ModelTier, ModelDefinition, resolve_model_id, new_model}
use auto_ai.Config.Tier.Nearest.{Nearest, resolve_model_id-Nearest}

parse-heavy : parse_name "  HEAVY " ≡ some ModelTier.max
unfolding parse_name
parse-heavy = refl

parse-unknown : parse_name "huge" ≡ none
unfolding parse_name
parse-unknown = refl

abbrev configured : List ModelDefinition
configured = new_model "small" ModelTier.lite ∷ new_model "big" ModelTier.max ∷ []

resolve_model_id-Nearest_example :
    ((configured ≡ []) × (resolve_model_id ModelTier.mid configured ≡ none))
    ⊎ ((m : ModelDefinition) × (resolve_model_id ModelTier.mid configured ≡ some m.id)
        × Nearest ModelTier.mid configured m)
resolve_model_id-Nearest_example = resolve_model_id-Nearest ModelTier.mid configured
