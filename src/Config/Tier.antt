-- ===== src/Config/Tier.antt =====
-- tier.rs: the model tiers, and the model that serves a tier.
mod Examples
pub mod Nearest
use auto_ai.Common.{
  zero, suc, [], ◌∷◌, none, some, true, false, inl, inr, refl, ◌+◌, ◌-◌, ◌∙◌, sym, ap, ℕ, String,
  List, Bool, Option, Eq, ◌||◌, string_eq, nat_eq, ◌==◌, nat_beq, leb, if◌then◌else◌, find, ◌>>=◌,
  ◌↔◌, ◌≡◌, nat_beq_iff,
}
use auto_ai.Common.Chars.{codes, trim, to_ascii_lowercase, is_text}

pub data ModelTier : Type 0 where
  min : ModelTier
  lite : ModelTier
  mid : ModelTier
  pro : ModelTier
  max : ModelTier

unfoldable pub display_name : ModelTier → String
display_name ModelTier.min = "Min"
display_name ModelTier.lite = "Lite"
display_name ModelTier.mid = "Mid"
display_name ModelTier.pro = "Pro"
display_name ModelTier.max = "Max"

abbrev pub description : ModelTier → String
description ModelTier.min = "Ultra-cheap: high-volume, low-complexity tasks"
description ModelTier.lite = "Cheap: routing, chat, simple coding"
description ModelTier.mid = "Balanced: planning, coding, most tasks"
description ModelTier.pro = "Strong: architecture, review, complex tasks"
description ModelTier.max = "Ultra-strong: deepest reasoning, research"

abbrev pub order : ModelTier → ℕ
order ModelTier.min = 0
order ModelTier.lite = 1
order ModelTier.mid = 2
order ModelTier.pro = 3
order ModelTier.max = 4

abbrev of_order : ℕ → ModelTier
of_order zero = ModelTier.min
of_order (suc zero) = ModelTier.lite
of_order (suc (suc zero)) = ModelTier.mid
of_order (suc (suc (suc zero))) = ModelTier.pro
of_order (suc (suc (suc (suc n)))) = ModelTier.max

of_order-order : (t : ModelTier) → of_order (order t) ≡ t
of_order-order ModelTier.min = refl
of_order-order ModelTier.lite = refl
of_order-order ModelTier.mid = refl
of_order-order ModelTier.pro = refl
of_order-order ModelTier.max = refl

order-injective : (a b : ModelTier) → order a ≡ order b → a ≡ b
order-injective a b q = sym (of_order-order a) ∙ ap of_order q ∙ of_order-order b

pub tier_decides : (a b : ModelTier) → (nat_beq (order a) (order b) ≡ true) ↔ (a ≡ b)
tier_decides a b = (
  λ q. order-injective a b ((nat_beq_iff (order a) (order b)).0 q),
  λ q. (nat_beq_iff (order a) (order b)).1 (ap order q),
)

instance abbrev pub tier_eq : Eq ModelTier
tier_eq = record { eq = λ a b. nat_beq (order a) (order b); decides = tier_decides _ _ }

-- The match on the text that is trimmed and in lower case.
unfoldable pub parse_lower : List ℕ → Option ModelTier
unfolding is_text
parse_lower s =
    if is_text s "min"
    then some ModelTier.min
    else if is_text s "lite" || is_text s "light"
    then some ModelTier.lite
    else if is_text s "mid"
    then some ModelTier.mid
    else if is_text s "pro" || is_text s "large"
    then some ModelTier.pro
    else if is_text s "max" || is_text s "heavy"
    then some ModelTier.max
    else none

unfoldable pub parse_name : String → Option ModelTier
unfolding parse_lower codes trim to_ascii_lowercase
parse_name s = parse_lower (to_ascii_lowercase (trim (codes s)))

pub record CostPerMtok : Type 0 where
  pub input : ℕ
  pub output : ℕ
  pub cache_read : ℕ

pub record ModelCapabilities : Type 0 where
  pub vision : Bool
  pub thinking : Bool

pub record ModelDefinition : Type 0 where
  pub id : String
  pub name : String
  pub tier : ModelTier
  pub context_window : Option ℕ
  pub max_output_tokens : Option ℕ
  pub cost_per_mtok : Option CostPerMtok
  pub capabilities : Option ModelCapabilities

abbrev pub new_model : String → ModelTier → ModelDefinition
new_model id tier = record {
  id = id;
  name = "";
  tier = tier;
  context_window = none;
  max_output_tokens = none;
  cost_per_mtok = none;
  capabilities = none;
}

abbrev pub all_tiers : List ModelTier
all_tiers = ModelTier.min ∷ ModelTier.lite ∷ ModelTier.mid ∷ ModelTier.pro ∷ ModelTier.max ∷ []

-- The key of `min_by_key`: the gap to a tier at or above, or 1000 and the gap to a tier below.
unfoldable pub gap_key : ModelTier → ModelDefinition → ℕ
gap_key desired m =
    if leb (order desired) (order m.tier)
    then order m.tier - order desired
    else 1000 + (order desired - order m.tier)

-- `min_by_key`: the first of the elements with the least key; `best` is the least so far.
unfoldable pub min_from :
    (ModelDefinition → ℕ) → ModelDefinition → List ModelDefinition → ModelDefinition
min_from key best [] = best
min_from key best (m ∷ ms) = min_from key (if leb (key best) (key m) then best else m) ms

unfoldable pub min_by_key : (ModelDefinition → ℕ) → List ModelDefinition → Option ModelDefinition
unfolding min_from
min_by_key key [] = none
min_by_key key (m ∷ ms) = some (min_from key m ms)

abbrev pub or_else : Option ModelDefinition → Option ModelDefinition → Option ModelDefinition
or_else none m = m
or_else (some a) m = some a

unfoldable pub resolve_model_id : ModelTier → List ModelDefinition → Option String
unfolding gap_key min_by_key
resolve_model_id desired available = do
  m ← or_else (find (λ m. m.tier == desired) available) (min_by_key (gap_key desired) available)
  some m.id
