-- ===== src/Agent/RoleConfig/Examples.antt =====
-- The theorems about role configurations, with nodes that keep their properties in a list, and a file
-- that is the node itself.
use auto_ai.Common.{
  ℕ, [], ◌∷◌, none, some, refl, ap, ◌≡◌, String, List, Option, map, string_eq, ◌==◌, if◌then◌else◌,
  beq-true_self, beq-false,
}
use auto_ai.Common.Results.{Result, ok, err}
use auto_ai.Config.Tier.{ModelTier}
use auto_ai.Agent.Role.{Role, default_role}
use auto_ai.Agent.RoleConfig.{RoleConfig, default_config}
use auto_ai.Agent.RoleConfig.Values.{AutoVal, AutoValLaws, Atom}
use auto_ai.Agent.RoleConfig.Read.{parse_at_role}
use auto_ai.Agent.RoleConfig.Write.{serialize_at_role}
use auto_ai.Agent.RoleConfig.Load.{load_role}
use auto_ai.Agent.RoleConfig.RoundTrip.{parse_at_role-serialize_at_role}
use auto_ai.Agent.RoleConfig.Inherited.{inheriting, inherited, load_role-inheriting}

-- An array is a chain of items, an object a chain of fields.
data Value : Type 0 where
  str : String → Value
  uint : ℕ → Value
  double : ℕ → Value
  end : Value
  item : Value → Value → Value
  entry : String → Value → Value → Value

record Node : Type 0 where
  name : String
  props : List (String × Value)

abbrev array : List Value → Value
array [] = Value.end
array (v ∷ vs) = Value.item v (array vs)

abbrev obj : List (String × Value) → Value
obj [] = Value.end
obj ((k, v) ∷ fs) = Value.entry k v (obj fs)

abbrev find_prop : String → List (String × Value) → Option Value
find_prop k [] = none
find_prop k ((j, v) ∷ ps) = if k == j then some v else find_prop k ps

abbrev read_string : Value → Result String (Option String)
read_string (Value.str s) = ok (some s)
read_string _ = err "no text"

abbrev read_u64 : Value → Result String (Option ℕ)
read_u64 (Value.uint n) = ok (some n)
read_u64 _ = err "no number"

abbrev read_double : Value → Result String (Option ℕ)
read_double (Value.double n) = ok (some n)
read_double _ = ok none

abbrev items : Value → List Value
items (Value.item v vs) = v ∷ items vs
items _ = []

abbrev text_of : Value → String
text_of (Value.str s) = s
text_of _ = ""

abbrev text_field : Value → Result String String
text_field (Value.str s) = ok s
text_field _ = err "no text"

abbrev read_field : String → Value → Result String String
read_field k (Value.entry j v fs) = if k == j then text_field v else read_field k fs
read_field k _ = err "missing field"

abbrev values : AutoVal ℕ
values = record {
  Value = Value;
  Node = Node;
  Source = Node;
  str = Value.str;
  uint = Value.uint;
  double = Value.double;
  array = array;
  obj = obj;
  new = λ s. record { name = s; props = [] };
  set_prop = λ k v n. record { name = n.name; props = (k, v) ∷ n.props };
  name = λ n. n.name;
  prop = λ k n. find_prop k n.props;
  to_at_source = λ n. n;
  parse = λ n. ok (Atom.node n);
  read_string = read_string;
  read_u64 = read_u64;
  read_vec = λ v. ok (some (items v));
  lenient_f64 = read_double;
  string_or_list = λ v. ok (some (map text_of (items v)));
  read_field = read_field;
}

items-array : (vs : List Value) → items (array vs) ≡ vs
items-array [] = refl
items-array (v ∷ vs) = ap (◌∷◌ v) (items-array vs)

texts-array : (ss : List String) → map text_of (items (array (map Value.str ss))) ≡ ss
texts-array [] = refl
texts-array (s ∷ ss) = ap (◌∷◌ s) (texts-array ss)

values-laws : AutoValLaws values
values-laws = record {
  parse-to_at_source = λ n. refl;
  name-new = λ s. refl;
  name-set_prop = λ k v n. refl;
  prop-new = λ k s. refl;
  prop-same = λ k v n. ap (λ b. if b then some v else find_prop k n.props) (beq-true_self k);
  prop-other = λ k j v n h. ap (λ b. if b then some v else find_prop k n.props) (beq-false k j h);
  read_string-str = λ s. refl;
  read_u64-uint = λ n. refl;
  read_vec-array = λ vs. ap (λ us. ok (some us)) (items-array vs);
  lenient_f64-double = λ x. refl;
  string_or_list-array = λ ss. ap (λ ts. ok (some ts)) (texts-array ss);
  read_field-first =
      λ k s fs. ap (λ b. if b then ok s else read_field k (obj fs)) (beq-true_self k);
  read_field-later =
      λ k j v fs h. ap (λ b. if b then text_field v else read_field k (obj fs)) (beq-false k j h);
}

abbrev precise : RoleConfig ℕ
precise = record default_config {
  name = some "precise-coder";
  inherit = some "coder";
  model_tier = some ModelTier.max;
  max_turns = some 40;
  allowed_tiers = some (ModelTier.mid ∷ ModelTier.max ∷ []);
  models = some ((record { provider = "zhipu"; model = "glm" }) ∷ []);
  token_budget = some 4294967297;
}

parse_at_role-serialize_at_role_example :
    parse_at_role values {E = String} (serialize_at_role values precise)
    ≡ ok (record precise { token_budget = some 1 })
parse_at_role-serialize_at_role_example = parse_at_role-serialize_at_role values-laws precise

abbrev coder : Role ℕ
coder = record (default_role 3 "coder" "You write code.") {
  max_turns = 40;
  handoff_to = "tester" ∷ [];
}

abbrev load_builtin : String → Option (Role ℕ)
load_builtin name = if name == "coder" then some coder else none

load_role-inheriting_example :
    load_role 3 {E = String} load_builtin values (serialize_at_role values (inheriting "coder"))
    ≡ ok (inherited coder)
load_role-inheriting_example = load_role-inheriting 3 load_builtin values-laws "coder" coder refl

abbrev base_tools : RoleConfig ℕ
base_tools = record default_config {
  tools = some ("read" ∷ []);
  tools_append = some ("grep" ∷ []);
  system_prompt_append = some "Be brief.";
}
