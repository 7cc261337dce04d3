-- ===== src/Agent/RoleConfig/Values.antt =====
-- What config/role_config.rs uses of the crates auto_val and auto_atom, which stand outside the
-- repository: values, nodes with properties, the emitter and the parser of the text of a file.
use auto_ai.Common.{ℕ, ◌∷◌, none, some, ◌≡◌, ◌≢◌, String, List, Option, map}
use auto_ai.Common.Results.{Result, ok}

-- `AtomParser::parse` gives a node or another atom, which is shown in an error.
pub data Atom (Node : Type 0) : Type 0 where
  node : Node → Atom Node
  other : String → Atom Node

-- A reader is what serde calls for a field that is there; it gives `none` for a null.
pub record AutoVal (F : Type 0) : Type 1 where
  pub Value : Type 0
  pub Node : Type 0
  pub Source : Type 0  -- the text of a file, which only `to_at_source` and `parse` read
  pub str : String → Value
  pub uint : ℕ → Value
  pub double : F → Value
  pub array : List Value → Value
  pub obj : List (String × Value) → Value
  pub new : String → Node
  pub set_prop : String → Value → Node → Node
  pub name : Node → String
  pub prop : String → Node → Option Value
  pub to_at_source : Node → Source
  pub parse : Source → Result String (Atom Node)
  pub read_string : Value → Result String (Option String)
  pub read_u64 : Value → Result String (Option ℕ)
  pub read_vec : Value → Result String (Option (List Value))
  pub lenient_f64 : Value → Result String (Option F)
  pub string_or_list : Value → Result String (Option (List String))
  pub read_field : String → Value → Result String String  -- a text that an object must have

-- What the two crates promise: what is emitted is read back, a property is what was set last, and a
-- reader reads a value of its own kind.
pub record AutoValLaws {F : Type 0} (V : AutoVal F) : Type 0 where
  pub parse-to_at_source : (n : V.Node) → V.parse (V.to_at_source n) ≡ ok (Atom.node n)
  pub name-new : (s : String) → V.name (V.new s) ≡ s
  pub name-set_prop : (k : String) (v : V.Value) (n : V.Node) → V.name (V.set_prop k v n) ≡ V.name n
  pub prop-new : (k s : String) → V.prop k (V.new s) ≡ none
  pub prop-same : (k : String) (v : V.Value) (n : V.Node) → V.prop k (V.set_prop k v n) ≡ some v
  pub prop-other :
      (k j : String) (v : V.Value) (n : V.Node) → k ≢ j → V.prop k (V.set_prop j v n) ≡ V.prop k n
  pub read_string-str : (s : String) → V.read_string (V.str s) ≡ ok (some s)
  pub read_u64-uint : (n : ℕ) → V.read_u64 (V.uint n) ≡ ok (some n)
  pub read_vec-array : (vs : List V.Value) → V.read_vec (V.array vs) ≡ ok (some vs)
  pub lenient_f64-double : (x : F) → V.lenient_f64 (V.double x) ≡ ok (some x)
  pub string_or_list-array :
      (ss : List String) → V.string_or_list (V.array (map V.str ss)) ≡ ok (some ss)
  pub read_field-first :
      (k s : String) (fs : List (String × V.Value))
      → V.read_field k (V.obj ((k, V.str s) ∷ fs)) ≡ ok s
  pub read_field-later :
      (k j : String) (v : V.Value) (fs : List (String × V.Value))
      → k ≢ j
      → V.read_field k (V.obj ((j, v) ∷ fs)) ≡ V.read_field k (V.obj fs)
