-- ===== src/Agent/RoleConfig/Fields.antt =====
-- Reading the properties of a node that was built.
use auto_ai.Common.{
  [], ◌∷◌, none, some, true, false, refl, inl, inr, ◌∙◌, sym, ◌≡◌, ◌≢◌, string_eq, String, List,
  Option, Bool, not, ◌&&◌, ◌||◌, ◌==◌, if◌then◌else◌, Bool-cases, eq_of_beq, subst, arith,
  beq-true_self,
}
use auto_ai.Agent.RoleConfig.Values.{AutoVal, AutoValLaws}
use auto_ai.Agent.RoleConfig.Write.{set_some, set_props}

module _ {A : Type 0} where
  abbrev pub lookup : String → List (String × Option A) → Option A
  lookup k [] = none
  lookup k ((j, v) ∷ ps) = if k == j then v else lookup k ps

  abbrev pub has_key : String → List (String × Option A) → Bool
  has_key k [] = false
  has_key k ((j, v) ∷ ps) = k == j || has_key k ps

  abbrev pub distinct : List (String × Option A) → Bool
  distinct [] = true
  distinct ((k, v) ∷ ps) = not (has_key k ps) && distinct ps

pub differs : (k j : String) → (k == j) ≡ false → k ≢ j
differs k j h q = absurd (both (subst (λ i. (k == i) ≡ true) q (beq-true_self k)))
  where
    both : (k == j) ≡ true → ⊥
    both r = cc

module _ {F : Type 0} {V : AutoVal F} (laws : AutoValLaws V) where
  prop-set_some_other :
      (k j : String) (v : Option V.Value) (n : V.Node)
      → k ≢ j
      → V.prop k (set_some V j v n) ≡ V.prop k n
  prop-set_some_other k j none n h = refl
  prop-set_some_other k j (some v) n h = laws.prop-other k j v n h

  prop-set_some_same :
      (k : String) (v : Option V.Value) (n : V.Node)
      → V.prop k n ≡ none
      → V.prop k (set_some V k v n) ≡ v
  prop-set_some_same k none n h = h
  prop-set_some_same k (some v) n h = laws.prop-same k v n

  prop-set_props_other :
      (k : String) (ps : List (String × Option V.Value)) (n : V.Node)
      → has_key k ps ≡ false
      → V.prop k (set_props V ps n) ≡ V.prop k n
  prop-set_props_other k [] n h = refl
  prop-set_props_other k ((j, v) ∷ ps) n h = elim (Bool-cases (k == j)) [
    | inl same ↦ absurd (ground arith)
    | inr other ↦
        prop-set_props_other k ps (set_some V j v n) (ground arith)
        ∙ prop-set_some_other k j v n (differs k j other)
  ]

  -- A property of a node built from distinct keys is the value beside its key.
  pub prop-set_props :
      (k : String) (ps : List (String × Option V.Value)) (n : V.Node)
      → distinct ps ≡ true
      → V.prop k n ≡ none
      → V.prop k (set_props V ps n) ≡ lookup k ps
  prop-set_props k [] n d h = h
  prop-set_props k ((j, v) ∷ ps) n d h = elim (Bool-cases (k == j)) [
    | inl same ↦
        prop-set_props_other k ps (set_some V j v n)
          (subst (λ i. has_key i ps ≡ false) (sym (eq_of_beq k j same)) (ground arith))
        ∙ subst (λ i. V.prop k (set_some V i v n) ≡ v) (eq_of_beq k j same)
            (prop-set_some_same k v n h)
        ∙ first same
    | inr other ↦
        prop-set_props k ps (set_some V j v n) (ground arith)
          (prop-set_some_other k j v n (differs k j other) ∙ h)
        ∙ later other
  ]
    where
      first : (k == j) ≡ true → v ≡ lookup k ((j, v) ∷ ps)
      first same = ground arith

      later : (k == j) ≡ false → lookup k ps ≡ lookup k ((j, v) ∷ ps)
      later other = ground arith

  name-set_some :
      (k : String) (v : Option V.Value) (n : V.Node) → V.name (set_some V k v n) ≡ V.name n
  name-set_some k none n = refl
  name-set_some k (some v) n = laws.name-set_prop k v n

  pub name-set_props :
      (ps : List (String × Option V.Value)) (n : V.Node) → V.name (set_props V ps n) ≡ V.name n
  name-set_props [] n = refl
  name-set_props ((k, v) ∷ ps) n = name-set_props ps (set_some V k v n) ∙ name-set_some k v n
