-- ===== src/Agent/RoleConfig/Inherited.antt =====
-- The role of a configuration that inherits a role and sets nothing itself.
use auto_ai.Common.{[], ◌∷◌, none, some, refl, ◌∙◌, ap, ◌≡◌, String, List, Option, unwrap_or}
use auto_ai.Common.Results.{ok, ok_then}
use auto_ai.Agent.Role.{Role}
use auto_ai.Agent.RoleConfig.{RoleConfig, default_config}
use auto_ai.Agent.RoleConfig.Values.{AutoVal, AutoValLaws}
use auto_ai.Agent.RoleConfig.Write.{serialize_at_role}
use auto_ai.Agent.RoleConfig.Load.{
  load_role, role_of, config_role, resolve, own_tools, over_builtin,
}
use auto_ai.Agent.RoleConfig.RoundTrip.{as_stored, parse_at_role-serialize_at_role}

own_tools-all : (ts : List String) → unwrap_or (own_tools ts) [] ≡ ts
own_tools-all [] = refl
own_tools-all (t ∷ ts) = refl

module _ {F : Type 0} where
  abbrev pub inheriting : String → RoleConfig F
  inheriting b = record default_config { inherit = some b }

  -- What a role leaves to the roles that inherit it.
  abbrev pub inherited : Role F → Role F
  inherited base = record base {
    model = "";
    memory_limit = some (unwrap_or base.memory_limit 20);
    handoff_to = [];
    dispatchable_to = [];
    approval_gates = [];
    preferred_provider = none;
  }

  config_role-resolve :
      (three_tenths : F) (b : String) (base : Role F)
      → config_role three_tenths (resolve three_tenths (inheriting b) base) base.system_prompt
        ≡ inherited base
  unfolding config_role resolve
  config_role-resolve three_tenths b base = rw (own_tools-all base.allowed_tools) refl

  module _ {E : Type 0} (three_tenths : F) (load_builtin : String → Option (Role F)) where
    -- A configuration that is written to a file acts as what remains of it there.
    load_role-serialize_at_role :
        {V : AutoVal F} (laws : AutoValLaws V) (cfg : RoleConfig F)
        → load_role three_tenths {E = E} load_builtin V (serialize_at_role V cfg)
          ≡ role_of three_tenths load_builtin (as_stored cfg)
    unfolding load_role
    load_role-serialize_at_role laws cfg = ok_then _ (parse_at_role-serialize_at_role laws cfg) refl

    -- A file that only inherits a role loads as that role, but for the concrete model, an absent limit
    -- of the memory, which becomes 20, and the handoffs, dispatches, gates and preferred provider, which
    -- are lost.
    pub load_role-inheriting :
        {V : AutoVal F} (laws : AutoValLaws V) (b : String) (base : Role F)
        → load_builtin b ≡ some base
        → load_role three_tenths {E = E} load_builtin V (serialize_at_role V (inheriting b))
          ≡ ok (inherited base)
    unfolding role_of over_builtin
    load_role-inheriting laws b base h =
        load_role-serialize_at_role laws (inheriting b)
        ∙ ap (over_builtin three_tenths {E = E} load_builtin (inheriting b) b) h
        ∙ ap ok (config_role-resolve three_tenths b base)
