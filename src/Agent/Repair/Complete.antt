-- ===== src/Agent/Repair/Complete.antt =====
-- The calls that are left without a result, and the repair.
use auto_ai.Common.{
  append-nil, append_assoc, ap, sym, ◌++◌, ◌∙◌, zero, suc, inl, inr, true, false, some, none, refl,
  zero, suc, none, some, true, false, inl, inr, refl, sym, ap, ◌∙◌, ◌++◌, string_eq, append_assoc,
  append-nil, Option,
}
use auto_ai.Agent.Memory.{Memory}
