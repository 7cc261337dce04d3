-- ===== src/Agent/Skill/Installed.antt =====
-- The skills that a scan and a whitelist leave in the registry.
use auto_ai.Common.{
  Option-cases, [], ◌∷◌, none, some, true, false, refl, inl, inr, ◌∙◌, sym, ap, subst, ◌≡◌,
  string_eq, String, List, Option, if◌then◌else◌, ◌==◌, ◌>>=◌, arith, Bool-cases, eq_of_beq,
  beq-true_self, beq-symmetric,
}
use mathlib.Core.Option.{some-injective, none-ne-some}
use auto_ai.Common.HashMap
use auto_ai.Common.HashMap.{HashMap, get-insert}
use auto_ai.Common.Results.{Result, err, ok}
use auto_ai.Agent.Skill.{Skill, retain, listed}
use auto_ai.Agent.Skill.FrontMatter.{parse_skill_file}
use auto_ai.Agent.Skill.Scan.{Entry, load_parsed, load_file, load_entry, load_entries, scan}

-- The skill that an entry offers.
abbrev of_parsed : Option (Result String Skill) → Option Skill
of_parsed none = none
of_parsed (some (err e)) = none
of_parsed (some (ok skill)) = some skill

abbrev of_file : Option (String × Result String String) → Option Skill
of_file none = none
of_file (some (path, file)) = of_parsed (parse_skill_file path file)

abbrev offered : Entry → Option Skill
offered entry = of_file (if entry.is_dir then entry.skill_md else none)

abbrev prefer : String → Option Skill → Option Skill → Option Skill
prefer name none older = older
prefer name (some skill) older = if skill.name == name then some skill else older

-- The skill of a name that is offered last, or else `older`.
abbrev pub latest : String → List Entry → Option Skill → Option Skill
latest name [] older = older
latest name (entry ∷ entries) older = latest name entries (prefer name (offered entry) older)

get-load_parsed :
    (name : String) (parsed : Result String Skill) (skills : HashMap String Skill)
    → (name == "") ≡ false
    → HashMap.get name (load_parsed parsed skills)
      ≡ prefer name (of_parsed (some parsed)) (HashMap.get name skills)
get-load_parsed name (err e) skills h = refl
get-load_parsed name (ok skill) skills h = elim (Bool-cases (skill.name == "")) [
  | inl unnamed ↦ rw (unnamed, other unnamed) refl
  | inr named ↦ rw named (get-insert skill.name name skill skills)
]
  where
    other : (skill.name == "") ≡ true → (skill.name == name) ≡ false
    other unnamed =
        ap (λ s. s == name) (eq_of_beq skill.name "" unnamed) ∙ beq-symmetric "" name ∙ h

get-load_file :
    (name : String) (file : Option (String × Result String String))
    (skills loaded : HashMap String Skill)
    → (name == "") ≡ false
    → load_file file skills ≡ some loaded
    → HashMap.get name loaded ≡ prefer name (of_file file) (HashMap.get name skills)
get-load_file name none skills loaded h q = ap (HashMap.get name) (sym (some-injective _ _ q))
get-load_file name (some (path, file)) skills loaded h q =
    elim (Option-cases (parse_skill_file path file)) [
      | inl e ↦ absurd (stuck e)
      | inr (parsed, e) ↦
          ap (HashMap.get name) (sym (some-injective _ _ (value parsed e)))
          ∙ get-load_parsed name parsed skills h
          ∙ ap (λ o. prefer name (of_parsed o) (HashMap.get name skills)) (sym e)
    ]
  where
    stuck : parse_skill_file path file ≡ none → ⊥
    stuck e = none-ne-some _ (sym (ap (λ o. o >>= λ p. some (load_parsed p skills)) e) ∙ q)

    value :
        (parsed : Result String Skill)
        → parse_skill_file path file ≡ some parsed
        → some (load_parsed parsed skills) ≡ some loaded
    value parsed e = sym (ap (λ o. o >>= λ p. some (load_parsed p skills)) e) ∙ q

load_entry-file :
    (entry : Entry) (skills : HashMap String Skill)
    → load_entry entry skills ≡ load_file (if entry.is_dir then entry.skill_md else none) skills
load_entry-file entry skills = elim (Bool-cases entry.is_dir) [
  | inl dir ↦ rw dir refl
  | inr other ↦ rw other refl
]

get-load_entries :
    (name : String) (entries : List Entry) (skills loaded : HashMap String Skill)
    → (name == "") ≡ false
    → load_entries entries skills ≡ some loaded
    → HashMap.get name loaded ≡ latest name entries (HashMap.get name skills)
unfolding load_entries
get-load_entries name [] skills loaded h q = ap (HashMap.get name) (sym (some-injective _ _ q))
get-load_entries name (entry ∷ entries) skills loaded h q =
    elim (Option-cases (load_entry entry skills)) [
      | inl e ↦ absurd (none-ne-some _ (sym (ap (λ o. o >>= load_entries entries) e) ∙ q))
      | inr (next, e) ↦
          get-load_entries name entries next loaded h
            (sym (ap (λ o. o >>= load_entries entries) e) ∙ q)
          ∙ ap (latest name entries) (
              get-load_file name (if entry.is_dir then entry.skill_md else none) skills next h
                (sym (load_entry-file entry skills) ∙ e))
    ]

get-retain :
    (name : String) (whitelist : List String) (skills : HashMap String Skill)
    → HashMap.get name (retain whitelist skills)
      ≡ (if listed name whitelist then HashMap.get name skills else none)
unfolding retain HashMap.get
get-retain name whitelist [] = ground arith
get-retain name whitelist ((key, skill) ∷ skills) = elim (Bool-cases (key == name)) [
  | inl same ↦
      subst
        (λ n.
          HashMap.get n (retain whitelist ((key, skill) ∷ skills))
          ≡ (if listed n whitelist then HashMap.get n ((key, skill) ∷ skills) else none))
        (eq_of_beq key name same)
        (ground (arith, beq-true_self key, get-retain key whitelist skills))
  | inr other ↦ ground (arith, get-retain name whitelist skills)
]

-- After a scan and a whitelist, a name that is not empty stands for the skill that was offered last
-- under it, where the whitelist has it, and for nothing else.
pub get-retain-scan :
    (name : String) (entries : List Entry) (whitelist : List String) {skills : HashMap String Skill}
    → (name == "") ≡ false
    → scan (some entries) ≡ some skills
    → HashMap.get name (retain whitelist skills)
      ≡ (if listed name whitelist then latest name entries none else none)
unfolding scan HashMap.get
get-retain-scan name entries whitelist {skills} h q =
    get-retain name whitelist skills
    ∙ ap (λ o. if listed name whitelist then o else none)
        (get-load_entries name entries [] skills h q)
