-- ===== src/Agent/Skill.antt =====
-- skill.rs: skills, and the registry of those that are installed. A path is a text.
mod Examples
pub mod FrontMatter
pub mod Scan
pub mod Installed
pub mod Tool
use Prim.Native.String.{compare}
use text.Mathlib.Text.{is_lt}
use auto_ai.Common.{
  [], ◌∷◌, none, some, true, false, string_eq, String, List, Option, Bool, if◌then◌else◌, ◌==◌,
  ◌&&◌, ◌||◌, any,
}
use auto_ai.Common.HashMap
use auto_ai.Common.HashMap.{HashMap}

pub record Skill : Type 0 where
  pub name : String
  pub description : String
  pub content : String
  pub path : String

abbrev pub listed : String → List String → Bool
listed name names = any (λ n. n == name) names

unfoldable pub retain : List String → HashMap String Skill → HashMap String Skill
retain whitelist [] = []
retain whitelist ((name, skill) ∷ skills) =
    let rest = retain whitelist skills in
    if listed name whitelist then (name, skill) ∷ rest else rest

abbrev pub names : HashMap String Skill → List String
names [] = []
names ((name, _) ∷ skills) = name ∷ names skills

-- `sort_by` on the names, which is stable.
abbrev pub insert_sorted : String × String → List (String × String) → List (String × String)
insert_sorted p [] = p ∷ []
insert_sorted p (q ∷ ps) =
    let rest = insert_sorted p ps in if is_lt (compare q.0 p.0) then q ∷ rest else p ∷ q ∷ ps

abbrev pub pairs : HashMap String Skill → List (String × String)
pairs [] = []
pairs ((_, skill) ∷ skills) = (skill.name, skill.description) ∷ pairs skills

abbrev pub sort : List (String × String) → List (String × String)
sort [] = []
sort (p ∷ ps) = insert_sorted p (sort ps)

unfoldable pub descriptions : HashMap String Skill → List (String × String)
descriptions skills = sort (pairs skills)
