-- ===== src/Agent/Skill/Scan.antt =====
-- skill.rs: the scan of a directory, given by the entries that reading it yields, in their order.
-- `none` is a panic.
use auto_ai.Common.{
  [], ◌∷◌, none, some, string_eq, String, List, Option, Bool, if◌then◌else◌, ◌==◌, ◌>>=◌,
}
use auto_ai.Common.HashMap
use auto_ai.Common.HashMap.{HashMap}
use auto_ai.Common.Results.{Result, err, ok}
use auto_ai.Agent.Skill.{Skill}
use auto_ai.Agent.Skill.FrontMatter.{parse_skill_file}

-- An entry: whether it is a directory, and its SKILL.md where that is a file, with its path and what
-- reading it yields.
pub record Entry : Type 0 where
  pub is_dir : Bool
  pub skill_md : Option (String × Result String String)

abbrev pub load_parsed : Result String Skill → HashMap String Skill → HashMap String Skill
load_parsed (err e) skills = skills
load_parsed (ok skill) skills =
    if skill.name == "" then skills else HashMap.insert skill.name skill skills

abbrev pub load_file :
    Option (String × Result String String) → HashMap String Skill → Option (HashMap String Skill)
load_file none skills = some skills
load_file (some (path, file)) skills = do
  parsed ← parse_skill_file path file
  some (load_parsed parsed skills)

abbrev pub load_entry : Entry → HashMap String Skill → Option (HashMap String Skill)
load_entry entry skills = if entry.is_dir then load_file entry.skill_md skills else some skills

unfoldable pub load_entries : List Entry → HashMap String Skill → Option (HashMap String Skill)
load_entries [] skills = some skills
load_entries (entry ∷ entries) skills = do
  loaded ← load_entry entry skills
  load_entries entries loaded

-- A directory that cannot be read has no skills.
unfoldable pub scan : Option (List Entry) → Option (HashMap String Skill)
scan none = some []
scan (some entries) = load_entries entries []
