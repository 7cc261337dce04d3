-- ===== src/Agent/Skill/Tool.antt =====
-- skill.rs: the tool by which a model loads a skill, and the texts that list the skills.
use auto_ai.Common.{[], ◌∷◌, none, some, string_eq, String, List, Option}
use auto_ai.Common.HashMap
use auto_ai.Common.HashMap.{HashMap}
use auto_ai.Common.Format.{format, join}
use auto_ai.Agent.Tools.{ToolError, ToolResult, output_text}
use auto_ai.Agent.Skill.{Skill, names, descriptions}

abbrev pub skill_lines : List (String × String) → String
skill_lines [] = ""
skill_lines ((name, desc) ∷ descs) =
    format ("- " ∷ name ∷ ": " ∷ desc ∷ "\n" ∷ skill_lines descs ∷ [])

abbrev pub block_of : List (String × String) → String
block_of [] = ""
block_of (d ∷ descs) = format (
    "\n\n<available_skills>\n"
    ∷ "You have access to skills — reusable techniques you load on demand.\n"
    ∷ "To use a skill, call the `skill` tool with its name; its content will be\n"
    ∷ "returned to you, and you follow its instructions directly.\n\n"
    ∷ skill_lines (d ∷ descs)
    ∷ "\nInvoke a skill whenever its trigger applies, even slightly.\n"
    ∷ "</available_skills>"
    ∷ [])

unfoldable pub available_skills_block : HashMap String Skill → String
available_skills_block skills = block_of (descriptions skills)

abbrev pub description_of : List (String × String) → String
description_of [] = "Load a skill's instructions. No skills are currently configured."
description_of (d ∷ descs) = format (
    "Load a skill's instructions by name. Call this whenever a skill's trigger applies.\n\nAvailable skills:\n"
    ∷ skill_lines (d ∷ descs)
    ∷ [])

unfoldable pub build_description : HashMap String Skill → String
build_description skills = description_of (descriptions skills)

module _ {J : Type 0} where
  abbrev pub load : String → HashMap String Skill → Option Skill → ToolResult J
  load name skills none = ToolResult.failed (
      ToolError.exec
        (format ("skill '" ∷ name ∷ "' not found; available: " ∷ join ", " (names skills) ∷ [])))
  load name skills (some skill) =
      ToolResult.ran (output_text (format ("# Skill: " ∷ skill.name ∷ "\n\n" ∷ skill.content ∷ [])))

  abbrev pub execute_named : HashMap String Skill → Option String → ToolResult J
  execute_named skills none = ToolResult.failed (ToolError.args "missing 'skill_name' argument")
  execute_named skills (some name) = load name skills (HashMap.get name skills)

  -- `text_field` reads a text field of a JSON value.
  unfoldable pub execute : (J → String → Option String) → HashMap String Skill → J → ToolResult J
  execute text_field skills args = execute_named skills (text_field args "skill_name")
