-- ===== src/Agent/Skill/Examples.antt =====
-- The theorems about skills at a concrete file and directory, and runs on files that are written
-- otherwise.
use auto_ai.Common.{[], ◌∷◌, none, some, true, refl, ◌≡◌, string_eq, String, List}
use Prim.Native.String.{◌++◌}
use auto_ai.Common.HashMap
use auto_ai.Common.HashMap.{HashMap}
use auto_ai.Common.Format.{format, join}
use auto_ai.Common.Results.{ok}
use auto_ai.Agent.Skill.{Skill, retain}
use auto_ai.Agent.Skill.FrontMatter.{
  parse_frontmatter, extract_field, find_field, unquote, parse_opened, body_from,
}
use auto_ai.Agent.Skill.FrontMatter.Split.{written, parse_frontmatter-written}
use auto_ai.Agent.Skill.Scan.{Entry, scan, load_entries}
use auto_ai.Agent.Skill.Installed.{get-retain-scan}
use auto_ai.Common.Text.{lines, trim, trim_end, strip_prefix, ends_with_char}

abbrev front : List String
front = "name: brainstorming" ∷ "description: \"Use it first.\"" ∷ []

parse_frontmatter-written_example :
    parse_frontmatter ("---\n" ++ written front "\n# Plan\n")
    ≡ some ("brainstorming", "Use it first.", "# Plan\n")
unfolding trim_end extract_field lines join strip_prefix format trim unquote ends_with_char
parse_frontmatter-written_example = parse_frontmatter-written front "\n# Plan\n" refl

abbrev file : String → Entry
file text = record { is_dir = true; skill_md = some ("SKILL.md", ok text) }

abbrev directory : List Entry
directory =
    file "---\nname: plan\n---\nold"
    ∷ file "no front matter"
    ∷ file "---\nname: plan\n---\nnew"
    ∷ []

abbrev new_plan : Skill
new_plan = record { name = "plan"; description = ""; content = "new"; path = "SKILL.md" }

get-retain-scan_example :
    HashMap.get "plan" (retain ("plan" ∷ []) (("plan", new_plan) ∷ [])) ≡ some new_plan
unfolding scan load_entries parse_frontmatter strip_prefix parse_opened lines trim_end body_from
    extract_field join format trim unquote HashMap.insert
get-retain-scan_example = get-retain-scan "plan" directory ("plan" ∷ []) refl refl

-- A value that is a single quotation mark is a slice that ends before it begins.
single_quote : extract_field "name: \"" "name" ≡ none
unfolding extract_field find_field unquote lines strip_prefix format trim ends_with_char
single_quote = refl

-- The carriage returns are not counted: the body keeps the end of the closing line.
carriage_returns :
    parse_frontmatter "---\r\nname: plan\r\ndescription: d\r\n---\r\nBody"
    ≡ some ("plan", "d", "-\r\nBody")
unfolding parse_frontmatter parse_opened body_from extract_field find_field unquote strip_prefix
    lines trim_end join format trim
carriage_returns = refl
