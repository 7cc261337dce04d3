-- ===== src/Agent/Skill/FrontMatter.antt =====
-- skill.rs: the front matter of a SKILL.md. `none` is a panic, on a slice out of bounds or within a
-- character.
pub mod Split
use Prim.Native.Char.{Char}
use Prim.Native.String.{len}
use text.Mathlib.Text.{get?}
use auto_ai.Common.{
  min, ℕ, [], ◌∷◌, ◌+◌, ◌-◌, none, some, true, false, string_eq, String, List, Option, Bool,
  if◌then◌else◌, ◌==◌, ◌&&◌, ◌||◌, leb, position, take, unwrap_or, ◌>>=◌, or,
}
use auto_ai.Common.Results.{Result, err, ok}
use auto_ai.Common.Format.{format, join}
use auto_ai.Common.Text.{
  lines, trim, trim_start, trim_end, strip_prefix, starts_with_char, ends_with_char,
}
use auto_ai.Agent.Skill.{Skill}

abbrev pub quoted_by : Char → String → Bool
quoted_by q val = starts_with_char q val && ends_with_char q val

-- The source subtracts from a length that is not 0: a quoted text has a character.
unfoldable pub unquote : String → Option String
unquote val = if quoted_by "\"" val || quoted_by "'" val then get? val 1 (len val - 1) else some val

abbrev pub field_value : Option String → Option String → Option String
field_value none later = later
field_value (some rest) later = unquote (trim rest)

unfoldable pub find_field : String → List String → Option String
find_field prefix [] = some ""
find_field prefix (line ∷ ls) = field_value (strip_prefix prefix (trim line)) (find_field prefix ls)

unfoldable pub extract_field : String → String → Option String
unfolding find_field
extract_field frontmatter key = find_field (format (key ∷ ":" ∷ [])) (lines frontmatter)

abbrev pub closes : String → Bool
closes line = trim_end line == "---"

-- `map(|l| l.len() + 1).sum()`
abbrev pub sum_len : List String → ℕ
sum_len [] = 0
sum_len (l ∷ ls) = len l + 1 + sum_len ls

-- The body starts after the closing line and the lines before it.
unfoldable pub body_from : String → ℕ → Option String
body_from text idx = do
  body ← get? text (min (sum_len (take (idx + 1) (lines text))) (len text)) (len text)
  some (trim_start body)

abbrev pub front_and_body : String → Option ℕ → Option (String × String)
front_and_body text none = some (text, "")
front_and_body text (some idx) = do
  body ← body_from text idx
  some (join "\n" (take idx (lines text)), body)

abbrev pub fields_of : String × String → Option (String × String × String)
fields_of (frontmatter, body) = do
  name ← extract_field frontmatter "name"
  description ← extract_field frontmatter "description"
  some (name, description, body)

unfoldable pub parse_opened : String → Option (String × String × String)
parse_opened text = do parts ← front_and_body text (position closes (lines text)); fields_of parts

abbrev pub of_opened : String → Option String → Option (String × String × String)
of_opened raw none = some ("", "", raw)
of_opened raw (some text) = parse_opened text

abbrev pub without_bom : String → String
without_bom raw = unwrap_or (strip_prefix "\u{feff}" raw) raw

unfoldable pub parse_frontmatter : String → Option (String × String × String)
parse_frontmatter raw =
    of_opened (without_bom raw)
      (or (strip_prefix "---\n" (without_bom raw)) (strip_prefix "---\r\n" (without_bom raw)))

-- The skill of a file with these parts; without a name it is refused.
abbrev pub skill_of : String → String × String × String → Result String Skill
skill_of path (name, description, content) =
    if name == ""
    then err "frontmatter is missing 'name:'"
    else ok (record { name = name; description = description; content = content; path = path })

-- A file is given by what reading it yields.
abbrev pub parse_skill_file : String → Result String String → Option (Result String Skill)
parse_skill_file path (err e) = some (err (format ("read: " ∷ e ∷ [])))
parse_skill_file path (ok raw) = do parts ← parse_frontmatter raw; some (skill_of path parts)
