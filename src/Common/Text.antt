-- ===== src/Common/Text.antt =====
-- `str` of the source, as texts of characters: `lines`, `trim`, `strip_prefix`.
use Prim.Native.Char.{Char, code}
use Prim.Native.String.{String}
use mathlib.Core.Path.{◌≡◌, refl}
use mathlib.Core.Bool.{Bool, false, ◌&&◌}
use mathlib.Core.List.{List, [], ◌∷◌}
use mathlib.Core.Option.{Option, none, some}
use auto_ai.Common.Tests.{nat_beq, if◌then◌else◌}
use auto_ai.Common.Chars.{is_whitespace}

abbrev pub newline : Char
newline = "\n"

abbrev pub is_newline : Char → Bool
is_newline c = nat_beq (code c) 10

abbrev pub is_return : Char → Bool
is_return c = nat_beq (code c) 13

abbrev pub begins_line_end : String → Bool
begins_line_end String.[] = false
begins_line_end (String.◌∷◌ c s) = is_newline c

abbrev pub onto_first : Char → List String → List String
onto_first c [] = String.◌∷◌ c String.[] ∷ []
onto_first c (l ∷ ls) = String.◌∷◌ c l ∷ ls

-- `lines()`: a line ends with "\n" or "\r\n", or with the text.
unfoldable pub lines : String → List String
lines String.[] = []
lines (String.◌∷◌ c s) =
    let rest = lines s in
    if is_newline c
    then "" ∷ rest
    else if is_return c && begins_line_end s
    then rest
    else onto_first c rest

unfoldable pub trim_start : String → String
unfolding is_whitespace
trim_start String.[] = ""
trim_start (String.◌∷◌ c s) =
    let rest = trim_start s in if is_whitespace (code c) then rest else String.◌∷◌ c s

-- A character before what is left of the text, unless it ends it as white space.
unfoldable pub keep_end : Char → String → String
unfolding is_whitespace
keep_end c String.[] = if is_whitespace (code c) then "" else String.◌∷◌ c String.[]
keep_end c (String.◌∷◌ d s) = String.◌∷◌ c (String.◌∷◌ d s)

unfoldable pub trim_end : String → String
unfolding keep_end
trim_end String.[] = ""
trim_end (String.◌∷◌ c s) = keep_end c (trim_end s)

unfoldable pub trim : String → String
unfolding trim_start trim_end
trim s = trim_start (trim_end s)

unfoldable pub strip_prefix : String → String → Option String
strip_prefix String.[] s = some s
strip_prefix (String.◌∷◌ d p) String.[] = none
strip_prefix (String.◌∷◌ d p) (String.◌∷◌ c s) =
    let rest = strip_prefix p s in if nat_beq (code d) (code c) then rest else none

-- `starts_with` and `ends_with` of a character
abbrev pub starts_with_char : Char → String → Bool
starts_with_char d String.[] = false
starts_with_char d (String.◌∷◌ c s) = nat_beq (code d) (code c)

unfoldable pub ends_with_char : Char → String → Bool
ends_with_char d String.[] = false
ends_with_char d (String.◌∷◌ c String.[]) = nat_beq (code d) (code c)
ends_with_char d (String.◌∷◌ c (String.◌∷◌ b s)) = ends_with_char d (String.◌∷◌ b s)

lines-test : lines "a\r\n\nb\n" ≡ "a" ∷ "" ∷ "b" ∷ []
unfolding lines
lines-test = refl

trim-test : trim "  a b \n" ≡ "a b"
unfolding trim
trim-test = refl
