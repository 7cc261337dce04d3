-- ===== src/Common/Chars.antt =====
-- Texts as lists of code points: `trim`, `to_ascii_lowercase`.
use Prim.Native.Nat.{ℕ, ◌+◌}
use Prim.Native.String.{String}
use Prim.Native.Char.{code}
use mathlib.Core.Bool.{Bool, true, false, ◌&&◌, ◌||◌}
use mathlib.Core.List.{List, [], ◌∷◌}
use auto_ai.Common.Tests.{leb, nat_beq, if◌then◌else◌}

unfoldable pub codes : String → List ℕ
codes String.[] = []
codes (String.◌∷◌ c s) = code c ∷ codes s

-- `char::is_whitespace`
unfoldable pub is_whitespace : ℕ → Bool
is_whitespace c =
    (leb 9 c && leb c 13)
    || nat_beq c 0x20
    || nat_beq c 0x85
    || nat_beq c 0xa0
    || nat_beq c 0x1680
    || (leb 0x2000 c && leb c 0x200a)
    || nat_beq c 0x2028
    || nat_beq c 0x2029
    || nat_beq c 0x202f
    || nat_beq c 0x205f
    || nat_beq c 0x3000

unfoldable pub trim_start : (ℕ → Bool) → List ℕ → List ℕ
trim_start p [] = []
trim_start p (c ∷ cs) = if p c then trim_start p cs else c ∷ cs

all_chars : (ℕ → Bool) → List ℕ → Bool
all_chars p [] = true
all_chars p (c ∷ cs) = p c && all_chars p cs

unfoldable pub trim_end : (ℕ → Bool) → List ℕ → List ℕ
unfolding all_chars
trim_end p [] = []
trim_end p (c ∷ cs) = if all_chars p (c ∷ cs) then [] else c ∷ trim_end p cs

unfoldable pub trim : List ℕ → List ℕ
unfolding is_whitespace trim_start trim_end
trim text = trim_start is_whitespace (trim_end is_whitespace text)

pub ascii_lower : ℕ → ℕ
ascii_lower c = if leb 65 c && leb c 90 then c + 32 else c

-- `to_ascii_lowercase`
unfoldable pub to_ascii_lowercase : List ℕ → List ℕ
unfolding ascii_lower
to_ascii_lowercase [] = []
to_ascii_lowercase (c ∷ cs) = ascii_lower c ∷ to_ascii_lowercase cs

abbrev pub list_eq : List ℕ → List ℕ → Bool
list_eq [] [] = true
list_eq [] (d ∷ ds) = false
list_eq (c ∷ cs) [] = false
list_eq (c ∷ cs) (d ∷ ds) = nat_beq c d && list_eq cs ds

-- The text in a match on a string.
unfoldable pub is_text : List ℕ → String → Bool
unfolding codes
is_text cs s = list_eq cs (codes s)
