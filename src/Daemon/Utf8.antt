-- ===== src/Daemon/Utf8.antt =====
-- `String::from_utf8`: bytes to code points, `none` where they are no UTF-8.
use auto_ai.Common.{
  ℕ, zero, suc, ◌+◌, ◌-◌, ◌*◌, List, [], ◌∷◌, Option, none, some, Bool, ◌&&◌, ltb, leb, ◌||◌,
  length, if◌then◌else◌, ◌>>=◌,
}

abbrev within : ℕ → ℕ → ℕ → Bool
within lo hi x = leb lo x && leb x hi

-- Reads `n` continuation bytes onto the code point so far.
continuation : ℕ → ℕ → List ℕ → Option (ℕ × List ℕ)
continuation zero point bytes = some (point, bytes)
continuation (suc n) point [] = none
continuation (suc n) point (b ∷ bytes) =
    let rest = continuation n (point * 64 + (b - 128)) bytes in
    if within 128 191 b then rest else none

-- No overlong form, no surrogate, nothing beyond U+10FFFF.
checked : ℕ → Option (ℕ × List ℕ) → Option (ℕ × List ℕ)
checked least none = none
checked least (some (point, rest)) =
    if leb least point && leb point 0x10ffff && (ltb point 0xd800 || ltb 0xdfff point)
    then some (point, rest)
    else none

-- The first character of a text that starts with the byte `b`.
char_of : ℕ → List ℕ → Option (ℕ × List ℕ)
unfolding continuation checked
char_of b bytes =
    if ltb b 128
    then some (b, bytes)
    else if within 192 223 b
    then checked 0x80 (continuation 1 (b - 192) bytes)
    else if within 224 239 b
    then checked 0x800 (continuation 2 (b - 224) bytes)
    else if within 240 247 b
    then checked 0x10000 (continuation 3 (b - 240) bytes)
    else none

-- With a character for each round; the bytes are rounds enough.
decode : ℕ → List ℕ → Option (List ℕ)
unfolding char_of
decode zero [] = some []
decode zero (b ∷ bytes) = none
decode (suc fuel) [] = some []
decode (suc fuel) (b ∷ bytes) = do
  (point, rest) ← char_of b bytes
  points ← decode fuel rest
  some (point ∷ points)

unfoldable pub from_utf8 : List ℕ → Option (List ℕ)
unfolding decode
from_utf8 bytes = decode (length bytes) bytes
