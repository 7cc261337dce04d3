-- ===== src/Daemon/Sse.antt =====
-- sse.rs: the incremental parser of server-sent events. The buffer is a list of bytes, and a text
-- a list of code points.
mod Examples
mod Tests
pub mod Boundary
pub mod Chunks
pub mod Mixed
use auto_ai.Common.{
  ℕ, zero, suc, ◌+◌, List, [], ◌∷◌, ◌++◌, Option, none, some, Bool, true, false, ◌&&◌, ◌||◌, not,
  ltb, leb, nat_beq, if◌then◌else◌, length, take, drop,
}
use auto_ai.Common.Chars.{trim, trim_start, list_eq}
use auto_ai.Daemon.Utf8.{from_utf8}

abbrev pub Bytes : Type 0
Bytes = List ℕ

abbrev pub is_prefix : Bytes → Bytes → Bool
is_prefix [] bytes = true
is_prefix (p ∷ ps) [] = false
is_prefix (p ∷ ps) (b ∷ bytes) = nat_beq p b && is_prefix ps bytes

abbrev shift : Option ℕ → Option ℕ
shift none = none
shift (some i) = some (suc i)

-- `windows(boundary.len()).position(|w| w == boundary)`, of a boundary that is not empty
unfoldable pub find_boundary : Bytes → Bytes → Option ℕ
find_boundary [] boundary = none
find_boundary (b ∷ bytes) boundary =
    if is_prefix boundary (b ∷ bytes) then some 0 else shift (find_boundary bytes boundary)

abbrev pub crlf : Bytes
crlf = 13 ∷ 10 ∷ 13 ∷ 10 ∷ []

abbrev pub lf : Bytes
lf = 10 ∷ 10 ∷ []

-- The frame before a boundary of `n` bytes at `pos`, and the buffer after it.
abbrev pub cut_frame : ℕ → ℕ → Bytes → Option (List ℕ) × Bytes
cut_frame n pos buffer = (from_utf8 (take pos buffer), drop n (drop pos buffer))

unfoldable pub lf_frame : Option ℕ → Bytes → Option (List ℕ) × Bytes
lf_frame none buffer = (none, buffer)
lf_frame (some pos) buffer = cut_frame 2 pos buffer

unfoldable pub crlf_frame : Option ℕ → Bytes → Option (List ℕ) × Bytes
unfolding lf_frame
crlf_frame none buffer = lf_frame (find_boundary buffer lf) buffer
crlf_frame (some pos) buffer = cut_frame 4 pos buffer

-- The next frame, if a boundary is found and the frame is UTF-8, and the buffer left.
unfoldable pub next_frame : Bytes → Option (List ℕ) × Bytes
unfolding crlf_frame
next_frame buffer = crlf_frame (find_boundary buffer crlf) buffer

-- `str::lines`: each line without its "\n" or "\r\n"; no line after a final "\n".
abbrev strip_cr : List ℕ → List ℕ
strip_cr [] = []
strip_cr (c ∷ []) = if nat_beq c 13 then [] else c ∷ []
strip_cr (c ∷ d ∷ cs) = c ∷ strip_cr (d ∷ cs)

abbrev last_line : List ℕ → List (List ℕ)
last_line [] = []
last_line (c ∷ cs) = (c ∷ cs) ∷ []

lines_from : List ℕ → List ℕ → List (List ℕ)
lines_from line [] = last_line line
lines_from line (c ∷ cs) = elim (nat_beq c 10) [
  | true ↦ strip_cr line ∷ lines_from [] cs
  | false ↦ lines_from (line ++ c ∷ []) cs
]

unfoldable pub lines : List ℕ → List (List ℕ)
unfolding lines_from
lines text = lines_from [] text

-- `line.split_once(':')`, with the key so far.
split_colon : List ℕ → List ℕ → Option (List ℕ × List ℕ)
split_colon key [] = none
split_colon key (c ∷ cs) =
    let rest = split_colon (key ++ c ∷ []) cs in if nat_beq c b':' then some (key, cs) else rest

abbrev data_key : List ℕ
data_key = b'd' ∷ b'a' ∷ b't' ∷ b'a' ∷ []

abbrev done_signal : List ℕ
done_signal = b'[' ∷ b'D' ∷ b'O' ∷ b'N' ∷ b'E' ∷ b']' ∷ []

-- The value of a data line, `none` for a blank line, a comment or another field.
field_value : Option (List ℕ × List ℕ) → Option (List ℕ)
unfolding trim trim_start
field_value none = none
field_value (some (key, value)) =
    if list_eq (trim key) data_key then some (trim_start (λ c. nat_beq c 0x20) value) else none

data_line : List ℕ → Option (List ℕ)
unfolding field_value split_colon
data_line [] = none
data_line (c ∷ cs) = if nat_beq c b':' then none else field_value (split_colon [] (c ∷ cs))

abbrev pub prepend : Option (List ℕ) → List (List ℕ) → List (List ℕ)
prepend none parts = parts
prepend (some part) parts = part ∷ parts

data_parts : List (List ℕ) → List (List ℕ)
unfolding data_line
data_parts [] = []
data_parts (line ∷ rest) = prepend (data_line line) (data_parts rest)

join_lines : List (List ℕ) → List ℕ
join_lines [] = []
join_lines (part ∷ []) = part
join_lines (part ∷ next ∷ parts) = part ++ 10 ∷ join_lines (next ∷ parts)

event_of : List (List ℕ) → Option (List ℕ)
unfolding join_lines
event_of [] = none
event_of (part ∷ parts) =
    let text = join_lines (part ∷ parts) in if list_eq text done_signal then none else some text

unfoldable pub extract_data : List ℕ → Option (List ℕ)
unfolding lines data_parts event_of
extract_data frame = event_of (data_parts (lines frame))

-- The frame's event is put before those that the rest of the loop finds.
abbrev pub add_event : Option (List ℕ) → List (List ℕ) × Bytes → List (List ℕ) × Bytes
add_event event (events, buffer) = (prepend event events, buffer)

abbrev pub drain_after :
    (Bytes → List (List ℕ) × Bytes) → Option (List ℕ) × Bytes → List (List ℕ) × Bytes
drain_after loop (none, rest) = ([], rest)
drain_after loop (some frame, rest) = add_event (extract_data frame) (loop rest)

-- The loop of `drain_data`. It ends at the first frame that is missing or no UTF-8; each round but
-- the last shortens the buffer, so its length is fuel enough.
unfoldable pub drain : ℕ → Bytes → List (List ℕ) × Bytes
drain zero buffer = ([], buffer)
drain (suc fuel) buffer = drain_after (drain fuel) (next_frame buffer)

unfoldable pub drain_data : Bytes → List (List ℕ) × Bytes
unfolding drain
drain_data buffer = drain (suc (length buffer)) buffer

-- `push` returns the events and the new buffer.
unfoldable pub push : Bytes → Bytes → List (List ℕ) × Bytes
unfolding drain_data
push buffer chunk = drain_data (buffer ++ chunk)

unfoldable pub finish : Bytes → List (List ℕ)
unfolding drain_data
finish buffer = (drain_data (buffer ++ lf)).0
