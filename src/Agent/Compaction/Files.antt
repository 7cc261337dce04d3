-- ===== src/Agent/Compaction/Files.antt =====
-- compaction.rs: the files that a conversation touched. `to_lowercase` of Unicode is a parameter.
use text.Mathlib.Text.{find?}
use Prim.Native.Nat.{Ordering}
use Prim.Native.String.{String, compare}
use auto_ai.Common.{
  [], ◌∷◌, none, some, true, false, ◌++◌, string_eq, ◌==◌, ◌||◌, if◌then◌else◌, unwrap_or, List,
  Option, Bool, ℕ,
}
use auto_ai.Common.Format.{format, join}
use auto_ai.Common.BTreeSet.{set_insert, remove_all}
use auto_ai.Config.Wire.{ContentBlock, Message}
use auto_ai.Agent.Compaction.{Json}

pub record FileOps : Type 0 where
  pub read : List String
  pub written : List String
  pub edited : List String

abbrev pub no_ops : FileOps
no_ops = record { read = []; written = []; edited = [] }

abbrev found : Option ℕ → Bool
found none = false
found (some _) = true

abbrev pub contains : String → String → Bool
contains s t = found (find? s t)

-- The set that a tool's name leads to; the tests are in this order.
unfoldable pub note : String → String → FileOps → FileOps
note lower path ops =
    if contains lower "read"
    then record ops { read = set_insert path ops.read }
    else if contains lower "edit" || contains lower "patch"
    then record ops { edited = set_insert path ops.edited }
    else if contains lower "write"
    then record ops { written = set_insert path ops.written }
    else ops

abbrev or_some : Option String → Option String → Option String
or_some none b = b
or_some (some a) b = some a

module _ (json : Json) (to_lowercase : String → String) where
  abbrev pub path_of : json.Value → String
  path_of input =
      unwrap_or
        (or_some (json.field_str input "path")
          (or_some (json.field_str input "file_path") (json.field_str input "notebook_path")))
        ""

  unfoldable pub note_block : ContentBlock json.Value → FileOps → FileOps
  unfolding note
  note_block (ContentBlock.text _) ops = ops
  note_block (ContentBlock.tool_use _ name input) ops =
      if path_of input == "" then ops else note (to_lowercase name) (path_of input) ops
  note_block (ContentBlock.tool_result _ _ _) ops = ops

  unfoldable pub note_blocks : List (ContentBlock json.Value) → FileOps → FileOps
  unfolding note_block
  note_blocks [] ops = ops
  note_blocks (b ∷ blocks) ops = note_blocks blocks (note_block b ops)

  unfoldable pub note_messages : List (Message json.Value) → FileOps → FileOps
  unfolding note_blocks
  note_messages [] ops = ops
  note_messages (m ∷ ms) ops =
      note_messages ms (if m.role == "assistant" then note_blocks m.content ops else ops)

  -- A file that was also modified is not read only.
  abbrev pub settled : FileOps → FileOps
  settled ops = record ops { read = remove_all ops.written (remove_all ops.edited ops.read) }

  unfoldable pub extract_file_ops : List (Message json.Value) → FileOps
  unfolding note_messages
  extract_file_ops ms = settled (note_messages ms no_ops)

-- `sort` and `dedup`
abbrev insert_sorted : String → List String → List String
insert_sorted x [] = x ∷ []
insert_sorted x (y ∷ ys) = elim (compare x y) [
  | Ordering.gt ↦ y ∷ insert_sorted x ys
  | _ ↦ x ∷ y ∷ ys
]

abbrev sort : List String → List String
sort [] = []
sort (x ∷ xs) = insert_sorted x (sort xs)

abbrev dedup : List String → List String
dedup [] = []
dedup (x ∷ []) = x ∷ []
dedup (x ∷ y ∷ ys) = let rest = dedup (y ∷ ys) in if x == y then rest else x ∷ rest

abbrev section : String → String → List String → List String
section before after [] = []
section before after (f ∷ fs) = format (before ∷ join "\n" (f ∷ fs) ∷ after ∷ []) ∷ []

unfoldable pub format_file_operations : FileOps → String
unfolding format join
format_file_operations ops = join "\n\n" (
    section "<read-files>\n" "\n</read-files>" ops.read
    ++ section "<modified-files>\n" "\n</modified-files>"
        (dedup (sort (ops.edited ++ ops.written))))
