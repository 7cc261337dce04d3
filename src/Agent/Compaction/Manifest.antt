-- ===== src/Agent/Compaction/Manifest.antt =====
-- The manifest of files beside the files that the tools touched.
use auto_ai.Common.{
  [], ◌∷◌, false, refl, string_eq, ◌||◌, ◌&&◌, not, String, List, Bool, ◌≡◌, ◌==◌, any, arith,
  if◌then◌else◌,
}
use auto_ai.Common.BTreeSet.{mem, remove_all, mem-set_insert, mem-remove_all}
use auto_ai.Config.Wire.{ContentBlock, Message}
use auto_ai.Agent.Compaction.{Json}
use auto_ai.Agent.Compaction.Files.{
  FileOps, note, note_block, note_blocks, note_messages, extract_file_ops, contains, path_of,
  no_ops,
}

-- Is the file in one of the three sets?
abbrev pub touched : String → FileOps → Bool
touched p ops = mem p ops.read || mem p ops.edited || mem p ops.written

-- Does the tool's name say that it reads or modifies a file?
abbrev pub is_file_tool : String → Bool
is_file_tool lower =
    contains lower "read"
    || contains lower "edit"
    || contains lower "patch"
    || contains lower "write"

touched-note :
    (p lower path : String) (ops : FileOps)
    → touched p (note lower path ops) ≡ (is_file_tool lower && path == p) || touched p ops
unfolding note
touched-note p lower path ops = ground (
  arith,
  mem-set_insert p path ops.read,
  mem-set_insert p path ops.edited,
  mem-set_insert p path ops.written,
)

module _ (json : Json) (to_lowercase : String → String) where
  -- Does the block ask a tool for the file?
  abbrev pub asks : String → ContentBlock json.Value → Bool
  asks p (ContentBlock.text _) = false
  asks p (ContentBlock.tool_use _ name input) =
      not (path_of json to_lowercase input == "")
      && is_file_tool (to_lowercase name)
      && path_of json to_lowercase input == p
  asks p (ContentBlock.tool_result _ _ _) = false

  abbrev pub asked : String → List (Message json.Value) → Bool
  asked p [] = false
  asked p (m ∷ ms) = (m.role == "assistant" && any (asks p) m.content) || asked p ms

  touched-note_block :
      (p : String) (b : ContentBlock json.Value) (ops : FileOps)
      → touched p (note_block json to_lowercase b ops) ≡ asks p b || touched p ops
  unfolding note_block
  touched-note_block p (ContentBlock.text _) ops = refl
  touched-note_block p (ContentBlock.tool_use _ name input) ops =
      ground (arith, touched-note p (to_lowercase name) (path_of json to_lowercase input) ops)
  touched-note_block p (ContentBlock.tool_result _ _ _) ops = refl

  touched-note_blocks :
      (p : String) (blocks : List (ContentBlock json.Value)) (ops : FileOps)
      → touched p (note_blocks json to_lowercase blocks ops) ≡ any (asks p) blocks || touched p ops
  unfolding note_blocks
  touched-note_blocks p [] ops = refl
  touched-note_blocks p (b ∷ blocks) ops = ground (
    arith,
    touched-note_block p b ops,
    touched-note_blocks p blocks (note_block json to_lowercase b ops),
  )

  touched-note_messages :
      (p : String) (ms : List (Message json.Value)) (ops : FileOps)
      → touched p (note_messages json to_lowercase ms ops) ≡ asked p ms || touched p ops
  unfolding note_messages
  touched-note_messages p [] ops = refl
  touched-note_messages p (m ∷ ms) ops = ground (
    arith,
    touched-note_blocks p m.content ops,
    touched-note_messages p ms
        (if m.role == "assistant" then note_blocks json to_lowercase m.content ops else ops),
  )

  -- The manifest of a conversation names exactly the files that a reading or modifying tool was asked
  -- for by the assistant, and no file is listed as read only that is also listed as modified.
  pub extract_file_ops-touched :
      (p : String) (ms : List (Message json.Value))
      → (touched p (extract_file_ops json to_lowercase ms) ≡ asked p ms)
        × ((mem p (extract_file_ops json to_lowercase ms).read
              && (mem p (extract_file_ops json to_lowercase ms).edited
                  || mem p (extract_file_ops json to_lowercase ms).written))
            ≡ false)
  unfolding extract_file_ops
  extract_file_ops-touched p ms =
      let ops = note_messages json to_lowercase ms no_ops in
      let facts = touched-note_messages p ms no_ops in
      let edited = mem-remove_all p ops.edited ops.read in
      let written = mem-remove_all p ops.written (remove_all ops.edited ops.read) in
      (ground (arith, facts, edited, written), ground (arith, edited, written))
