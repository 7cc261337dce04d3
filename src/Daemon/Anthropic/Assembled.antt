-- ===== src/Daemon/Anthropic/Assembled.antt =====
-- What a stream of events leaves in the blocks of the calls and in the content.
use Prim.Native.String.{◌++◌ as append}
use Prim.Native.String.append
use text.Mathlib.TextLemmas.{append_assoc, append-nil}
use auto_ai.Common.{
  ℕ, zero, suc, [], ◌∷◌, none, some, true, false, refl, inl, inr, ◌∙◌, sym, ap, ◌≡◌, string_eq,
  String, List, Option, Bool, if◌then◌else◌, ◌==◌, nat_beq, arith, Bool-cases, subst, or,
}
use auto_ai.Daemon.Anthropic.{
  JsonReader, ToolBlock, Streamed, update_block, add_text, add_partial, add_reasoning, block_delta,
  block_start, declare_block, message_start, message_delta, take_usage, inner_usage, take_stop,
  take_output, delta_field, block_index, str_or_empty, is_text, process_json, process_parsed,
  process_events,
}

-- The input of the call at an index.
abbrev pub input_at : ℕ → List ToolBlock → String
input_at i [] = ""
input_at zero (b ∷ bs) = b.input_json
input_at (suc i) (b ∷ bs) = input_at i bs

abbrev pub piece_if : Bool → String → String
piece_if true s = s
piece_if false s = ""

abbrev pub given : Option String → String
given none = ""
given (some s) = s

abbrev with_partial : String → ToolBlock → ToolBlock
with_partial partial b = record b { input_json = append b.input_json partial }

beq-zero_suc : (k : ℕ) → nat_beq 0 (suc k) ≡ false
beq-zero_suc k = ground arith

beq-suc_zero : (k : ℕ) → nat_beq (suc k) 0 ≡ false
beq-suc_zero k = ground arith

beq-suc : (i k : ℕ) → nat_beq i k ≡ nat_beq (suc i) (suc k)
beq-suc i k = ground arith

-- Where nothing is added.
unchanged : (s x : String) {b : Bool} → b ≡ false → s ≡ append s (piece_if b x)
unchanged s x h = sym (ap (λ b. append s (piece_if b x)) h ∙ append-nil s)

input_at-with_partial :
    (k i : ℕ) (partial : String) (bs : List ToolBlock)
    → input_at k (update_block i (with_partial partial) bs)
      ≡ append (input_at k bs) (piece_if (nat_beq i k) partial)
unfolding update_block
input_at-with_partial zero zero partial [] = refl
input_at-with_partial zero zero partial (b ∷ bs) = refl
input_at-with_partial (suc k) zero partial [] = unchanged "" partial (beq-zero_suc k)
input_at-with_partial (suc k) zero partial (b ∷ bs) =
    unchanged (input_at k bs) partial (beq-zero_suc k)
input_at-with_partial zero (suc i) partial [] = unchanged "" partial (beq-suc_zero i)
input_at-with_partial zero (suc i) partial (b ∷ bs) =
    unchanged b.input_json partial (beq-suc_zero i)
input_at-with_partial (suc k) (suc i) partial [] =
    input_at-with_partial k i partial [] ∙ ap (λ e. append "" (piece_if e partial)) (beq-suc i k)
input_at-with_partial (suc k) (suc i) partial (b ∷ bs) =
    input_at-with_partial k i partial bs
    ∙ ap (λ e. append (input_at k bs) (piece_if e partial)) (beq-suc i k)

-- `t` is `s` with `body` added to the content and `input` to the input of the call at `k`.
pub record Adds (k : ℕ) (body input : String) (s t : Streamed) : Type 0 where
  pub to_content : t.content ≡ append s.content body
  pub to_input : input_at k t.tool_blocks ≡ append (input_at k s.tool_blocks) input

Adds-nothing :
    (k : ℕ) (s t : Streamed)
    → t.content ≡ s.content
    → input_at k t.tool_blocks ≡ input_at k s.tool_blocks
    → Adds k "" "" s t
Adds-nothing k s t p q = record {
  to_content = p ∙ sym (append-nil s.content);
  to_input = q ∙ sym (append-nil (input_at k s.tool_blocks));
}

Adds-trans :
    {k : ℕ} {a b c d : String} {s t u : Streamed}
    → Adds k a b s t
    → Adds k c d t u
    → Adds k (append a c) (append b d) s u
Adds-trans {k} {a} {b} {c} {d} {s} x y = record {
  to_content = y.to_content ∙ ap (λ z. append z c) x.to_content ∙ append_assoc s.content a c;
  to_input =
      y.to_input ∙ ap (λ z. append z d) x.to_input ∙ append_assoc (input_at k s.tool_blocks) b d;
}

Adds-ap :
    {k : ℕ} {a b c d : String} {s t : Streamed} → a ≡ c → b ≡ d → Adds k a b s t → Adds k c d s t
Adds-ap p q x = record {
  to_content = x.to_content ∙ ap (append _) p;
  to_input = x.to_input ∙ ap (append _) q;
}

-- Whatever a test says.
if-Adds :
    {k : ℕ} {a b : String} {s t u : Streamed} (test : Bool)
    → Adds k a b s t
    → Adds k a b s u
    → Adds k a b s (if test then t else u)
if-Adds true x y = x
if-Adds false x y = y

piece_if-empty : (b : Bool) → "" ≡ piece_if b ""
piece_if-empty true = refl
piece_if-empty false = refl

module _ (j : JsonReader) where
  input_at-declare :
      (k i : ℕ) (block : j.Value) (bs : List ToolBlock)
      → input_at k (update_block i (declare_block j block) bs) ≡ input_at k bs
  unfolding update_block
  input_at-declare zero zero block [] = refl
  input_at-declare zero zero block (b ∷ bs) = refl
  input_at-declare (suc k) zero block [] = refl
  input_at-declare (suc k) zero block (b ∷ bs) = refl
  input_at-declare zero (suc i) block [] = refl
  input_at-declare zero (suc i) block (b ∷ bs) = refl
  input_at-declare (suc k) (suc i) block [] = input_at-declare k i block []
  input_at-declare (suc k) (suc i) block (b ∷ bs) = input_at-declare k i block bs

  -- What an event adds to the content, and to the input of the call at `k`.
  abbrev text_piece : j.Value → String
  text_piece json =
      piece_if (str_or_empty j "type" json == "content_block_delta")
        (given (delta_field j "text" json))

  abbrev input_piece : ℕ → j.Value → String
  input_piece k json =
      piece_if (str_or_empty j "type" json == "content_block_delta")
        (piece_if (nat_beq (block_index j json) k) (given (delta_field j "partial_json" json)))

  add_reasoning-Adds :
      (k : ℕ) (o : Option String) (s : Streamed) → Adds k "" "" s (add_reasoning j o s)
  add_reasoning-Adds k none s = Adds-nothing k s s refl refl
  add_reasoning-Adds k (some r) s = Adds-nothing k s (add_reasoning j (some r) s) refl refl

  add_text-Adds :
      (k : ℕ) (o : Option String) (s : Streamed) → Adds k (given o) "" s (add_text j o s)
  add_text-Adds k none s = Adds-nothing k s s refl refl
  add_text-Adds k (some body) s = record {
    to_content = refl;
    to_input = sym (append-nil (input_at k s.tool_blocks));
  }

  add_partial-Adds :
      (k i : ℕ) (o : Option String) (s : Streamed)
      → Adds k "" (piece_if (nat_beq i k) (given o)) s (add_partial j i o s)
  add_partial-Adds k i none s =
      subst (λ z. Adds k "" z s s) (piece_if-empty (nat_beq i k)) (Adds-nothing k s s refl refl)
  add_partial-Adds k i (some partial) s = record {
    to_content = sym (append-nil s.content);
    to_input = input_at-with_partial k i partial s.tool_blocks;
  }

  block_delta-Adds :
      (k : ℕ) (json : j.Value) (s : Streamed)
      → Adds k
          (given (delta_field j "text" json))
          (piece_if (nat_beq (block_index j json) k) (given (delta_field j "partial_json" json)))
          s
          (block_delta j json s)
  unfolding block_delta
  block_delta-Adds k json s =
      let body = given (delta_field j "text" json) in
      let after_text = add_text j (delta_field j "text" json) s in
      let partial = delta_field j "partial_json" json in
      Adds-ap (append-nil (append body "") ∙ append-nil body)
        (append-nil (append "" (piece_if (nat_beq (block_index j json) k) (given partial)))
          ∙ append.nil (piece_if (nat_beq (block_index j json) k) (given partial)))
        (Adds-trans
          (Adds-trans (add_text-Adds k (delta_field j "text" json) s)
            (add_partial-Adds k (block_index j json) partial after_text))
          (add_reasoning-Adds k
            (or (delta_field j "thinking" json) (delta_field j "reasoning_content" json))
            (add_partial j (block_index j json) partial after_text)))

  take_usage-Adds : (k : ℕ) (o : Option j.Value) (s : Streamed) → Adds k "" "" s (take_usage j o s)
  take_usage-Adds k none s = Adds-nothing k s s refl refl
  take_usage-Adds k (some u) s = Adds-nothing k s (take_usage j (some u) s) refl refl

  block_start-Adds : (k : ℕ) (json : j.Value) (s : Streamed) → Adds k "" "" s (block_start j json s)
  unfolding block_start
  block_start-Adds k json s =
      let block = j.index "content_block" json in
      if-Adds (is_text j (j.as_str (j.index "type" block)) "tool_use")
        (record {
          to_content = sym (append-nil s.content);
          to_input =
              input_at-declare k (block_index j json) block s.tool_blocks
              ∙ sym (append-nil (input_at k s.tool_blocks));
        })
        (Adds-nothing k s s refl refl)

  message_start-Adds :
      (k : ℕ) (json : j.Value) (s : Streamed) → Adds k "" "" s (message_start j json s)
  unfolding message_start
  message_start-Adds k json s = take_usage-Adds k (inner_usage j (j.get "message" json)) s

  take_stop-Adds : (k : ℕ) (o : Option String) (s : Streamed) → Adds k "" "" s (take_stop j o s)
  take_stop-Adds k none s = Adds-nothing k s s refl refl
  take_stop-Adds k (some stop) s = Adds-nothing k s (take_stop j (some stop) s) refl refl

  take_output-Adds :
      (k : ℕ) (o : Option j.Value) (s : Streamed) → Adds k "" "" s (take_output j o s)
  take_output-Adds k none s = Adds-nothing k s s refl refl
  take_output-Adds k (some u) s = Adds-nothing k s (take_output j (some u) s) refl refl

  message_delta-Adds :
      (k : ℕ) (json : j.Value) (s : Streamed) → Adds k "" "" s (message_delta j json s)
  unfolding message_delta
  message_delta-Adds k json s =
      Adds-trans (take_stop-Adds k (delta_field j "stop_reason" json) s)
        (take_output-Adds k (j.get "usage" json) (take_stop j (delta_field j "stop_reason" json) s))

  process_json-Adds :
      (k : ℕ) (json : j.Value) (s : Streamed)
      → Adds k (text_piece json) (input_piece k json) s (process_json j json s)
  unfolding process_json
  process_json-Adds k json s =
      elim (Bool-cases (str_or_empty j "type" json == "content_block_delta")) [
        | inl here ↦ rw here (block_delta-Adds k json s)
        | inr other ↦ rw other (
            if-Adds (str_or_empty j "type" json == "content_block_start")
              (block_start-Adds k json s)
              (if-Adds (str_or_empty j "type" json == "message_start") (message_start-Adds k json s)
                (if-Adds (str_or_empty j "type" json == "message_delta")
                  (message_delta-Adds k json s) (Adds-nothing k s s refl refl))))
      ]

  abbrev parsed_text : Option j.Value → String
  parsed_text none = ""
  parsed_text (some json) = text_piece json

  abbrev parsed_input : ℕ → Option j.Value → String
  parsed_input k none = ""
  parsed_input k (some json) = input_piece k json

  -- All that the events say of the content, and of the input of the call at `k`, in their order.
  abbrev pub texts_of : List (List ℕ) → String
  texts_of [] = ""
  texts_of (event ∷ events) = append (parsed_text (j.from_event event)) (texts_of events)

  abbrev pub inputs_of : ℕ → List (List ℕ) → String
  inputs_of k [] = ""
  inputs_of k (event ∷ events) = append (parsed_input k (j.from_event event)) (inputs_of k events)

  process_parsed-Adds :
      (k : ℕ) (o : Option j.Value) (s : Streamed)
      → Adds k (parsed_text o) (parsed_input k o) s (process_parsed j o s)
  process_parsed-Adds k none s = Adds-nothing k s s refl refl
  process_parsed-Adds k (some json) s = process_json-Adds k json s

  -- However the events of different blocks are mixed, the content grows by their texts, and the input
  -- of each call by its own fragments, in order.
  pub process_events-Adds :
      (k : ℕ) (events : List (List ℕ)) (s : Streamed)
      → Adds k (texts_of events) (inputs_of k events) s (process_events j events s)
  unfolding process_events
  process_events-Adds k [] s = Adds-nothing k s s refl refl
  process_events-Adds k (event ∷ events) s =
      Adds-trans (process_parsed-Adds k (j.from_event event) s)
        (process_events-Adds k events (process_parsed j (j.from_event event) s))
