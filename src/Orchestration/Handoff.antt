-- ===== src/Orchestration/Handoff.antt =====
-- orchestration/handoff.rs: the document that one step hands to the next.
use auto_ai.Common.{
  ℕ, String, List, [], ◌∷◌, ◌++◌, Option, none, some, ◌==◌, string_eq, if◌then◌else◌,
}
use auto_ai.Common.Format.{format, show, join}

pub record Decision : Type 0 where
  pub title : String
  pub status : String
  pub rationale : String

pub record Question : Type 0 where
  pub text : String
  pub assigned_to : Option String

pub record WorkProduct : Type 0 where
  pub path : String
  pub description : String
  pub lines : Option ℕ

pub record ContextPointers : Type 0 where
  pub files_to_read : List String
  pub files_to_test : List String
  pub warnings : List String

pub record TokenUsage : Type 0 where
  pub step_tokens : ℕ  -- u64
  pub cumulative : ℕ  -- u64
  pub budget_remaining : ℕ  -- u64

pub record HandoffDocument : Type 0 where
  pub from : String
  pub to : String
  pub summary : String
  pub decisions : List Decision
  pub open_questions : List Question
  pub work_product : List WorkProduct
  pub context_for_next : ContextPointers
  pub token_usage : TokenUsage

unfoldable pub new_handoff : String → String → HandoffDocument
new_handoff from to = record {
  from = from;
  to = to;
  summary = "";
  decisions = [];
  open_questions = [];
  work_product = [];
  context_for_next = record { files_to_read = []; files_to_test = []; warnings = [] };
  token_usage = record { step_tokens = 0; cumulative = 0; budget_remaining = 0 };
}

module _ {ℓ} {A : Type ℓ} (render_item : A → List String) where
  render_items : List A → List String
  render_items [] = []
  render_items (x ∷ xs) = render_item x ++ render_items xs

  -- A titled group of lines, left out when there are no items.
  group : String → List String → List A → List String
  unfolding render_items
  group title after [] = []
  group title after (x ∷ xs) = title ∷ (render_items (x ∷ xs) ++ after)

render_decision : Decision → List String
render_decision d =
    format ("- **" ∷ d.status ∷ "**: " ∷ d.title ∷ [])
    ∷ (if d.rationale == "" then [] else format ("  - Rationale: " ∷ d.rationale ∷ []) ∷ [])

render_question : Question → List String
render_question q = format ("- " ∷ q.text ∷ []) ∷ []

-- `wp.lines.map(|l| format!(" ({} lines)", l)).unwrap_or_default()`
render_size : Option ℕ → String
render_size none = ""
render_size (some l) = format (" (" ∷ show l ∷ " lines)" ∷ [])

render_work_product : WorkProduct → List String
unfolding render_size
render_work_product wp =
    format ("- `" ∷ wp.path ∷ "`" ∷ render_size wp.lines ∷ wp.description ∷ []) ∷ []

render_context : ContextPointers → List String
unfolding group
render_context c = body c.files_to_read c.files_to_test c.warnings
  where
    groups : List String
    groups =
        group (λ f. format ("- " ∷ f ∷ []) ∷ []) "\n### Files to Read" [] c.files_to_read
        ++ (group (λ f. format ("- `" ∷ f ∷ "`" ∷ []) ∷ []) "\n### Files to Test" [] c.files_to_test
            ++ group (λ w. format ("- ⚠\u{fe0f} " ∷ w ∷ []) ∷ []) "\n### Warnings" [] c.warnings)

    -- The section stands if one of the three lists is not empty.
    body : List String → List String → List String → List String
    body [] [] [] = []
    body _ _ _ = "## Context for Next Agent" ∷ (groups ++ "" ∷ [])

render_lines : HandoffDocument → List String
unfolding group render_decision render_question render_work_product render_context
render_lines h =
    (format ("# Handoff: " ∷ h.from ∷ " → " ∷ h.to ∷ []) ∷ "" ∷ "## Summary" ∷ h.summary ∷ "" ∷ [])
    ++ (group render_decision "## Decisions Made" ("" ∷ []) h.decisions
        ++ (group render_question "## Open Questions" ("" ∷ []) h.open_questions
            ++ (group render_work_product "## Work Product" ("" ∷ []) h.work_product
                ++ (render_context h.context_for_next
                    ++ format (
                        "## Token Spend\n- This step: "
                        ∷ show h.token_usage.step_tokens
                        ∷ " tokens\n- Cumulative: "
                        ∷ show h.token_usage.cumulative
                        ∷ " tokens\n"
                        ∷ [])
                      ∷ []))))

unfoldable pub render : HandoffDocument → String
unfolding render_lines
render h = join "\n" (render_lines h)
