-- ===== src/Agent/Memory/History.antt =====
-- Histories that are built message by message.
use auto_ai.Common.{
  [], ◌∷◌, some, none, refl, sym, ap, ◌∙◌, ◌++◌, string_eq, append-nil, append_assoc, List, String,
  Option, ℕ, ◌≡◌, filter, filter-append,
}
use auto_ai.Agent.Memory.Window.{trim-window}
use auto_ai.Config.Wire.{Message}
use auto_ai.Agent.Memory.{
  trim_to, extend_pairs, add_message, trim, Memory, message_of, is_system, add,
}

module _ {J : Type 0} where
  pub messages-add_message :
      (m : Message J) (mem : Memory J)
      → (add_message m mem).messages ≡ trim_to mem.limit (mem.messages ++ m ∷ [])
  unfolding add_message trim
  messages-add_message m mem = refl

  pub limit-add_message : (m : Message J) (mem : Memory J) → (add_message m mem).limit ≡ mem.limit
  unfolding add_message trim
  limit-add_message m mem = refl

  systems-trim :
      (limit : Option ℕ) (ms : List (Message J))
      → filter is_system (trim_to limit ms) ≡ filter is_system ms
  unfolding trim_to
  systems-trim none ms = refl
  systems-trim (some l) ms = let (n, q, _, _, _) = trim-window l ms in q

  systems-add :
      (m : Message J) (mem : Memory J)
      → filter is_system (add_message m mem).messages
        ≡ filter is_system mem.messages ++ filter is_system (m ∷ [])
  systems-add m mem =
      ap (filter is_system) (messages-add_message m mem)
      ∙ systems-trim mem.limit (mem.messages ++ m ∷ [])
      ∙ filter-append is_system mem.messages (m ∷ [])

  abbrev pub messages_of : List (String × String) → List (Message J)
  messages_of [] = []
  messages_of ((role, content) ∷ pairs) = message_of role content ∷ messages_of pairs

  -- A history that is loaded adds its system messages, in order, to those of the memory, whatever the
  -- limit is and however often the loading trims.
  pub systems-extend_pairs :
      (pairs : List (String × String)) (mem : Memory J)
      → filter is_system (extend_pairs pairs mem).messages
        ≡ filter is_system mem.messages ++ filter is_system (messages_of pairs)
  unfolding extend_pairs
  systems-extend_pairs [] mem = sym (append-nil (filter is_system mem.messages))
  systems-extend_pairs ((role, content) ∷ pairs) mem =
      systems-extend_pairs pairs (add role content mem)
      ∙ ap (λ xs. xs ++ filter is_system (messages_of pairs))
          (systems-add (message_of role content) mem)
      ∙ append_assoc (filter is_system mem.messages)
          (filter is_system (message_of role content ∷ [])) (filter is_system (messages_of pairs))
      ∙ ap (λ xs. filter is_system mem.messages ++ xs)
          (sym (filter-append is_system (message_of role content ∷ []) (messages_of pairs)))
