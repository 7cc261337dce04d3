-- ===== src/Daemon/Anthropic/Cut.antt =====
-- A stream and the ways in which the network cuts it into chunks.
use auto_ai.Common.{
  ℕ, [], ◌∷◌, ◌++◌, refl, ◌∙◌, sym, ap, subst, ◌≡◌, String, List, map, append-nil, append_assoc,
}
use auto_ai.Daemon.Sse.{Bytes, push}
use auto_ai.Daemon.Sse.Boundary.{HasNoCr, HasNoCr-prefix, HasNoCr-suffix}
use auto_ai.Daemon.Sse.Chunks.{IsUtf8, IsUtf8-prefix, push-append}
use auto_ai.Daemon.Anthropic.{
  JsonReader, Streamed, nothing_streamed, process_events, process_parsed,
}
use auto_ai.Daemon.Anthropic.Stream.{Arrival, Sent, read_stream, complete_stream}

abbrev pub concat : List Bytes → Bytes
concat [] = []
concat (c ∷ cs) = c ++ concat cs

module _ (j : JsonReader) (model : String) where
  process_events-append :
      (es fs : List (List ℕ)) (s : Streamed)
      → process_events j (es ++ fs) s ≡ process_events j fs (process_events j es s)
  unfolding process_events
  process_events-append [] fs s = refl
  process_events-append (e ∷ es) fs s =
      process_events-append es fs (process_parsed j (j.from_event e) s)

  read_stream-join :
      (xs ys : Bytes) (rest : List Arrival) (buffer : Bytes) (s : Streamed)
      → HasNoCr buffer
      → HasNoCr xs
      → HasNoCr ys
      → IsUtf8 (buffer ++ (xs ++ ys))
      → read_stream j model (Arrival.chunk xs ∷ Arrival.chunk ys ∷ rest) buffer s
        ≡ read_stream j model (Arrival.chunk (xs ++ ys) ∷ rest) buffer s
  unfolding read_stream
  read_stream-join xs ys rest buffer s b h k t =
      let more = push (push buffer xs).1 ys in
      ap (read_stream j model rest more.1) (sym (process_events-append (push buffer xs).0 more.0 s))
      ∙ ap (λ r. read_stream j model rest r.1 (process_events j r.0 s))
          (sym (push-append buffer xs ys b h k t))

  read_stream-concat :
      (c : Bytes) (cs : List Bytes) (rest : List Arrival) (buffer : Bytes) (s : Streamed)
      → HasNoCr buffer
      → HasNoCr (c ++ concat cs)
      → IsUtf8 (buffer ++ (c ++ concat cs))
      → read_stream j model (Arrival.chunk c ∷ map Arrival.chunk cs ++ rest) buffer s
        ≡ read_stream j model (Arrival.chunk (c ++ concat cs) ∷ rest) buffer s
  read_stream-concat c [] rest buffer s b h t =
      ap (λ bytes. read_stream j model (Arrival.chunk bytes ∷ rest) buffer s) (sym (append-nil c))
  read_stream-concat c (d ∷ ds) rest buffer s b h t =
      let grouped = append_assoc c d (concat ds) in
      let clean = subst HasNoCr (sym grouped) h in
      let utf8 = subst (λ bytes. IsUtf8 (buffer ++ bytes)) (sym grouped) t in
      let both = HasNoCr-prefix (c ++ d) (concat ds) clean in
      read_stream-join c d (map Arrival.chunk ds ++ rest) buffer s b (HasNoCr-prefix c d both)
        (HasNoCr-suffix c d both)
        (IsUtf8-prefix (buffer ++ (c ++ d)) (concat ds)
          (subst IsUtf8 (sym (append_assoc buffer (c ++ d) (concat ds))) utf8))
      ∙ read_stream-concat (c ++ d) ds rest buffer s b clean utf8
      ∙ ap (λ bytes. read_stream j model (Arrival.chunk bytes ∷ rest) buffer s) grouped

  -- A stream whose frames are UTF-8, with line feeds only, ends the same however its bytes are cut into
  -- chunks, and whatever arrives after them.
  pub complete_stream-cut :
      (c d : Bytes) (cs ds : List Bytes) (rest : List Arrival)
      → HasNoCr (c ++ concat cs)
      → IsUtf8 (c ++ concat cs)
      → c ++ concat cs ≡ d ++ concat ds
      → complete_stream j model (Sent.streaming (Arrival.chunk c ∷ map Arrival.chunk cs ++ rest))
        ≡ complete_stream j model (Sent.streaming (Arrival.chunk d ∷ map Arrival.chunk ds ++ rest))
  unfolding complete_stream
  complete_stream-cut c d cs ds rest h t same =
      read_stream-concat c cs rest [] nothing_streamed no_cr h t
      ∙ ap (λ bytes. read_stream j model (Arrival.chunk bytes ∷ rest) [] nothing_streamed) same
      ∙ sym (
          read_stream-concat d ds rest [] nothing_streamed no_cr (subst HasNoCr same h)
            (subst IsUtf8 same t))
    where
      no_cr : HasNoCr []
      no_cr = tt
