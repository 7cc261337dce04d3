-- ===== src/Daemon/Sse/Examples.antt =====
-- The theorems about the parser at concrete streams.
use auto_ai.Common.{ℕ, List, [], ◌∷◌, ◌++◌, ◌≡◌, refl, arith}
use auto_ai.Daemon.Utf8.{from_utf8}
use auto_ai.Daemon.Sse.Mixed.{push-mixed}
use auto_ai.Daemon.Sse.{push, lf, crlf, find_boundary, extract_data}
use auto_ai.Daemon.Sse.Chunks.{IsText-none, IsText-frame, IsUtf8, then_events, push-append}

-- "data: a\n" and "\ndata: b\n\n": the first boundary is cut in two.
abbrev first_chunk : List ℕ
first_chunk = b'd' ∷ b'a' ∷ b't' ∷ b'a' ∷ b':' ∷ b'a' ∷ 10 ∷ []

abbrev second_chunk : List ℕ
second_chunk = 10 ∷ b'd' ∷ b'a' ∷ b't' ∷ b'a' ∷ b':' ∷ b'b' ∷ 10 ∷ 10 ∷ []

-- "data:a" and "data:b"
abbrev data_a : List ℕ
data_a = b'd' ∷ b'a' ∷ b't' ∷ b'a' ∷ b':' ∷ b'a' ∷ []

abbrev data_b : List ℕ
data_b = b'd' ∷ b'a' ∷ b't' ∷ b'a' ∷ b':' ∷ b'b' ∷ []

abbrev stream : List ℕ
stream = first_chunk ++ second_chunk

stream-IsUtf8 : IsUtf8 ([] ++ stream)
unfolding find_boundary from_utf8
stream-IsUtf8 =
    IsText-frame stream 6 refl (λ e. cc)
      (IsText-frame (b'd' ∷ b'a' ∷ b't' ∷ b'a' ∷ b':' ∷ b'b' ∷ lf) 6 refl (λ e. cc)
        (λ n. IsText-none n [] refl))

push-append_example :
    push [] stream ≡ then_events (push [] first_chunk).0 (push (push [] first_chunk).1 second_chunk)
push-append_example =
    push-append [] first_chunk second_chunk tt (omega arith) (omega arith) stream-IsUtf8

push-mixed_example :
    push [] ((data_a ++ lf) ++ (data_b ++ crlf)) ≡ ((b'a' ∷ 10 ∷ b'b' ∷ []) ∷ [], [])
unfolding from_utf8 extract_data
push-mixed_example =
    push-mixed data_a data_b ((data_a ++ lf) ++ data_b) (omega arith) (omega arith) refl
