-- ===== src/Daemon/Sse/Tests.antt =====
-- Runs of the parser.
use auto_ai.Common.{ℕ, List, [], ◌∷◌, ◌++◌, ◌≡◌, refl}
use auto_ai.Daemon.Utf8.{from_utf8}
use auto_ai.Daemon.Sse.{push, finish, crlf, next_frame, find_boundary, extract_data}

abbrev data_hi : List ℕ
data_hi = b'd' ∷ b'a' ∷ b't' ∷ b'a' ∷ b':' ∷ b' ' ∷ b'h' ∷ b'i' ∷ []

crlf_boundary : push [] (data_hi ++ crlf) ≡ ((b'h' ∷ b'i' ∷ []) ∷ [], [])
unfolding push next_frame find_boundary from_utf8 extract_data
crlf_boundary = refl

finish_flushes : finish data_hi ≡ (b'h' ∷ b'i' ∷ []) ∷ []
unfolding finish next_frame find_boundary from_utf8 extract_data
finish_flushes = refl

partial : push [] data_hi ≡ ([], data_hi)
unfolding push next_frame find_boundary from_utf8 extract_data
partial = refl
