-- ===== src/Daemon/Sse/Mixed.antt =====
-- Streams that mix the two boundaries.
use auto_ai.Common.{
  ℕ, zero, suc, ◌≡◌, refl, ap, sym, ◌∙◌, List, [], ◌∷◌, ◌++◌, some, arith, length, take, drop,
  append_assoc,
}
use auto_ai.Daemon.Utf8.{from_utf8}
use auto_ai.Daemon.Sse.{
  Bytes, find_boundary, crlf, lf, crlf_frame, next_frame, extract_data, prepend, add_event, drain,
  push, lf_frame,
}
use auto_ai.Daemon.Sse.Boundary.{HasNoCr, HasNoCr-append}

-- The first "\r\n\r\n" of a stream that has its first carriage return there.
find_boundary-at_crlf :
    (zs : Bytes) → HasNoCr zs → find_boundary (zs ++ crlf) crlf ≡ some (length zs)
unfolding find_boundary
find_boundary-at_crlf [] h = refl
find_boundary-at_crlf (z ∷ zs) h = ground (arith, h.0, find_boundary-at_crlf zs h.1)

take-length-append : (xs ys : Bytes) → take (length xs) (xs ++ ys) ≡ xs
take-length-append [] ys = refl
take-length-append (x ∷ xs) ys = ap (◌∷◌ x) (take-length-append xs ys)

drop-length-append : (xs ys : Bytes) → drop (length xs) (xs ++ ys) ≡ ys
drop-length-append [] ys = refl
drop-length-append (x ∷ xs) ys = drop-length-append xs ys

next_frame-crlf : (zs : Bytes) → HasNoCr zs → next_frame (zs ++ crlf) ≡ (from_utf8 zs, [])
unfolding next_frame
next_frame-crlf zs h =
    rw (find_boundary-at_crlf zs h, crlf_frame, take-length-append, drop-length-append)

drain-nil : (n : ℕ) → drain n [] ≡ ([], [])
unfolding drain next_frame find_boundary lf_frame crlf_frame
drain-nil zero = refl
drain-nil (suc n) = refl

push-crlf :
    (zs : Bytes) (text : List ℕ)
    → HasNoCr zs
    → from_utf8 zs ≡ some text
    → push [] (zs ++ crlf) ≡ (prepend (extract_data text) [], [])
unfolding push
push-crlf zs text h good =
    rw (next_frame-crlf zs h, good)
      (ap (add_event (extract_data text)) (drain-nil (length (zs ++ crlf))))

-- A frame that ends by "\n\n" is not found where a frame that ends by "\r\n\r\n" follows it in the
-- buffer: the two are handed on as one frame, their texts in one event.
pub push-mixed :
    (xs ys : Bytes) (text : List ℕ)
    → HasNoCr xs
    → HasNoCr ys
    → from_utf8 ((xs ++ lf) ++ ys) ≡ some text
    → push [] ((xs ++ lf) ++ (ys ++ crlf)) ≡ (prepend (extract_data text) [], [])
push-mixed xs ys text h k good =
    ap (push []) (sym (append_assoc (xs ++ lf) ys crlf))
    ∙ push-crlf ((xs ++ lf) ++ ys) text
        (HasNoCr-append (xs ++ lf) ys (HasNoCr-append xs lf h (omega arith)) k) good
