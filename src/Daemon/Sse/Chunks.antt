-- ===== src/Daemon/Sse/Chunks.antt =====
-- The ways in which a stream can be cut into chunks.
use mathlib.Core.Option.{some-injective}
use auto_ai.Common.{
  ℕ, zero, suc, ◌+◌, ◌≤◌, ◌<◌, ◌≡◌, ◌≢◌, refl, sym, ap, subst, ◌∙◌, List, [], ◌++◌, Option, none,
  some, arith, length, length-append, take, drop, Option-cases, inl, inr, append_assoc,
}
use auto_ai.Daemon.Utf8.{from_utf8}
use auto_ai.Daemon.Sse.{
  Bytes, find_boundary, lf, lf_frame, next_frame, extract_data, prepend, add_event, drain, push,
}
use auto_ai.Daemon.Sse.Boundary.{
  HasNoCr, HasNoCr-append, HasNoCr-drop, find_boundary-append, find_boundary-within, take-append,
  drop-append, length-drop, next_frame-lf,
}

-- The buffer after its first frame, whose boundary is at `i`.
abbrev pub after_frame : ℕ → Bytes → Bytes
after_frame i xs = drop 2 (drop i xs)

-- The frames of a buffer, up to `n` of them, are UTF-8.
abbrev pub IsText : ℕ → Bytes → Type 0
IsText zero xs = Unit {0}
IsText (suc n) xs =
    (i : ℕ)
    → find_boundary xs lf ≡ some i
    → (from_utf8 (take i xs) ≢ none) × IsText n (after_frame i xs)

pub IsText-none : (n : ℕ) (xs : Bytes) → find_boundary xs lf ≡ none → IsText n xs
IsText-none zero xs h = tt
IsText-none (suc n) xs h = λ i q. cc

pub IsText-frame :
    (xs : Bytes) (p : ℕ)
    → find_boundary xs lf ≡ some p
    → from_utf8 (take p xs) ≢ none
    → ((n : ℕ) → IsText n (after_frame p xs))
    → (n : ℕ) → IsText n xs
IsText-frame xs p h good later zero = tt
IsText-frame xs p h good later (suc n) = λ i q.
    subst (λ i. (from_utf8 (take i xs) ≢ none) × IsText n (after_frame i xs))
      (some-injective p i (sym h ∙ q)) (good, later n)

module _ (xs : Bytes) (no_cr : HasNoCr xs) where
  next_frame-none : find_boundary xs lf ≡ none → next_frame xs ≡ (none, xs)
  unfolding lf_frame
  next_frame-none q = next_frame-lf xs no_cr ∙ rw (q, lf_frame)

  next_frame-some :
      (i : ℕ)
      → find_boundary xs lf ≡ some i
      → next_frame xs ≡ (from_utf8 (take i xs), after_frame i xs)
  unfolding lf_frame
  next_frame-some i q = next_frame-lf xs no_cr ∙ rw (q, lf_frame)

after_frame-append :
    (xs ys : Bytes) (i : ℕ)
    → find_boundary xs lf ≡ some i
    → after_frame i (xs ++ ys) ≡ after_frame i xs ++ ys
after_frame-append xs ys i q =
    let fits = find_boundary-within xs lf i q in
    rw (drop-append i xs ys (omega (arith, fits)))
      (drop-append 2 (drop i xs) ys (omega (arith, fits, length-drop i xs)))

length-after_frame :
    (xs : Bytes) (i : ℕ) → find_boundary xs lf ≡ some i → length (after_frame i xs) + 2 ≤ length xs
length-after_frame xs i q =
    omega (arith, find_boundary-within xs lf i q, length-drop 2 (drop i xs), length-drop i xs)

after_frame-HasNoCr : (xs : Bytes) (i : ℕ) → HasNoCr xs → HasNoCr (after_frame i xs)
after_frame-HasNoCr xs i h = HasNoCr-drop 2 (drop i xs) (HasNoCr-drop i xs h)

-- One round of the loop, in its three cases.
module _ (n : ℕ) (xs : Bytes) (no_cr : HasNoCr xs) where
  drain-none : find_boundary xs lf ≡ none → drain (suc n) xs ≡ ([], xs)
  unfolding drain
  drain-none q = rw (next_frame-none xs no_cr q)

  drain-bad :
      (i : ℕ)
      → find_boundary xs lf ≡ some i
      → from_utf8 (take i xs) ≡ none
      → drain (suc n) xs ≡ ([], after_frame i xs)
  unfolding drain
  drain-bad i q bad = rw (next_frame-some xs no_cr i q, bad)

  drain-some :
      (i : ℕ) (text : List ℕ)
      → find_boundary xs lf ≡ some i
      → from_utf8 (take i xs) ≡ some text
      → drain (suc n) xs ≡ add_event (extract_data text) (drain n (after_frame i xs))
  unfolding drain
  drain-some i text q good = rw (next_frame-some xs no_cr i q, good)

-- The buffer that is left is no longer, and has no carriage return either.
abbrev Rest : Bytes → Bytes → Type 0
Rest xs rest = (length rest ≤ length xs) × HasNoCr rest

drain-Rest : (n : ℕ) (xs : Bytes) → HasNoCr xs → Rest xs (drain n xs).1
unfolding drain
drain-Rest zero xs h = (omega arith, h)
drain-Rest (suc n) xs h = elim (Option-cases (find_boundary xs lf)) [
  | inl q ↦ rw (drain-none n xs h q) (omega arith, h)
  | inr (i, q) ↦
      let shorter = length-after_frame xs i q in
      let clean = after_frame-HasNoCr xs i h in
      elim (Option-cases (from_utf8 (take i xs))) [
        | inl bad ↦ rw (drain-bad n xs h i q bad) (omega (arith, shorter), clean)
        | inr (text, good) ↦
            let (le, no_cr) = drain-Rest n (after_frame i xs) clean in
            rw (drain-some n xs h i text q good) (omega (arith, shorter, le), no_cr)
      ]
]

-- The loop ends by itself: more fuel than bytes changes nothing.
pub drain-fuel :
    (n m : ℕ) (xs : Bytes) → HasNoCr xs → length xs < n → length xs < m → drain n xs ≡ drain m xs
drain-fuel zero m xs h a b = elim a [ ]
drain-fuel (suc n) zero xs h a b = elim b [ ]
drain-fuel (suc n) (suc m) xs h a b = elim (Option-cases (find_boundary xs lf)) [
  | inl q ↦ drain-none n xs h q ∙ sym (drain-none m xs h q)
  | inr (i, q) ↦ elim (Option-cases (from_utf8 (take i xs))) [
    | inl bad ↦ drain-bad n xs h i q bad ∙ sym (drain-bad m xs h i q bad)
    | inr (text, good) ↦
        let shorter = length-after_frame xs i q in
        let same =
          drain-fuel n m (after_frame i xs) (after_frame-HasNoCr xs i h) (omega (arith, shorter))
            (omega (arith, shorter)) in
        drain-some n xs h i text q good
        ∙ (ap (add_event (extract_data text)) same ∙ sym (drain-some m xs h i text q good))
  ]
]

-- The events of two runs, one after the other.
abbrev pub then_events : List (List ℕ) → List (List ℕ) × Bytes → List (List ℕ) × Bytes
then_events events (more, buffer) = (events ++ more, buffer)

add_event-then_events :
    (event : Option (List ℕ)) (events : List (List ℕ)) (r : List (List ℕ) × Bytes)
    → add_event event (then_events events r) ≡ then_events (prepend event events) r
add_event-then_events none events (more, buffer) = refl
add_event-then_events (some e) events (more, buffer) = refl

-- The round of a first frame that both buffers have.
drain-append_frame :
    (n : ℕ) (xs ys : Bytes) (i : ℕ) (text : List ℕ)
    → HasNoCr xs
    → HasNoCr ys
    → length (xs ++ ys) < suc n
    → find_boundary xs lf ≡ some i
    → from_utf8 (take i xs) ≡ some text
    → (let rest = after_frame i xs in
        drain n (rest ++ ys) ≡ then_events (drain n rest).0 (drain n ((drain n rest).1 ++ ys)))
    → drain (suc n) (xs ++ ys)
      ≡ then_events (drain (suc n) xs).0 (drain (suc n) ((drain (suc n) xs).1 ++ ys))
drain-append_frame n xs ys i text h k lt q good ih =
    let rest = after_frame i xs in
    let event = extract_data text in
    let fits = find_boundary-within xs lf i q in
    let shorter = length-after_frame xs i q in
    let (le, no_cr) = drain-Rest n rest (after_frame-HasNoCr xs i h) in
    let left = (drain n rest).1 ++ ys in
    let lengths : length left < n =
      omega (arith, le, shorter, length-append (drain n rest).1 ys, length-append xs ys) in
    let refuel =
      drain-fuel n (suc n) left (HasNoCr-append _ ys no_cr k) lengths (omega (arith, lengths)) in
    drain-some n (xs ++ ys) (HasNoCr-append xs ys h k) i text (find_boundary-append xs lf ys i q)
      (ap from_utf8 (take-append i xs ys (omega (arith, fits))) ∙ good)
    ∙ (ap (λ b. add_event event (drain n b)) (after_frame-append xs ys i q)
        ∙ (ap (add_event event) ih
            ∙ (add_event-then_events event (drain n rest).0 (drain n left)
                ∙ (ap (then_events (prepend event (drain n rest).0)) refuel
                    ∙ ap (λ z. then_events z.0 (drain (suc n) (z.1 ++ ys)))
                        (sym (drain-some n xs h i text q good))))))

drain-append :
    (n : ℕ) (xs ys : Bytes)
    → HasNoCr xs
    → HasNoCr ys
    → IsText n (xs ++ ys)
    → length (xs ++ ys) < n
    → drain n (xs ++ ys) ≡ then_events (drain n xs).0 (drain n ((drain n xs).1 ++ ys))
drain-append zero xs ys h k t lt = elim lt [ ]
drain-append (suc n) xs ys h k t lt = elim (Option-cases (find_boundary xs lf)) [
  | inl q ↦ rw (drain-none n xs h q)
  | inr (i, q) ↦
      let (valid, later) = t i (find_boundary-append xs lf ys i q) in
      let fits = find_boundary-within xs lf i q in
      let cut = ap from_utf8 (take-append i xs ys (omega (arith, fits))) in
      let rest = after_frame-append xs ys i q in
      let shorter = length-after_frame xs i q in
      elim (Option-cases (from_utf8 (take i xs))) [
        | inl bad ↦ absurd (valid (cut ∙ bad))
        | inr (text, good) ↦ drain-append_frame n xs ys i text h k lt q good (
            drain-append n (after_frame i xs) ys (after_frame-HasNoCr xs i h) k
              (subst (IsText n) rest later)
              (omega (arith, shorter, length-append (after_frame i xs) ys, length-append xs ys)))
      ]
]

push-drain :
    (n : ℕ) (buffer chunk : Bytes)
    → HasNoCr buffer
    → HasNoCr chunk
    → length (buffer ++ chunk) < n
    → push buffer chunk ≡ drain n (buffer ++ chunk)
unfolding push
push-drain n buffer chunk b h lt =
    drain-fuel (suc (length (buffer ++ chunk))) n (buffer ++ chunk)
      (HasNoCr-append buffer chunk b h) (omega arith) lt

-- Every frame of the bytes is UTF-8.
abbrev pub IsUtf8 : Bytes → Type 0
IsUtf8 xs = (n : ℕ) → IsText n xs

IsText-prefix : (n : ℕ) (xs ys : Bytes) → IsText n (xs ++ ys) → IsText n xs
IsText-prefix zero xs ys t = tt
IsText-prefix (suc n) xs ys t = λ i q.
    let (valid, later) = t i (find_boundary-append xs lf ys i q) in
    let cut = ap from_utf8 (take-append i xs ys (omega (arith, find_boundary-within xs lf i q))) in
    (
      λ bad. valid (cut ∙ bad),
      IsText-prefix n (after_frame i xs) ys (subst (IsText n) (after_frame-append xs ys i q) later),
    )

pub IsUtf8-prefix : (xs ys : Bytes) → IsUtf8 (xs ++ ys) → IsUtf8 xs
IsUtf8-prefix xs ys t = λ n. IsText-prefix n xs ys (t n)

-- On a stream without carriage returns whose frames are UTF-8, pushing two chunks gives the events
-- and leaves the buffer of pushing them as one.
pub push-append :
    (buffer xs ys : Bytes)
    → HasNoCr buffer
    → HasNoCr xs
    → HasNoCr ys
    → IsUtf8 (buffer ++ (xs ++ ys))
    → push buffer (xs ++ ys) ≡ then_events (push buffer xs).0 (push (push buffer xs).1 ys)
push-append buffer xs ys b h k t =
    let n = suc (length ((buffer ++ xs) ++ ys)) in
    let held = HasNoCr-append buffer xs b h in
    let (le, no_cr) = drain-Rest n (buffer ++ xs) held in
    let regroup = append_assoc buffer xs ys in
    let first = push-drain n buffer xs b h (omega (arith, length-append (buffer ++ xs) ys)) in
    let second = push-drain n (drain n (buffer ++ xs)).1 ys no_cr k (
      omega (
        arith,
        le,
        length-append (drain n (buffer ++ xs)).1 ys,
        length-append (buffer ++ xs) ys,
      )) in
    push-drain n buffer (xs ++ ys) b (HasNoCr-append xs ys h k) (omega (arith, ap length regroup))
    ∙ (ap (drain n) (sym regroup)
        ∙ (drain-append n (buffer ++ xs) ys held k (subst (IsText n) (sym regroup) (t n))
              (omega arith)
            ∙ (ap (then_events (drain n (buffer ++ xs)).0) (sym second)
                ∙ ap (λ z. then_events z.0 (push z.1 ys)) (sym first))))
