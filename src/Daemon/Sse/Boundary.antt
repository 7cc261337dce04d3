-- ===== src/Daemon/Sse/Boundary.antt =====
-- Where frames end: the first boundary, and what more bytes change of it.
use auto_ai.Common.{
  ℕ, zero, suc, ◌+◌, ◌-◌, ◌≤◌, ◌≡◌, ◌≢◌, refl, ap, [], ◌∷◌, ◌++◌, none, some, true, ◌&&◌, arith,
  length, take, drop, Bool-cases, Option-cases, inl, inr, nat_beq,
}
use auto_ai.Daemon.Sse.{Bytes, is_prefix, find_boundary, crlf, lf, next_frame, crlf_frame, lf_frame}

-- No carriage return among the bytes.
abbrev pub HasNoCr : Bytes → Type 0
HasNoCr [] = Unit {0}
HasNoCr (b ∷ bytes) = (b ≢ 13) × HasNoCr bytes

pub HasNoCr-append : (xs ys : Bytes) → HasNoCr xs → HasNoCr ys → HasNoCr (xs ++ ys)
HasNoCr-append [] ys h k = k
HasNoCr-append (x ∷ xs) ys h k = (h.0, HasNoCr-append xs ys h.1 k)

pub HasNoCr-prefix : (xs ys : Bytes) → HasNoCr (xs ++ ys) → HasNoCr xs
HasNoCr-prefix [] ys h = tt
HasNoCr-prefix (x ∷ xs) ys h = (h.0, HasNoCr-prefix xs ys h.1)

pub HasNoCr-suffix : (xs ys : Bytes) → HasNoCr (xs ++ ys) → HasNoCr ys
HasNoCr-suffix [] ys h = h
HasNoCr-suffix (x ∷ xs) ys h = HasNoCr-suffix xs ys h.1

pub HasNoCr-drop : (n : ℕ) (xs : Bytes) → HasNoCr xs → HasNoCr (drop n xs)
HasNoCr-drop zero xs h = h
HasNoCr-drop (suc n) [] h = tt
HasNoCr-drop (suc n) (x ∷ xs) h = HasNoCr-drop n xs h.1

pub find_boundary-crlf : (xs : Bytes) → HasNoCr xs → find_boundary xs crlf ≡ none
unfolding find_boundary
find_boundary-crlf [] h = refl
find_boundary-crlf (x ∷ xs) h = ground (arith, h.0, find_boundary-crlf xs h.1)

-- A prefix that fits is decided by the bytes at hand.
is_prefix-append :
    (ps xs ys : Bytes) → length ps ≤ length xs → is_prefix ps (xs ++ ys) ≡ is_prefix ps xs
is_prefix-append [] xs ys h = refl
is_prefix-append (p ∷ ps) [] ys h = absurd (omega arith)
is_prefix-append (p ∷ ps) (x ∷ xs) ys h =
    ap (λ b. nat_beq p x && b) (is_prefix-append ps xs ys (omega arith))

length-is_prefix-le : (ps xs : Bytes) → is_prefix ps xs ≡ true → length ps ≤ length xs
length-is_prefix-le [] xs h = omega arith
length-is_prefix-le (p ∷ ps) [] h = cc
length-is_prefix-le (p ∷ ps) (x ∷ xs) h = ground (arith, length-is_prefix-le ps xs)

-- A boundary lies within the bytes.
pub find_boundary-within :
    (xs bound : Bytes) (i : ℕ) → find_boundary xs bound ≡ some i → i + length bound ≤ length xs
unfolding find_boundary
find_boundary-within [] bound i h = cc
find_boundary-within (x ∷ xs) bound i h = elim (Bool-cases (is_prefix bound (x ∷ xs))) [
  | inl here ↦ ground (arith, length-is_prefix-le bound (x ∷ xs) here)
  | inr later ↦ elim (Option-cases (find_boundary xs bound)) [
    | inl q ↦ absurd (ground arith)
    | inr (j, q) ↦ ground (arith, find_boundary-within xs bound j q)
  ]
]

-- More bytes do not move the first boundary.
pub find_boundary-append :
    (xs bound ys : Bytes) (i : ℕ)
    → find_boundary xs bound ≡ some i
    → find_boundary (xs ++ ys) bound ≡ some i
unfolding find_boundary
find_boundary-append [] bound ys i h = cc
find_boundary-append (x ∷ xs) bound ys i h = elim (Bool-cases (is_prefix bound (x ∷ xs))) [
  | inl here ↦
      let same = is_prefix-append bound (x ∷ xs) ys (length-is_prefix-le bound (x ∷ xs) here) in
      ground (arith, same)
  | inr later ↦ elim (Option-cases (find_boundary xs bound)) [
    | inl q ↦ absurd (ground arith)
    | inr (j, q) ↦
        let fits = find_boundary-within xs bound j q in
        let same = is_prefix-append bound (x ∷ xs) ys (omega (arith, fits)) in
        ground (arith, same, find_boundary-append xs bound ys j q)
  ]
]

pub take-append : (n : ℕ) (xs ys : Bytes) → n ≤ length xs → take n (xs ++ ys) ≡ take n xs
take-append zero xs ys h = refl
take-append (suc n) [] ys h = elim h [ ]
take-append (suc n) (x ∷ xs) ys h = ap (◌∷◌ x) (take-append n xs ys (omega arith))

pub drop-append : (n : ℕ) (xs ys : Bytes) → n ≤ length xs → drop n (xs ++ ys) ≡ drop n xs ++ ys
drop-append zero xs ys h = refl
drop-append (suc n) [] ys h = elim h [ ]
drop-append (suc n) (x ∷ xs) ys h = drop-append n xs ys (omega arith)

pub length-drop : (n : ℕ) (xs : Bytes) → length (drop n xs) ≡ length xs - n
length-drop zero xs = omega arith
length-drop (suc n) [] = omega arith
length-drop (suc n) (x ∷ xs) = omega (arith, length-drop n xs)

-- The next frame of a stream without carriage returns.
pub next_frame-lf : (xs : Bytes) → HasNoCr xs → next_frame xs ≡ lf_frame (find_boundary xs lf) xs
unfolding next_frame
next_frame-lf xs h = rw (find_boundary-crlf xs h, crlf_frame)
