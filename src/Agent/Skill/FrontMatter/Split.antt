-- ===== src/Agent/Skill/FrontMatter/Split.antt =====
-- Splitting a file at the end of its front matter.
use Prim.Native.Char.{Char}
use Prim.Native.String.{len, ◌++◌ as append}
use Prim.Native.String.append
use auto_ai.Common.{
  min, ℕ, [], ◌∷◌, ◌+◌, some, true, false, refl, ◌∙◌, sym, ap, ◌≡◌, string_eq, String, List, Bool,
  ◌==◌, ◌&&◌, not, arith,
}
use text.Mathlib.Text.{get?}
use text.Mathlib.TextLemmas.{append-nil, append_assoc}
use text.Mathlib.TextPositions.{len-append, get?-append_middle}
use Prim.Native.String.len
use auto_ai.Common.{
  ◌++◌, append_assoc as list_assoc, length-append, ◌>>=◌, length, take, position, subst, ◌≤◌,
}
use auto_ai.Common.Format.{join}
use auto_ai.Agent.Skill.FrontMatter.{
  closes, sum_len, body_from, front_and_body, fields_of, parse_opened, parse_frontmatter,
  extract_field,
}
use auto_ai.Common.Text.{strip_prefix, trim_start, trim_end, keep_end}
use auto_ai.Common.Text.{lines, newline, is_newline, is_return, begins_line_end, onto_first}

-- A text that is one line of a file: without a line end, and not left with a carriage return.
abbrev pub one_line : String → Bool
one_line String.[] = true
one_line (String.◌∷◌ c s) = not (is_newline c) && not (is_return c && s == "") && one_line s

lines-onto_first :
    (c : Char) (s : String)
    → is_newline c ≡ false
    → (is_return c && begins_line_end s) ≡ false
    → lines (String.◌∷◌ c s) ≡ onto_first c (lines s)
unfolding lines
lines-onto_first c s no_end no_return = rw (no_end, no_return) refl

begins_line_end-later :
    (c : Char) (l s : String)
    → one_line (String.◌∷◌ c l) ≡ true
    → (is_return c && begins_line_end (append l (String.◌∷◌ newline s))) ≡ false
begins_line_end-later c String.[] s h =
    ap (λ t. is_return c && begins_line_end t) (append.nil (String.◌∷◌ newline s)) ∙ ground arith
begins_line_end-later c (String.◌∷◌ d l) s h =
    ap (λ t. is_return c && begins_line_end t) (append.cons d l (String.◌∷◌ newline s))
    ∙ ground arith

-- The first line of a text that begins with one line and its end.
pub lines-line :
    (l s : String) → one_line l ≡ true → lines (append l (String.◌∷◌ newline s)) ≡ l ∷ lines s
unfolding lines
lines-line String.[] s h = ap lines (append.nil (String.◌∷◌ newline s)) ∙ refl
lines-line (String.◌∷◌ c l) s h =
    ap lines (append.cons c l (String.◌∷◌ newline s))
    ∙ lines-onto_first c (append l (String.◌∷◌ newline s)) (ground arith)
        (begins_line_end-later c l s h)
    ∙ ap (onto_first c) (lines-line l s (ground arith))

-- Lines with their ends.
unfoldable pub unlines : List String → String
unlines [] = ""
unlines (l ∷ ls) = append l (String.◌∷◌ newline (unlines ls))

-- Lines of a front matter: none of them closes it.
abbrev pub front_lines : List String → Bool
front_lines [] = true
front_lines (l ∷ ls) = one_line l && not (closes l) && front_lines ls

lines-unlines :
    (ls : List String) (s : String)
    → front_lines ls ≡ true
    → lines (append (unlines ls) s) ≡ ls ++ lines s
unfolding unlines
lines-unlines [] s h = ap lines (append.nil s)
lines-unlines (l ∷ ls) s h =
    ap lines (
      append_assoc l (String.◌∷◌ newline (unlines ls)) s
      ∙ ap (append l) (append.cons newline (unlines ls) s))
    ∙ lines-line l (append (unlines ls) s) (ground arith)
    ∙ ap (◌∷◌ l) (lines-unlines ls s (ground arith))

position-closes :
    (ls more : List String)
    → front_lines ls ≡ true
    → position closes (ls ++ "---" ∷ more) ≡ some (length ls)
unfolding trim_end keep_end
position-closes [] more h = refl
position-closes (l ∷ ls) more h = rw (position-closes ls more (ground arith)) (ground arith)

take-length : {A : Type 0} (xs ys : List A) → take (length xs) (xs ++ ys) ≡ xs
take-length [] ys = refl
take-length (x ∷ xs) ys = ap (◌∷◌ x) (take-length xs ys)

sum_len-unlines : (ls : List String) → sum_len ls ≡ len (unlines ls)
unfolding unlines
sum_len-unlines [] = sym len.nil
sum_len-unlines (l ∷ ls) = omega (
  arith,
  sum_len-unlines ls,
  len-append l (String.◌∷◌ newline (unlines ls)),
  len.cons newline (unlines ls),
)

sum_len-append : (ls ms : List String) → sum_len (ls ++ ms) ≡ sum_len ls + sum_len ms
sum_len-append [] ms = omega arith
sum_len-append (l ∷ ls) ms = omega (arith, sum_len-append ls ms)

take-length_one :
    {A : Type 0} (xs : List A) (y : A) (ys : List A)
    → take (length xs + 1) (xs ++ y ∷ ys) ≡ xs ++ y ∷ []
take-length_one xs y ys =
    subst (λ n. take n (xs ++ y ∷ ys) ≡ xs ++ y ∷ []) (length-append xs (y ∷ []))
      (ap (take (length (xs ++ y ∷ []))) (sym (list_assoc xs (y ∷ []) ys))
        ∙ take-length (xs ++ y ∷ []) ys)

closing : (body : String) → append "---\n" body ≡ append "---" (String.◌∷◌ newline body)
closing body =
    append_assoc "---" "\n" body
    ∙ ap (append "---") (append.cons newline "" body ∙ ap (String.◌∷◌ newline) (append.nil body))

min-le : (a b : ℕ) → a ≤ b → min a b ≡ a
min-le a b h = ground arith

-- A text of front matter, closed, and of a body.
abbrev pub written : List String → String → String
written ls body = append (append (unlines ls) "---\n") body

lines-written :
    (ls : List String) (body : String)
    → front_lines ls ≡ true
    → lines (written ls body) ≡ ls ++ "---" ∷ lines body
lines-written ls body h =
    ap lines (append_assoc (unlines ls) "---\n" body ∙ ap (append (unlines ls)) (closing body))
    ∙ lines-unlines ls (append "---" (String.◌∷◌ newline body)) h
    ∙ ap (λ more. ls ++ more) (lines-line "---" body refl)

get?-body : (s body : String) → get? (append s body) (len s) (len (append s body)) ≡ some body
get?-body s body =
    ap (λ t. get? t (len s) (len t)) (ap (append s) (sym (append-nil body)))
    ∙ ap (get? (append s (append body "")) (len s))
        (ap (λ t. len (append s t)) (append-nil body) ∙ len-append s body)
    ∙ get?-append_middle s body ""

body_start :
    (ls : List String) (body : String)
    → front_lines ls ≡ true
    → min (sum_len (take (length ls + 1) (lines (written ls body)))) (len (written ls body))
      ≡ len (append (unlines ls) "---\n")
body_start ls body h =
    ap (λ all. min (sum_len (take (length ls + 1) all)) (len (written ls body)))
      (lines-written ls body h)
    ∙ ap (λ front. min (sum_len front) (len (written ls body)))
        (take-length_one ls "---" (lines body))
    ∙ ap (λ n. min n (len (written ls body))) front
    ∙ min-le (len (append (unlines ls) "---\n")) (len (written ls body)) shorter
  where
    front : sum_len (ls ++ "---" ∷ []) ≡ len (append (unlines ls) "---\n")
    front =
        omega (
          arith,
          sum_len-append ls ("---" ∷ []),
          sum_len-unlines ls,
          len-append (unlines ls) "---\n",
        )

    shorter : len (append (unlines ls) "---\n") ≤ len (written ls body)
    shorter = omega (arith, len-append (append (unlines ls) "---\n") body)

body_from-written :
    (ls : List String) (body : String)
    → front_lines ls ≡ true
    → body_from (written ls body) (length ls) ≡ some (trim_start body)
unfolding body_from
body_from-written ls body h =
    ap (λ n. get? (written ls body) n (len (written ls body)) >>= λ b. some (trim_start b))
      (body_start ls body h)
    ∙ ap (λ o. o >>= λ b. some (trim_start b)) (get?-body (append (unlines ls) "---\n") body)

parse_opened-written :
    (ls : List String) (body : String)
    → front_lines ls ≡ true
    → parse_opened (written ls body) ≡ fields_of (join "\n" ls, trim_start body)
unfolding parse_opened
parse_opened-written ls body h =
    ap (λ o. front_and_body (written ls body) o >>= fields_of)
      (ap (position closes) (lines-written ls body h) ∙ position-closes ls (lines body) h)
    ∙ ap
        (λ o.
          (o >>= λ b. some (join "\n" (take (length ls) (lines (written ls body))), b))
          >>= fields_of)
        (body_from-written ls body h)
    ∙ ap (λ all. fields_of (join "\n" (take (length ls) all), trim_start body))
        (lines-written ls body h)
    ∙ ap (λ front. fields_of (join "\n" front, trim_start body))
        (take-length ls ("---" ∷ lines body))

abbrev dash : Char
dash = "-"

abbrev opened : String → String
opened text = String.◌∷◌ dash (String.◌∷◌ dash (String.◌∷◌ dash (String.◌∷◌ newline text)))

append-opened : (text : String) → append "---\n" text ≡ opened text
append-opened text =
    append.cons dash "--\n" text
    ∙ ap (String.◌∷◌ dash) (append.cons dash "-\n" text)
    ∙ ap (λ t. String.◌∷◌ dash (String.◌∷◌ dash t)) (append.cons dash "\n" text)
    ∙ ap (λ t. String.◌∷◌ dash (String.◌∷◌ dash (String.◌∷◌ dash t))) (append.cons newline "" text)
    ∙ ap opened (append.nil text)

parse_frontmatter-opened : (text : String) → parse_frontmatter (opened text) ≡ parse_opened text
unfolding parse_frontmatter strip_prefix
parse_frontmatter-opened text = refl

-- A file that opens with "---", has lines that do not close it, and then "---" and a body, has the
-- fields of exactly these lines, and exactly that body, without the white space at its start.
pub parse_frontmatter-written :
    (ls : List String) (body : String)
    → front_lines ls ≡ true
    → parse_frontmatter (append "---\n" (written ls body)) ≡ (do
      name ← extract_field (join "\n" ls) "name"
      description ← extract_field (join "\n" ls) "description"
      some (name, description, trim_start body))
parse_frontmatter-written ls body h =
    ap parse_frontmatter (append-opened (written ls body))
    ∙ parse_frontmatter-opened (written ls body)
    ∙ parse_opened-written ls body h
