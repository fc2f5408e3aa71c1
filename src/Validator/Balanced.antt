-- ===== src/Validator/Balanced.antt =====
-- src/validator/syntax_validator.cpp, check_unmatched_braces: the texts on which it reports nothing.
use mathlib.Core.List.{reverse, append-eq-nil_iff, reverse-reverse, map-eq-nil_iff}
use aithon.Prelude.{
  ℕ, zero, suc, ◌≡◌, ◌↔◌, refl, sym, true, ap, subst, ◌∙◌, Option, none, some, List, [], ◌∷◌, ◌++◌,
  append_assoc, append-nil, Bytes, length, arith,
}
use aithon.Validator.{ValidationError}
use aithon.Validator.Lexical.{prepend, braces_from, braces, plain_comments, braces_from_lem}
use aithon.Validator.Braces.{
  Brace, opening, closing, brace_at, next_open, reported, brace_loop, unclosed,
  check_unmatched_braces,
}

-- Braces that match, by the grammar.
pub data Balanced : List Brace → Type 0 where
  empty : Balanced []
  block :
      (xs ys : List Brace) → Balanced xs → Balanced ys → Balanced (opening ∷ xs ++ (closing ∷ ys))

-- Braces that close all of so many open ones, and their own.
data Closes : ℕ → List Brace → Type 0 where
  done : Closes zero []
  opens : (n : ℕ) (bs : List Brace) → Closes (suc n) bs → Closes n (opening ∷ bs)
  closes : (n : ℕ) (bs : List Brace) → Closes n bs → Closes (suc n) (closing ∷ bs)

opens_inv : (n : ℕ) (bs : List Brace) → Closes n (opening ∷ bs) → Closes (suc n) bs
opens_inv n bs (opens _ _ c) = c

closes_inv : (n : ℕ) (bs : List Brace) → Closes (suc n) (closing ∷ bs) → Closes n bs
closes_inv n bs (closes _ _ c) = c

not_closes : (n : ℕ) (bs : List Brace) → n ≡ 0 → Closes n (closing ∷ bs) → ⊥
not_closes _ bs e (closes n _ c) = omega arith

Closes-append : (n : ℕ) (bs rest : List Brace) → Balanced bs → Closes n rest → Closes n (bs ++ rest)
Closes-append n _ rest empty c = c
Closes-append n _ rest (block xs ys bx by_) c =
    subst (Closes n) (ap (λ l. opening ∷ l) (sym (append_assoc xs (closing ∷ ys) rest))) (
      opens n _ (
        Closes-append (suc n) xs (closing ∷ ys ++ rest) bx
          (closes n _ (Closes-append n ys rest by_ c))))

-- Balanced pieces, with a closing brace between each two.
pub data Pieces : ℕ → List Brace → Type 0 where
  one : (bs : List Brace) → Balanced bs → Pieces zero bs
  more :
      (n : ℕ) (xs ys : List Brace)
      → Balanced xs
      → Pieces n ys
      → Pieces (suc n) (xs ++ (closing ∷ ys))

join : (n : ℕ) (bs : List Brace) → Pieces (suc n) bs → Pieces n (opening ∷ bs)
join n _ (more _ xs ys bx (one _ by_)) = one _ (block xs ys bx by_)
join n _ (more _ xs _ bx (more m ys zs by_ p)) =
    subst (Pieces (suc m)) (ap (λ l. opening ∷ l) (append_assoc xs (closing ∷ ys) (closing ∷ zs)))
      (more m (opening ∷ xs ++ (closing ∷ ys)) zs (block xs ys bx by_) p)

Closes-Pieces : (n : ℕ) (bs : List Brace) → Closes n bs → Pieces n bs
Closes-Pieces _ _ done = one [] empty
Closes-Pieces _ _ (opens n bs c) = join n bs (Closes-Pieces (suc n) bs c)
Closes-Pieces _ _ (closes n bs c) = more n [] bs empty (Closes-Pieces n bs c)

Pieces-Balanced : (n : ℕ) (bs : List Brace) → n ≡ 0 → Pieces n bs → Balanced bs
Pieces-Balanced _ _ e (one bs b) = b
Pieces-Balanced _ _ e (more n xs ys b p) = absurd (omega arith)

Closes_iff : (bs : List Brace) → Closes zero bs ↔ Balanced bs
Closes_iff bs = (
  λ c. Pieces-Balanced zero bs refl (Closes-Pieces zero bs c),
  λ b. subst (Closes zero) (append-nil bs) (Closes-append zero bs [] b done),
)

Closes_end : (n : ℕ) → Closes n [] → n ≡ 0
Closes_end _ done = refl

-- No brace is left open and nothing is reported.
abbrev Quiet : List ℕ × List ValidationError → Type 0
Quiet r = (r.0 ≡ []) × (r.1 ≡ [])

brace_loop_step :
    (text : Bytes) (o : Option Brace) (i : ℕ) (open_braces : List ℕ) (bs : List Brace)
    (rest : List ℕ → List ℕ × List ValidationError)
    → ((ps : List ℕ) → Quiet (rest ps) ↔ Closes (length ps) bs)
    → Quiet (
      (rest (next_open o i open_braces)).0,
      reported text o i open_braces ++ (rest (next_open o i open_braces)).1,
    )
      ↔ Closes (length open_braces) (prepend o bs)
brace_loop_step text none i ps bs rest h = h ps
brace_loop_step text (some opening) i ps bs rest h =
    (λ q. opens _ bs ((h (i ∷ ps)).0 q), λ c. (h (i ∷ ps)).1 (opens_inv _ bs c))
brace_loop_step text (some closing) i [] bs rest h =
    (λ q. absurd (ground (arith, q.1)), λ c. absurd (not_closes 0 bs refl c))
brace_loop_step text (some closing) i (p ∷ ps) bs rest h =
    (λ q. closes _ bs ((h ps).0 q), λ c. (h ps).1 (closes_inv _ bs c))

brace_loop_lem :
    (text : Bytes) (i : ℕ) (cs : Bytes) (ps : List ℕ)
    → Quiet (brace_loop text i cs ps) ↔ Closes (length ps) (braces_from text i cs)
unfolding brace_loop
brace_loop_lem text i [] [] = (λ q. done, λ c. (refl, refl))
brace_loop_lem text i [] (p ∷ ps) =
    (λ q. absurd (ground (arith, q.0)), λ c. absurd (omega (arith, Closes_end _ c)))
brace_loop_lem text i (c ∷ cs) ps =
    brace_loop_step text (brace_at text i c) i ps (braces_from text (suc i) cs)
      (brace_loop text (suc i) cs) (brace_loop_lem text (suc i) cs)

unclosed_iff : (text : Bytes) (ps : List ℕ) → (unclosed text ps ≡ []) ↔ (ps ≡ [])
unclosed_iff text ps =
    (λ e. sym (reverse-reverse ps) ∙ ap reverse ((map-eq-nil_iff _).0 e), λ e. rw e refl)

check_nothing :
    (text : Bytes) (errors : List ValidationError) (r : List ℕ × List ValidationError)
    → (errors ++ (r.1 ++ unclosed text r.0) ≡ []) ↔ ((errors ≡ []) × Quiet r)
check_nothing text errors r = (
  λ e.
      let outer = append-eq-nil_iff.0 e in
      let inner = append-eq-nil_iff.0 outer.1 in
      (outer.0, ((unclosed_iff text r.0).0 inner.1, inner.0)),
  λ h. append-eq-nil_iff.1 (h.0, append-eq-nil_iff.1 (h.1.1, (unclosed_iff text r.0).1 h.1.0)),
)

-- Where no quote and no backslash stands in a comment of the text, after check_unmatched_braces there are
-- no errors just when there were none before and the braces that stand outside of strings and comments
-- are balanced. Strings and comments are read off the text from its first byte on, by a scanner that does
-- not use the code's: a string reaches from a quote to the next one of its kind, of those that no backslash
-- escapes; three quotes in a row are an empty string and the start of one more.
pub check_unmatched_braces_iff :
    (text : Bytes) (errors : List ValidationError)
    → plain_comments text ≡ true
    → (check_unmatched_braces text errors ≡ []) ↔ ((errors ≡ []) × Balanced (braces text))
unfolding check_unmatched_braces
check_unmatched_braces_iff text errors plain =
    let r = brace_loop text 0 text [] in
    let loop = brace_loop_lem text 0 text [] in
    let nothing = check_nothing text errors r in
    let same = braces_from_lem text plain in
    (
      λ e. ((nothing.0 e).0, subst Balanced same ((Closes_iff _).0 (loop.0 (nothing.0 e).1))),
      λ h. nothing.1 (h.0, loop.1 ((Closes_iff _).1 (subst Balanced (sym same) h.1))),
    )
