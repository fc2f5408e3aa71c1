-- ===== src/Validator/Searches.antt =====
-- src/validator/syntax_validator.cpp: the loops over matches, and `validate` as a whole.
use mathlib.Core.List.{append-eq-nil_iff, cons≢nil}
use mathlib.Core.Option.{some-injective}
use aithon.Prelude.{
  ℕ, zero, suc, ◌+◌, ◌-◌, ◌*◌, ◌≤◌, ◌<◌, ◌≡◌, ◌↔◌, refl, ap, true, false, Option, none, some, List,
  [], ◌∷◌, ◌++◌, Bytes, length, drop, arith,
}
use aithon.Validator.{ValidationError, ValidationResult}
use aithon.Validator.Lexical.{braces, plain_comments}
use aithon.Validator.Balanced.{Balanced, check_unmatched_braces_iff}
use aithon.Validator.Braces.{check_unmatched_braces}
use aithon.Validator.Indentation.{check_indentation_blocks}
use aithon.Validator.Patterns.{
  Pattern, Reporter, append_found, both, search_loop, search_step, search_all, report_def,
  report_colon, report_missing, check_patterns, check_statements, terminators, statements,
  definition, check_def_keyword, check_colon_terminators, check_missing_braces,
}
use aithon.Validator.Validate.{is_nil, concluded, validate}

-- What `std::regex_search` does, as the loops rely on it: a match is not empty, and within the text.
abbrev pub Matches : (Pattern → Bytes → Option (ℕ × ℕ)) → Type 0
Matches regex_search =
    (p : Pattern) (text : Bytes) (position size : ℕ)
    → regex_search p text ≡ some (position, size)
    → (0 < size) × (position + size ≤ length text)

length-drop : (n : ℕ) (text : Bytes) → length (drop n text) ≡ length text - n
length-drop zero text = omega arith
length-drop (suc n) [] = omega arith
length-drop (suc n) (c ∷ cs) = omega (arith, length-drop n cs)

data Found : Option (List ValidationError) → Type 0 where
  found : (es : List ValidationError) → Found (some es)

append_found-Found :
    (es : List ValidationError) (o : Option (List ValidationError))
    → Found o
    → Found (append_found es o)
append_found-Found es _ (found rest) = found _

both-Found : (o r : Option (List ValidationError)) → Found o → Found r → Found (both o r)
both-Found _ r (found es) f = append_found-Found es r f

module _ (regex_search : Pattern → Bytes → Option (ℕ × ℕ)) (ok : Matches regex_search) where
  mutual
    unfolding search_loop

    search_loop-Found :
        (f : ℕ) (p : Pattern) (report : Reporter) (text : Bytes) (start : ℕ)
        → 2 * (length text - start) + 2 ≤ f
        → Found (search_loop regex_search f p report text start)
    search_loop-Found zero p report text start b = absurd (omega arith)
    search_loop-Found (suc f) p report text start b =
        search_step-Found f p report text start (regex_search p (drop start text)) refl
          (omega arith)

    search_step-Found :
        (f : ℕ) (p : Pattern) (report : Reporter) (text : Bytes) (start : ℕ) (o : Option (ℕ × ℕ))
        → regex_search p (drop start text) ≡ o
        → 2 * (length text - start) + 1 ≤ f
        → Found (search_step regex_search f p report text start o)
    search_step-Found zero p report text start o e b = absurd (omega arith)
    search_step-Found (suc f) p report text start none e b = found []
    search_step-Found (suc f) p report text start (some (position, size)) e b =
        let m = ok p (drop start text) position size e in
        append_found-Found _ _ (
          search_loop-Found f p report text (start + position + size)
            (omega (arith, m.0, m.1, length-drop start text)))

  search_all-Found :
      (p : Pattern) (report : Reporter) (text : Bytes)
      → Found (search_all regex_search p report text)
  search_all-Found p report text = search_loop-Found _ p report text 0 (omega arith)

  check_patterns-Found :
      (ps : List Pattern) (text : Bytes) → Found (check_patterns regex_search ps text)
  check_patterns-Found [] text = found []
  check_patterns-Found (p ∷ ps) text =
      both-Found _ _ (search_all-Found p (report_colon text) text) (check_patterns-Found ps text)

  check_statements-Found :
      (ps : List (Pattern × Bytes)) (text : Bytes) → Found (check_statements regex_search ps text)
  check_statements-Found [] text = found []
  check_statements-Found ((p, keyword) ∷ ps) text =
      both-Found _ _ (search_all-Found p (report_missing keyword text) text)
        (check_statements-Found ps text)

  check_def_keyword-Found : (text : Bytes) → Found (check_def_keyword regex_search text)
  unfolding check_def_keyword
  check_def_keyword-Found text = search_all-Found definition (report_def text) text

  check_colon_terminators-Found : (text : Bytes) → Found (check_colon_terminators regex_search text)
  unfolding check_colon_terminators
  check_colon_terminators-Found text = check_patterns-Found terminators text

  check_missing_braces-Found : (text : Bytes) → Found (check_missing_braces regex_search text)
  unfolding check_missing_braces
  check_missing_braces-Found text = check_statements-Found statements text

-- The four checks before the braces, by what they give, find nothing, and the braces are balanced.
pub record Clean (text : Bytes) (definitions terminators : Option (List ValidationError))
    (blocks : List ValidationError) (openings : Option (List ValidationError)) : Type 0 where
  pub no_definitions : definitions ≡ some []
  pub no_terminators : terminators ≡ some []
  pub no_blocks : blocks ≡ []
  pub no_openings : openings ≡ some []
  pub balanced : Balanced (braces text)

-- The result of `validate`: the text is valid and clean, or it is not and there are errors.
pub data Verdict (text : Bytes) (definitions terminators : Option (List ValidationError))
    (blocks : List ValidationError) (openings : Option (List ValidationError))
    : Option ValidationResult → Type 0 where
  accepted :
      Clean text definitions terminators blocks openings
      → Verdict text definitions terminators blocks openings
          (some (record { is_valid = true; errors = [] }))
  rejected :
      (e : ValidationError) (es : List ValidationError)
      → (Clean text definitions terminators blocks openings → ⊥)
      → Verdict text definitions terminators blocks openings
          (some (record { is_valid = false; errors = e ∷ es }))

by_errors :
    (text : Bytes) (d c : Option (List ValidationError)) (i : List ValidationError)
    (m : Option (List ValidationError)) (errors : List ValidationError)
    → (errors ≡ []) ↔ Clean text d c i m
    → Verdict text d c i m (some (record { is_valid = is_nil errors; errors = errors }))
by_errors text d c i m [] h = accepted (h.0 refl)
by_errors text d c i m (e ∷ es) h = rejected e es λ clean. cons≢nil (h.1 clean)

concluded-Verdict :
    (text : Bytes) (d c : Option (List ValidationError)) (i : List ValidationError)
    (m : Option (List ValidationError))
    → plain_comments text ≡ true
    → Found d
    → Found c
    → Found m
    → Verdict text d c i m (concluded text (both d (both c (append_found i m))))
concluded-Verdict text _ _ i _ plain (found d) (found c) (found m) =
    by_errors text (some d) (some c) i (some m) (check_unmatched_braces text (d ++ (c ++ (i ++ m))))
      (
        λ e.
            let braces_ok = (check_unmatched_braces_iff text _ plain).0 e in
            let first = append-eq-nil_iff.0 braces_ok.0 in
            let second = append-eq-nil_iff.0 first.1 in
            let third = append-eq-nil_iff.0 second.1 in
            record {
              no_definitions = ap some first.0;
              no_terminators = ap some second.0;
              no_blocks = third.0;
              no_openings = ap some third.1;
              balanced = braces_ok.1;
            },
        λ clean. (check_unmatched_braces_iff text _ plain).1 (
          append-eq-nil_iff.1 (
            some-injective _ _ clean.no_definitions,
            append-eq-nil_iff.1 (
              some-injective _ _ clean.no_terminators,
              append-eq-nil_iff.1 (clean.no_blocks, some-injective _ _ clean.no_openings),
            ),
          ),
          clean.balanced,
        ),
      )

-- Where the matches of `std::regex_search` are not empty and within the text, and no quote and no
-- backslash stands in a comment of the text, `validate` ends with a result: the text is valid, with no
-- errors, just when none of the checks by patterns and by indentation finds anything and the braces
-- outside of strings and comments are balanced, where a string reaches from a quote to the next one of
-- its kind, of those that no backslash escapes.
pub validate-Verdict :
    (regex_search : Pattern → Bytes → Option (ℕ × ℕ))
    → Matches regex_search
    → (text : Bytes) → plain_comments text ≡ true
    → Verdict text
        (check_def_keyword regex_search text)
        (check_colon_terminators regex_search text)
        (check_indentation_blocks text)
        (check_missing_braces regex_search text)
        (validate regex_search text)
unfolding validate
validate-Verdict regex_search ok text plain =
    concluded-Verdict text _ _ _ _ plain (check_def_keyword-Found regex_search ok text)
      (check_colon_terminators-Found regex_search ok text)
      (check_missing_braces-Found regex_search ok text)
