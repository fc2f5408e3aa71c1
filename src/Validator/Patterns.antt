-- ===== src/Validator/Patterns.antt =====
-- src/validator/syntax_validator.cpp, the checks by regular expressions. `std::regex_search` is a
-- parameter: from a pattern and the text to be searched, the position and the length of a match. Its
-- loops recur on fuel; `none` is that it has run out.
use aithon.Prelude.{
  ℕ, zero, suc, ◌+◌, Bool, false, not, ◌&&◌, ◌||◌, Option, none, some, List, [], ◌∷◌, ◌++◌, Bytes,
  codes, ◌==◌, length, drop, take, if◌then◌else◌,
}
use aithon.Validator.{
  invalid_keyword, invalid_terminator, missing_brace, ValidationError, skipped, error_at,
  is_inside_string, is_inside_comment,
}

pub data Keyword : Type 0 where
  func if_ elif else_ while for try except finally with_ : Keyword

-- The pattern of check_def_keyword, those of check_colon_terminators and those of check_missing_braces.
pub data Pattern : Type 0 where
  definition : Pattern
  terminated unopened : Keyword → Pattern

abbrev pub terminators : List Pattern
terminators =
    terminated func
    ∷ terminated if_
    ∷ terminated elif
    ∷ terminated else_
    ∷ terminated while
    ∷ terminated for
    ∷ terminated try
    ∷ terminated except
    ∷ terminated finally
    ∷ terminated with_
    ∷ []

abbrev pub statements : List (Pattern × Bytes)
statements =
    (unopened func, codes "func")
    ∷ (unopened if_, codes "if")
    ∷ (unopened elif, codes "elif")
    ∷ (unopened else_, codes "else")
    ∷ (unopened while, codes "while")
    ∷ (unopened for, codes "for")
    ∷ []

-- The position of the last colon.
unfoldable pub last_colon : Bytes → Option ℕ
last_colon [] = none
last_colon (c ∷ cs) = elim (last_colon cs) [
  | some i ↦ some (suc i)
  | none ↦ if c == b':' then some 0 else none
]

unfoldable pub contains_byte : ℕ → Bytes → Bool
contains_byte b [] = false
contains_byte b (c ∷ cs) = c == b || contains_byte b cs

abbrev pub append_found :
    List ValidationError → Option (List ValidationError) → Option (List ValidationError)
append_found es none = none
append_found es (some rest) = some (es ++ rest)

-- One search after the other.
abbrev pub both :
    Option (List ValidationError) → Option (List ValidationError) → Option (List ValidationError)
both none found = none
both (some es) found = append_found es found

abbrev matched : Bytes → ℕ → ℕ → Bytes
matched text pos size = take size (drop pos text)

-- What is reported of a match, by its position and length.
abbrev pub Reporter : Type 0
Reporter = ℕ → ℕ → List ValidationError

unfoldable pub unless_skipped : Bytes → ℕ → List ValidationError → List ValidationError
unfolding is_inside_string is_inside_comment
unless_skipped text pos es = if skipped text pos then [] else es

abbrev pub report_def : Bytes → Reporter
report_def text pos size = unless_skipped text pos (error_at invalid_keyword text pos ∷ [])

abbrev at_colon : Bytes → ℕ → Option ℕ → List ValidationError
at_colon text pos none = []
at_colon text pos (some i) = error_at invalid_terminator text (pos + i) ∷ []

abbrev pub report_colon : Bytes → Reporter
report_colon text pos size =
    unless_skipped text pos (at_colon text pos (last_colon (matched text pos size)))

abbrev pub report_missing : Bytes → Bytes → Reporter
report_missing keyword text pos size = unless_skipped text pos (
    if not (contains_byte b'{' (matched text pos size))
      && not (contains_byte b':' (matched text pos size))
    then error_at (missing_brace keyword) text pos ∷ []
    else [])

module _ (regex_search : Pattern → Bytes → Option (ℕ × ℕ)) where
  unfoldable mutual
    -- `start` is `search_start`.
    pub search_loop : ℕ → Pattern → Reporter → Bytes → ℕ → Option (List ValidationError)
    search_loop zero p report text start = none
    search_loop (suc f) p report text start =
        search_step f p report text start (regex_search p (drop start text))

    pub search_step :
        ℕ → Pattern → Reporter → Bytes → ℕ → Option (ℕ × ℕ) → Option (List ValidationError)
    search_step zero p report text start o = none
    search_step (suc f) p report text start none = some []
    search_step (suc f) p report text start (some (position, size)) =
        append_found (report (start + position) size)
          (search_loop f p report text (start + position + size))

  -- Two units for each match, none of which is empty.
  abbrev pub search_all : Pattern → Reporter → Bytes → Option (List ValidationError)
  search_all p report text = search_loop (2 + length text + length text) p report text 0

  unfoldable pub check_def_keyword : Bytes → Option (List ValidationError)
  unfolding search_loop
  check_def_keyword text = search_all definition (report_def text) text

  abbrev pub check_patterns : List Pattern → Bytes → Option (List ValidationError)
  check_patterns [] text = some []
  check_patterns (p ∷ ps) text =
      both (search_all p (report_colon text) text) (check_patterns ps text)

  unfoldable pub check_colon_terminators : Bytes → Option (List ValidationError)
  unfolding search_loop
  check_colon_terminators text = check_patterns terminators text

  abbrev pub check_statements : List (Pattern × Bytes) → Bytes → Option (List ValidationError)
  check_statements [] text = some []
  check_statements ((p, keyword) ∷ ps) text =
      both (search_all p (report_missing keyword text) text) (check_statements ps text)

  unfoldable pub check_missing_braces : Bytes → Option (List ValidationError)
  unfolding search_loop
  check_missing_braces text = check_statements statements text
