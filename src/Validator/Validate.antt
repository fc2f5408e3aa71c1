-- ===== src/Validator/Validate.antt =====
-- src/validator/syntax_validator.cpp, `validate`.
use aithon.Prelude.{ℕ, Bool, true, false, Option, none, some, List, [], ◌∷◌, Bytes}
use aithon.Validator.{ValidationError, ValidationResult}
use aithon.Validator.Braces.{check_unmatched_braces}
use aithon.Validator.Indentation.{check_indentation_blocks}
use aithon.Validator.Patterns.{
  Pattern, both, append_found, check_def_keyword, check_colon_terminators, check_missing_braces,
}

abbrev pub is_nil : List ValidationError → Bool
is_nil [] = true
is_nil (e ∷ es) = false

abbrev pub concluded : Bytes → Option (List ValidationError) → Option ValidationResult
concluded text none = none
concluded text (some found) =
    let errors = check_unmatched_braces text found in
    some (record { is_valid = is_nil errors; errors = errors })

unfoldable pub validate : (Pattern → Bytes → Option (ℕ × ℕ)) → Bytes → Option ValidationResult
unfolding check_def_keyword check_colon_terminators check_missing_braces check_indentation_blocks
    check_unmatched_braces
validate regex_search text = concluded text (
    both (check_def_keyword regex_search text) (
      both (check_colon_terminators regex_search text)
        (append_found (check_indentation_blocks text) (check_missing_braces regex_search text))))
