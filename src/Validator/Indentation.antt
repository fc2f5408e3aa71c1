-- ===== src/Validator/Indentation.antt =====
-- src/validator/syntax_validator.cpp, check_indentation_blocks.
use aithon.Prelude.{
  ℕ, suc, ◌+◌, Bool, true, false, not, ◌&&◌, ◌||◌, List, [], ◌∷◌, ◌++◌, Bytes, codes, ltb, ◌==◌,
  if◌then◌else◌,
}
use aithon.Validator.{indentation_not_allowed, ValidationError, newline}
use aithon.Validator.Patterns.{contains_byte}

abbrev with_byte : ℕ → List Bytes → List Bytes
with_byte c [] = (c ∷ []) ∷ []
with_byte c (line ∷ lines) = (c ∷ line) ∷ lines

-- What `std::getline` gives, one call after the other.
unfoldable pub get_lines : Bytes → List Bytes
get_lines [] = []
get_lines (c ∷ cs) = let rest = get_lines cs in if c == newline then [] ∷ rest else with_byte c rest

abbrev is_blank : ℕ → Bool
is_blank c = c == b' ' || c == b'\t'

unfoldable pub trim : Bytes → Bytes
trim [] = []
trim (c ∷ cs) = let rest = trim cs in if is_blank c then rest else c ∷ cs

unfoldable pub indent_of : Bytes → ℕ
indent_of [] = 0
indent_of (c ∷ cs) =
    let rest = indent_of cs in if c == b' ' then 1 + rest else if c == b'\t' then 4 + rest else 0

-- `text.find(start) == 0`
unfoldable pub starts_with : Bytes → Bytes → Bool
starts_with [] text = true
starts_with (b ∷ start) [] = false
starts_with (b ∷ start) (c ∷ text) = b == c && starts_with start text

abbrev starts_with_any : List Bytes → Bytes → Bool
starts_with_any [] text = false
starts_with_any (b ∷ bs) text = starts_with b text || starts_with_any bs text

abbrev block_starts : List Bytes
block_starts =
    codes "func "
    ∷ codes "if "
    ∷ codes "elif "
    ∷ codes "else"
    ∷ codes "while "
    ∷ codes "for "
    ∷ codes "try"
    ∷ codes "except"
    ∷ codes "finally"
    ∷ codes "with "
    ∷ []

abbrev is_ignored : Bytes → Bool
is_ignored [] = true
is_ignored (c ∷ cs) = c == b'#'

-- A line, by its number, that is deeper than the one before, with no brace, where a block is due.
abbrev indentation_error : ℕ → Bytes → ℕ → Bool → List ValidationError
indentation_error line_number line prev_indent expect_block =
    if expect_block && not (contains_byte b'{' line) && ltb prev_indent (indent_of line)
    then record {
      line_number = line_number;
      column = 0;
      error_type = indentation_not_allowed;
      code_snippet = line;
    }
      ∷ []
    else []

abbrev expects_block : Bytes → Bool
expects_block line = starts_with_any block_starts (trim line) && not (contains_byte b'{' line)

unfoldable pub indentation_loop : ℕ → List Bytes → ℕ → Bool → List ValidationError
unfolding trim indent_of starts_with contains_byte
indentation_loop line_number [] prev_indent expect_block = []
indentation_loop line_number (line ∷ lines) prev_indent expect_block =
    let ignored = is_ignored (trim line) in
    let found =
      if ignored then [] else indentation_error (suc line_number) line prev_indent expect_block in
    found
    ++ indentation_loop (suc line_number) lines (if ignored then prev_indent else indent_of line)
        (if ignored then expect_block else expects_block line)

unfoldable pub check_indentation_blocks : Bytes → List ValidationError
unfolding get_lines indentation_loop
check_indentation_blocks text = indentation_loop 0 (get_lines text) 0 false
