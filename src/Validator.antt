-- ===== src/Validator.antt =====
-- src/validator/syntax_validator.cpp: the positions in a text that the checks go by. A position is an
-- index into the text; a byte behind the end is 0.
pub mod Braces
pub mod Lexical
pub mod Balanced
pub mod Patterns
pub mod Indentation
pub mod Validate
pub mod Searches
mod Tests
use aithon.Prelude.{
  ℕ, zero, suc, ◌+◌, ◌-◌, Bool, true, false, not, ◌&&◌, ◌||◌, Option, none, some, List, [], ◌∷◌,
  Bytes, codes, ltb, ◌==◌, length, get_elem?, drop, take, if◌then◌else◌,
}

pub data ErrorType : Type 0 where
  invalid_keyword invalid_terminator indentation_not_allowed unmatched_brace unclosed_brace :
      ErrorType
  missing_brace : Bytes → ErrorType

-- The message and the suggestion follow from the type.
pub record ValidationError : Type 0 where
  pub line_number : ℕ
  pub column : ℕ
  pub error_type : ErrorType
  pub code_snippet : Bytes

pub record ValidationResult : Type 0 where
  pub is_valid : Bool
  pub errors : List ValidationError

abbrev pub or_zero : Option ℕ → ℕ
or_zero none = 0
or_zero (some c) = c

abbrev pub byte_at : Bytes → ℕ → ℕ
byte_at text i = or_zero (get_elem? text i)

-- `'\n'`
abbrev pub newline : ℕ
newline = 10

abbrev newlines : Bytes → ℕ
newlines [] = 0
newlines (c ∷ cs) = (if c == newline then 1 else 0) + newlines cs

unfoldable pub get_line_number : Bytes → ℕ → ℕ
get_line_number text pos = 1 + newlines (take pos text)

abbrev column_loop : Bytes → ℕ → ℕ
column_loop text zero = 0
column_loop text (suc i) =
    let before = column_loop text i in
    if ltb (suc i) (length text) && not (byte_at text i == newline) then suc before else 0

unfoldable pub get_column_number : Bytes → ℕ → ℕ
get_column_number text pos = 1 + column_loop text pos

-- Where the line of a position starts.
unfoldable pub line_start : Bytes → ℕ → ℕ
line_start text zero = zero
line_start text (suc p) =
    let earlier = line_start text p in if byte_at text p == newline then suc p else earlier

abbrev line_length : Bytes → ℕ
line_length [] = 0
line_length (c ∷ cs) = let rest = line_length cs in if c == newline then 0 else suc rest

unfoldable pub get_code_snippet : Bytes → ℕ → Bytes
unfolding line_start
get_code_snippet text pos =
    take (pos + line_length (drop pos text) - line_start text pos) (drop (line_start text pos) text)

pub record Quotes : Type 0 where
  pub in_single : Bool
  pub in_double : Bool
  pub escaped : Bool

abbrev pub read_byte : ℕ → Quotes → Quotes
read_byte c q =
    if q.escaped
    then record q { escaped = false }
    else if c == b'\\'
    then record q { escaped = true }
    else if c == b'\'' && not q.in_double
    then record q { in_single = not q.in_single }
    else if c == b'"' && not q.in_single
    then record q { in_double = not q.in_double }
    else q

abbrev pub read_bytes : Bytes → Quotes → Quotes
read_bytes [] q = q
read_bytes (c ∷ cs) q = read_bytes cs (read_byte c q)

abbrev pub inside : Quotes → Bool
inside q = q.in_single || q.in_double

unfoldable pub is_inside_string : Bytes → ℕ → Bool
is_inside_string text pos =
    inside (
      read_bytes (take pos text) (record { in_single = false; in_double = false; escaped = false }))

-- From a position on, so many bytes.
abbrev pub comment_loop : Bytes → ℕ → ℕ → Bool
comment_loop text i zero = false
comment_loop text i (suc n) =
    byte_at text i == b'#' && not (is_inside_string text i) || comment_loop text (suc i) n

unfoldable pub is_inside_comment : Bytes → ℕ → Bool
unfolding is_inside_string line_start
is_inside_comment text pos = comment_loop text (line_start text pos) (pos - line_start text pos)

abbrev pub skipped : Bytes → ℕ → Bool
skipped text pos = is_inside_string text pos || is_inside_comment text pos

abbrev pub error_at : ErrorType → Bytes → ℕ → ValidationError
error_at type text pos = record {
  line_number = get_line_number text pos;
  column = get_column_number text pos;
  error_type = type;
  code_snippet = get_code_snippet text pos;
}
