-- ===== src/Lexer/Cursor.antt =====
-- The lexer's state and the helpers that move it. `source_` and `current_` are held as the
-- position and the bytes from there on.
use aithon.Prelude.{
  ℕ, ◌+◌, Bool, true, false, ◌&&◌, ◌||◌, List, [], ◌∷◌, ◌++◌, Bytes, drop, leb, ◌==◌, if◌then◌else◌,
}
use aithon.Token.{SourceLocation}

pub record Lexer : Type 0 where
  pub rest : Bytes
  pub current : ℕ
  pub line : ℕ
  pub column : ℕ
  pub line_start : ℕ
  -- what was handed to `error_reporter_.lexer_error`: the place and the character
  pub reports : List (SourceLocation × ℕ)

unfoldable pub init : Bytes → Lexer
init source = record {
  rest = source;
  current = 0;
  line = 1;
  column = 1;
  line_start = 0;
  reports = [];
}

-- Past the end `peek` answers '\0'.
abbrev pub first : Bytes → ℕ
first [] = 0
first (c ∷ r) = c

abbrev pub peek : Lexer → ℕ
peek l = first l.rest

abbrev pub peek_next : Lexer → ℕ
peek_next l = first (drop 1 l.rest)

abbrev pub is_empty : Bytes → Bool
is_empty [] = true
is_empty (c ∷ r) = false

abbrev pub is_at_end : Lexer → Bool
is_at_end l = is_empty l.rest

abbrev pub advance : Lexer → Lexer
advance l = record l { rest = drop 1 l.rest; current = l.current + 1; column = l.column + 1 }

abbrev pub current_location : Lexer → SourceLocation
current_location l = record { line = l.line; column = l.column; offset = l.line_start }

-- <cctype> in the "C" locale.
abbrev pub within : ℕ → ℕ → ℕ → Bool
within lo hi c = leb lo c && leb c hi

unfoldable pub is_digit : ℕ → Bool
is_digit c = within b'0' b'9' c

unfoldable pub is_alpha : ℕ → Bool
is_alpha c = within b'a' b'z' c || within b'A' b'Z' c

-- `std::isalnum(c) || c == '_'`
unfoldable pub is_ident : ℕ → Bool
unfolding is_alpha is_digit
is_ident c = is_alpha c || is_digit c || c == b'_'

unfoldable pub is_blank : ℕ → Bool
is_blank c = c == b' ' || c == b'\t' || c == b'\r'

unfoldable pub is_not_newline : ℕ → Bool
is_not_newline c = if c == b'\n' then false else true

-- `while (!is_at_end() && test(peek())) out += advance();` from the bytes `r` of the state on.
unfoldable pub advance_while : (ℕ → Bool) → Bytes → Bytes → Lexer → Bytes × Lexer
advance_while test [] out l = (out, l)
advance_while test (c ∷ r) out l = elim (test c) [
  | true ↦ advance_while test r (out ++ c ∷ []) (advance l)
  | false ↦ (out, l)
]

unfoldable pub skip_whitespace : Lexer → Lexer
unfolding advance_while is_blank
skip_whitespace l = (advance_while is_blank l.rest [] l).1

unfoldable pub skip_comment : Lexer → Lexer
unfolding advance_while is_not_newline
skip_comment l = (advance_while is_not_newline l.rest [] l).1
