-- ===== src/Lexer/Scan.antt =====
-- The body and the loop of `tokenize`.
use aithon.Prelude.{
  ℕ, zero, suc, ◌+◌, true, false, ◌&&◌, ◌||◌, Option, none, some, List, [], ◌∷◌, ◌++◌, Bytes, codes,
  length, ◌==◌, if◌then◌else◌,
}
use aithon.Token.{
  Token, TokenType, plus, minus, star, slash, percent, double_slash, double_star, equal,
  equal_equal, not_equal, less, less_equal, greater, greater_equal, lparen, rparen, lbrace, rbrace,
  lbracket, rbracket, comma, colon, dot, semicolon, newline, end_of_file,
}
use aithon.Lexer.Cursor.{
  Lexer, init, is_at_end, peek, peek_next, advance, current_location, is_digit, is_alpha,
  skip_whitespace, skip_comment,
}
use aithon.Lexer.Literals.{
  Outcome, done, out_of_range, ◌>>=◌, plain, make_number, make_string, make_identifier,
}

abbrev pub Spelling : Type 0
Spelling = TokenType × Bytes

unfoldable pub two_char_operator : ℕ → ℕ → Option Spelling
two_char_operator c n =
    if c == b'=' && n == b'='
    then some (equal_equal, codes "==")
    else if c == b'!' && n == b'='
    then some (not_equal, codes "!=")
    else if c == b'<' && n == b'='
    then some (less_equal, codes "<=")
    else if c == b'>' && n == b'='
    then some (greater_equal, codes ">=")
    else if c == b'/' && n == b'/'
    then some (double_slash, codes "//")
    else if c == b'*' && n == b'*'
    then some (double_star, codes "**")
    else none

abbrev pub single_chars : List (ℕ × TokenType)
single_chars =
    (b'+', plus)
    ∷ (b'-', minus)
    ∷ (b'*', star)
    ∷ (b'/', slash)
    ∷ (b'%', percent)
    ∷ (b'=', equal)
    ∷ (b'<', less)
    ∷ (b'>', greater)
    ∷ (b'(', lparen)
    ∷ (b')', rparen)
    ∷ (b'{', lbrace)
    ∷ (b'}', rbrace)
    ∷ (b'[', lbracket)
    ∷ (b']', rbracket)
    ∷ (b',', comma)
    ∷ (b':', colon)
    ∷ (b'.', dot)
    ∷ (b';', semicolon)
    ∷ []

-- The `switch` on one character.
unfoldable pub find_char : ℕ → List (ℕ × TokenType) → Option Spelling
find_char c [] = none
find_char c ((k, t) ∷ table) = if k == c then some (t, k ∷ []) else find_char c table

-- The `default` case reports the character and skips it.
unfoldable pub reject : Lexer → Lexer
reject l = record (advance l) { reports = l.reports ++ (current_location l, peek l) ∷ [] }

module _ {D : Type 0} where
  unfoldable pub make_newline : Lexer → Token D × Lexer
  make_newline l =
      let l' = advance l in
      (
        plain newline (codes "\\n") (current_location l),
        record l' { line = l.line + 1; column = 1; line_start = l'.current },
      )

  abbrev pub single : Lexer → Option Spelling → List (Token D) × Lexer
  single l none = ([], reject l)
  single l (some (t, lexeme)) = (plain t lexeme (current_location l) ∷ [], advance l)

  abbrev pub operator : Lexer → Option Spelling → List (Token D) × Lexer
  operator l none = single l (find_char (peek l) single_chars)
  operator l (some (t, lexeme)) = (plain t lexeme (current_location l) ∷ [], advance (advance l))

  unfoldable pub make_operator : Lexer → List (Token D) × Lexer
  unfolding two_char_operator find_char reject
  make_operator l = operator l (two_char_operator (peek l) (peek_next l))

  abbrev pub one : Token D × Lexer → List (Token D) × Lexer
  one (t, l) = (t ∷ [], l)

  abbrev pub eof : Lexer → Token D
  eof l = plain end_of_file [] (current_location l)

  module _ (stod : Bytes → Option D) where
    -- One round of the loop, from the first character after the blanks: the tokens it pushes and
    -- the state it leaves.
    unfoldable pub scan : Lexer → Outcome (List (Token D) × Lexer)
    unfolding skip_comment make_newline make_number make_string make_identifier make_operator
        is_alpha
    scan l =
        let c = peek l in
        if c == b'#'
        then done ([], skip_comment l)
        else if c == b'\n'
        then done (one (make_newline l))
        else if is_digit c
        then (do r ← make_number stod l; done (one r))
        else if c == b'"' || c == b'\''
        then done (one (make_string c (advance l)))
        else if is_alpha c || c == b'_'
        then done (one (make_identifier l))
        else done (make_operator l)

    -- The loop, on fuel, with the tokens so far; `none` means that the fuel ran out.
    unfoldable pub loop : ℕ → Lexer → List (Token D) → Outcome (Option (List (Token D) × Lexer))
    unfolding skip_whitespace scan
    loop zero l tokens = done none
    loop (suc fuel) l tokens =
        let l1 = skip_whitespace l in
        elim (is_at_end l1) [
          | true ↦ done (some (tokens ++ eof l1 ∷ [], l1))
          | false ↦ elim (scan l1) [
            | out_of_range ↦ out_of_range
            | done (ts, l2) ↦ loop fuel l2 (tokens ++ ts)
          ]
        ]

    -- A round consumes a byte, so that one round more than there are bytes is enough.
    unfoldable pub tokenize : Bytes → Outcome (Option (List (Token D) × Lexer))
    unfolding loop init
    tokenize source = loop (suc (length source)) (init source) []
