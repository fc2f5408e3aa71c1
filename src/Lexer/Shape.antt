-- ===== src/Lexer/Shape.antt =====
-- The list of tokens: END_OF_FILE in it. The parser reads `tokens_[current_]` unchecked, up to there.
use aithon.Prelude.{
  ℕ, suc, ◌||◌, ◌&&◌, ◌≡◌, ◌≢◌, inl, inr, Option, some, List, [], ◌∷◌, ◌++◌, Bytes, bytes_eq, subst,
  arith, drop, Bool-cases, Option-cases, ◌==◌, All, All-append, length,
}
use aithon.Token.{Token, TokenType, end_of_file}
use aithon.Lexer.Cursor.{
  Lexer, first, init, peek, peek_next, advance, is_digit, is_alpha, is_ident, advance_while,
}
use aithon.Lexer.Literals.{
  Outcome, done, out_of_range, ◌>>=◌, keywords, find_keyword, word_type, make_identifier,
  make_float, make_number, make_string, stoll,
}
use aithon.Lexer.Scan.{
  scan, tokenize, eof, one, two_char_operator, find_char, single_chars, make_operator, make_newline,
}
use aithon.Lexer.Loop.{loop_inv, Outcome-cases}

find_keyword-All :
    (P : TokenType → Type 0) (word : Bytes) (table : List (Bytes × TokenType))
    → All (λ (k : Bytes × TokenType). P k.1) table
    → (t : TokenType) → find_keyword word table ≡ some t
    → P t
unfolding find_keyword
find_keyword-All P word [] h t e = absurd (cc)
find_keyword-All P word ((k, u) ∷ table) h t e = elim (Bool-cases (bytes_eq k word)) [
  | inl hit ↦ let same : u ≡ t = ground (arith, hit) in subst P same h.0
  | inr miss ↦ find_keyword-All P word table h.1 t (ground (arith, miss))
]

find_char-All :
    (P : TokenType → Type 0) (c : ℕ) (table : List (ℕ × TokenType))
    → All (λ (k : ℕ × TokenType). P k.1) table
    → (t : TokenType) (lexeme : Bytes) → find_char c table ≡ some (t, lexeme)
    → P t
unfolding find_char
find_char-All P c [] h t lexeme e = absurd (cc)
find_char-All P c ((k, u) ∷ table) h t lexeme e = elim (Bool-cases (k == c)) [
  | inl hit ↦ let same : u ≡ t = ground (arith, hit) in subst P same h.0
  | inr miss ↦ find_char-All P c table h.1 t lexeme (ground (arith, miss))
]

abbrev pub NotEnd : TokenType → Type 0
NotEnd t = t ≢ end_of_file

word_type-NotEnd : (word : Bytes) → NotEnd (word_type word)
unfolding word_type
word_type-NotEnd word = elim (Option-cases (find_keyword word keywords)) [
  | inl missing ↦ rw (missing, word_type) (λ h. cc)
  | inr (t, found) ↦
      rw (found, word_type) (find_keyword-All NotEnd word keywords (ground arith) t found)
]

two_char_operator-NotEnd :
    (c n : ℕ) (t : TokenType) (lexeme : Bytes) → two_char_operator c n ≡ some (t, lexeme) → NotEnd t
unfolding two_char_operator
two_char_operator-NotEnd c n t lexeme e = ground arith

-- What one round pushes.
abbrev Pushes : {D : Type 0} → Outcome (List (Token D) × Lexer) → Type 0
Pushes (done r) = All (λ t. NotEnd t.type) r.0
Pushes out_of_range = Unit

module _ (D : Type 0) where
  make_operator-Pushes : (l : Lexer) → Pushes {D = D} (done (make_operator l))
  unfolding make_operator
  make_operator-Pushes l = elim (Option-cases (two_char_operator (peek l) (peek_next l))) [
    | inl missing ↦ rw missing (elim (Option-cases (find_char (peek l) single_chars)) [
      | inl unknown ↦ rw unknown tt
      | inr ((t, lexeme), found) ↦
          rw found (find_char-All NotEnd (peek l) single_chars (ground arith) t lexeme found, tt)
    ])
    | inr ((t, lexeme), found) ↦
        rw found (two_char_operator-NotEnd (peek l) (peek_next l) t lexeme found, tt)
  ]

  make_identifier-Pushes : (l : Lexer) → Pushes {D = D} (done (one (make_identifier l)))
  unfolding make_identifier
  make_identifier-Pushes l = (word_type-NotEnd (advance_while is_ident l.rest [] l).0, tt)

  module _ (stod : Bytes → Option D) where
    make_number-Pushes : (l : Lexer) → Pushes {D = D} (make_number stod l >>= λ r. done (one r))
    unfolding make_number
    make_number-Pushes l =
        elim (Bool-cases (first l1.rest == b'.' && is_digit (first (drop 1 l1.rest)))) [
          | inl hit ↦ elim (Option-cases (stod fraction)) [
            | inl large ↦ rw hit (rw (large, make_float) tt)
            | inr (d, read) ↦ rw hit (rw (read, make_float) ((λ e. cc), tt))
          ]
          | inr miss ↦ elim (Outcome-cases (stoll (advance_while is_digit l.rest [] l).0)) [
            | inl large ↦ rw (miss, large) tt
            | inr (n, read) ↦ rw (miss, read) ((λ e. cc), tt)
          ]
        ]
      where
        l1 : Lexer
        l1 = (advance_while is_digit l.rest [] l).1

        fraction : Bytes
        fraction =
            (advance_while is_digit (advance l1).rest
              ((advance_while is_digit l.rest [] l).0 ++ b'.' ∷ []) (advance l1)).0

    scan-Pushes : (l : Lexer) → Pushes {D = D} (scan stod l)
    unfolding scan make_newline make_string
    scan-Pushes l = elim (Bool-cases (peek l == b'#')) [
      | inl hit ↦ rw hit tt
      | inr no_comment ↦ elim (Bool-cases (peek l == b'\n')) [
        | inl hit ↦ rw (no_comment, hit) ((λ e. cc), tt)
        | inr no_newline ↦ elim (Bool-cases (is_digit (peek l))) [
          | inl hit ↦ rw (no_comment, no_newline, hit) (make_number-Pushes l)
          | inr no_digit ↦ elim (Bool-cases (peek l == b'"' || peek l == b'\'')) [
            | inl hit ↦ rw (no_comment, no_newline, no_digit, hit) ((λ e. cc), tt)
            | inr no_quote ↦ elim (Bool-cases (is_alpha (peek l) || peek l == b'_')) [
              | inl hit ↦
                  rw (no_comment, no_newline, no_digit, no_quote, hit) (make_identifier-Pushes l)
              | inr no_name ↦
                  rw (no_comment, no_newline, no_digit, no_quote, no_name) (make_operator-Pushes l)
            ]
          ]
        ]
      ]
    ]

-- The tokens end with one END_OF_FILE, at the place where the text ends, and no other token is one.
pub tokenize_shape :
    (D : Type 0) (stod : Bytes → Option D) (source : Bytes) (tokens : List (Token D)) (l : Lexer)
    → tokenize stod source ≡ done (some (tokens, l))
    → (us : List (Token D)) × (tokens ≡ us ++ eof l ∷ [])
      × All (λ t. NotEnd t.type) us
      × (l.rest ≡ [])
unfolding tokenize
tokenize_shape D stod source tokens l e =
    let (us, h, all, end) =
      loop_inv stod (λ l ts. All (λ t. NotEnd t.type) ts) (λ l ts h. h)
        (λ l ts c r us l' e s h.
          All-append (λ t. NotEnd t.type) ts us h (rw s at (scan-Pushes D stod l)))
        (suc (length source)) (init source) [] tokens l tt e in
    (us, all, h, end)
