-- ===== src/Lexer/Literals.antt =====
-- `make_number`, `make_string` and `make_identifier`.
use aithon.Prelude.{
  ℕ, ◌+◌, ◌-◌, ◌*◌, ◌^◌, Bool, true, false, ◌&&◌, ◌||◌, not, Option, none, some, List, [], ◌∷◌,
  ◌++◌, Bytes, codes, bytes_eq, drop, ltb, ◌==◌, if◌then◌else◌,
}
use aithon.Token.{
  Token, TokenType, integer, float, string, true_, false_, none_, identifier, func, struct, class,
  if_, elif, else_, while, for, in_, return, break, continue, and, or, not as not_, long_long,
  double, text, SourceLocation,
}
use aithon.Lexer.Cursor.{
  Lexer, first, peek, peek_next, advance, current_location, is_digit, is_ident, advance_while,
}

-- A step that may end in an uncaught `std::out_of_range`.
pub data Outcome {ℓ} (A : Type ℓ) : Type ℓ where
  done : A → Outcome A
  out_of_range : Outcome A

infixl 5 ◌>>=◌
abbrev pub ◌>>=◌ {ℓ κ} : {A : Type ℓ} {B : Type κ} → Outcome A → (A → Outcome B) → Outcome B
done a >>= f = f a
out_of_range >>= f = out_of_range

abbrev pub keywords : List (Bytes × TokenType)
keywords =
    (codes "func", func)
    ∷ (codes "struct", struct)
    ∷ (codes "class", class)
    ∷ (codes "if", if_)
    ∷ (codes "elif", elif)
    ∷ (codes "else", else_)
    ∷ (codes "while", while)
    ∷ (codes "for", for)
    ∷ (codes "in", in_)
    ∷ (codes "return", return)
    ∷ (codes "break", break)
    ∷ (codes "continue", continue)
    ∷ (codes "and", and)
    ∷ (codes "or", or)
    ∷ (codes "not", not_)
    ∷ (codes "True", true_)
    ∷ (codes "False", false_)
    ∷ (codes "None", none_)
    ∷ []

unfoldable pub find_keyword : Bytes → List (Bytes × TokenType) → Option TokenType
unfolding bytes_eq
find_keyword word [] = none
find_keyword word ((k, t) ∷ table) = if bytes_eq k word then some t else find_keyword word table

unfoldable pub word_type : Bytes → TokenType
unfolding find_keyword
word_type word = elim (find_keyword word keywords) [ some t ↦ t | none ↦ identifier ]

-- `std::stoll` on a run of digits.
abbrev pub max_long_long : ℕ
max_long_long = 2 ^ 63 - 1

unfoldable pub decimal : ℕ → Bytes → ℕ
decimal acc [] = acc
decimal acc (c ∷ r) = decimal (acc * 10 + (c - b'0')) r

unfoldable pub stoll : Bytes → Outcome ℕ
unfolding decimal
stoll digits =
    if ltb max_long_long (decimal 0 digits) then out_of_range else done (decimal 0 digits)

-- The character that an escape stands for.
unfoldable pub unescape : ℕ → ℕ
unescape c =
    if c == b'n' then b'\n' else if c == b't' then b'\t' else if c == b'r' then b'\r' else c

-- The closing quote, or all three of them, stands at the front.
unfoldable pub closes : ℕ → Bool → Bytes → Bool
closes quote triple r =
    first r == quote && (not triple || (first (drop 1 r) == quote && first (drop 2 r) == quote))

unfoldable pub close : Bool → Lexer → Lexer
close triple l = if triple then advance (advance (advance l)) else advance l

-- The bookkeeping of a newline inside a string, before it is consumed.
unfoldable pub pass_newline : ℕ → Lexer → Lexer
pass_newline c l =
    if c == b'\n' then record l { line = l.line + 1; column = 0; line_start = l.current + 1 } else l

-- The loop of `make_string` over the bytes from the state on; an unclosed string ends with the text.
unfoldable pub string_loop : ℕ → Bool → Bytes → Bytes → Lexer → Bytes × Lexer
unfolding unescape closes close pass_newline
string_loop quote triple [] out l = (out, l)
string_loop quote triple (c ∷ []) out l = elim (closes quote triple (c ∷ [])) [
  | true ↦ (out, close triple l)
  | false ↦ elim (c == b'\\' && not triple) [
    | true ↦ (out, advance l)
    | false ↦ (out ++ c ∷ [], advance (pass_newline c l))
  ]
]
string_loop quote triple (c ∷ d ∷ r) out l = elim (closes quote triple (c ∷ d ∷ r)) [
  | true ↦ (out, close triple l)
  | false ↦ elim (c == b'\\' && not triple) [
    | true ↦ string_loop quote triple r (out ++ unescape d ∷ []) (advance (advance l))
    | false ↦ string_loop quote triple (d ∷ r) (out ++ c ∷ []) (advance (pass_newline c l))
  ]
]

abbrev pub opens_triple : ℕ → Lexer → Bool
opens_triple quote l = peek l == quote && peek_next l == quote

abbrev pub string_lexeme : ℕ → Bool → Bytes → Bytes
string_lexeme quote triple value =
    if triple then codes "\"\"\"" ++ (value ++ codes "\"\"\"") else quote ∷ (value ++ quote ∷ [])

module _ {D : Type 0} where
  -- A token built without a value holds the variant's first alternative, 0.
  abbrev pub plain : TokenType → Bytes → SourceLocation → Token D
  plain t lexeme loc = record { type = t; lexeme = lexeme; location = loc; value = long_long 0 }

  -- The opening quote has been consumed.
  unfoldable pub make_string : ℕ → Lexer → Token D × Lexer
  unfolding string_loop
  make_string quote l =
      let triple = opens_triple quote l in
      let start = if triple then advance (advance l) else l in
      let (value, l') = string_loop quote triple start.rest [] start in
      (
        record {
          type = string;
          lexeme = string_lexeme quote triple value;
          location = current_location l;
          value = text value;
        },
        l',
      )

  unfoldable pub make_identifier : Lexer → Token D × Lexer
  unfolding advance_while word_type is_ident
  make_identifier l =
      let (ident, l') = advance_while is_ident l.rest [] l in
      (plain (word_type ident) ident (current_location l), l')

  -- `stod` is `std::stod`: `none` where it throws `std::out_of_range`.
  module _ (stod : Bytes → Option D) where
    abbrev pub make_float : SourceLocation → Bytes → Lexer → Outcome (Token D × Lexer)
    make_float loc num l = elim (stod num) [
      | none ↦ out_of_range
      | some d ↦ done (record { type = float; lexeme = num; location = loc; value = double d }, l)
    ]

    abbrev pub make_integer : SourceLocation → Bytes → Lexer → Outcome (Token D × Lexer)
    make_integer loc num l = do
      n ← stoll num
      done (record { type = integer; lexeme = num; location = loc; value = long_long n }, l)

    unfoldable pub make_number : Lexer → Outcome (Token D × Lexer)
    unfolding advance_while stoll is_digit
    make_number l =
        let (num, l1) = advance_while is_digit l.rest [] l in
        let (frac, l2) = advance_while is_digit (advance l1).rest (num ++ b'.' ∷ []) (advance l1) in
        if peek l1 == b'.' && is_digit (peek_next l1)
        then make_float (current_location l) frac l2
        else make_integer (current_location l) num l1
