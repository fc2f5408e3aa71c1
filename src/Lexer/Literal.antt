-- ===== src/Lexer/Literal.antt =====
-- The text of a string literal of src/lexer/lexer.cpp, read off the bytes behind its first quote.
use aithon.Prelude.{
  ℕ, true, false, not, ◌&&◌, ◌≡◌, ◌∙◌, refl, sym, ap, inl, inr, [], ◌∷◌, ◌++◌, Bytes, arith, drop,
  Bool-cases, append_assoc, append-nil, ◌==◌, if◌then◌else◌,
}
use aithon.Lexer.Cursor.{Lexer, first, advance}
use aithon.Lexer.Literals.{closes, pass_newline, string_loop, unescape, opens_triple, make_string}
use aithon.Lexer.Quote.{string_literal, string_escape, string_shut}
use aithon.Token.{text}

-- Up to three of the quotes in a row, or the end.
unfoldable pub long_text : ℕ → Bytes → Bytes
long_text q [] = []
long_text q (c ∷ r) =
    let rest = long_text q r in
    if c == q && (first r == q && first (drop 1 r) == q) then [] else c ∷ rest

-- Up to the quote, or the end. A backslash stands for no byte, and changes the next.
unfoldable pub short_text : ℕ → Bytes → Bytes
short_text q [] = []
short_text q (c ∷ []) = if c == q then [] else if c == b'\\' then [] else c ∷ []
short_text q (c ∷ d ∷ r) = elim (c == q) [
  | true ↦ []
  | false ↦ elim (c == b'\\') [
    | true ↦ unescape d ∷ short_text q r
    | false ↦ c ∷ short_text q (d ∷ r)
  ]
]

-- Behind a first quote: two more of it open a literal that three of it close.
unfoldable pub literal_text : ℕ → Bytes → Bytes
literal_text q r =
    if first r == q && first (drop 1 r) == q
    then long_text q (drop 1 (drop 1 r))
    else short_text q r

long_text_step :
    (q c : ℕ) (r : Bytes)
    → long_text q (c ∷ r) ≡ (if closes q true (c ∷ r) then [] else c ∷ long_text q r)
unfolding long_text closes
long_text_step q c r = refl

string_loop-long :
    (q : ℕ) (r out : Bytes) (l : Lexer) → (string_loop q true r out l).0 ≡ out ++ long_text q r
string_loop-long q [] out l = unfold string_loop long_text in sym (append-nil out)
string_loop-long q (c ∷ r) out l = elim (Bool-cases (closes q true (c ∷ r))) [
  | inl shut ↦
      rw (string_shut q true c r out l shut, long_text_step q c r, shut) (sym (append-nil out))
  | inr open_ ↦
      rw (string_literal q true c r out l open_ (ground arith), long_text_step q c r, open_)
        (string_loop-long q r (out ++ c ∷ []) (advance (pass_newline c l))
          ∙ append_assoc out (c ∷ []) _)
]

short_text_step :
    (q c d : ℕ) (r : Bytes)
    → short_text q (c ∷ d ∷ r) ≡ (
        if closes q false (c ∷ d ∷ r)
        then []
        else if c == b'\\' && not false
        then unescape d ∷ short_text q r
        else c ∷ short_text q (d ∷ r))
unfolding short_text closes
short_text_step q c d r = ground arith

one_left :
    (q c : ℕ) (out : Bytes) (l : Lexer)
    → (string_loop q false (c ∷ []) out l).0 ≡ out ++ short_text q (c ∷ [])
unfolding string_loop short_text closes
one_left q c out l = ground (arith, append-nil out)

string_loop-short :
    (q : ℕ) (r out : Bytes) (l : Lexer) → (string_loop q false r out l).0 ≡ out ++ short_text q r
string_loop-short q [] out l = unfold string_loop short_text in sym (append-nil out)
string_loop-short q (c ∷ []) out l = one_left q c out l
string_loop-short q (c ∷ d ∷ r) out l = elim (Bool-cases (closes q false (c ∷ d ∷ r))) [
  | inl shut ↦
      rw (string_shut q false c (d ∷ r) out l shut, short_text_step q c d r, shut)
        (sym (append-nil out))
  | inr open_ ↦ elim (Bool-cases (c == b'\\' && not false)) [
    | inl escaped ↦
        rw
          (string_escape q false c d r out l open_ escaped, short_text_step q c d r, open_, escaped)
          (string_loop-short q r (out ++ unescape d ∷ []) (advance (advance l))
            ∙ append_assoc out (unescape d ∷ []) _)
    | inr plain ↦
        rw
          (
            string_literal q false c (d ∷ r) out l open_ plain,
            short_text_step q c d r,
            open_,
            plain,
          )
          (string_loop-short q (d ∷ r) (out ++ c ∷ []) (advance (pass_newline c l))
            ∙ append_assoc out (c ∷ []) _)
  ]
]

-- What `make_string` gives is what the literal says.
pub make_string-literal_text :
    (D : Type 0) (q : ℕ) (l : Lexer)
    → (make_string {D = D} q l).0.value ≡ text (literal_text q l.rest)
unfolding make_string literal_text
make_string-literal_text D q l = elim (Bool-cases (opens_triple q l)) [
  | inl triple ↦
      rw triple (ap text (string_loop-long q (drop 1 (drop 1 l.rest)) [] (advance (advance l))))
  | inr single ↦ rw single (ap text (string_loop-short q l.rest [] l))
]
