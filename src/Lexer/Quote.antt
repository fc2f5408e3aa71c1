-- ===== src/Lexer/Quote.antt =====
-- String literals: how a text is written with escapes, and how `make_string` reads it.
use aithon.Prelude.{
  ℕ, Bool, true, false, not, ◌&&◌, ◌||◌, ◌≡◌, ◌∙◌, ◌≢◌, ◌⊎◌, refl, sym, ap, subst, inl, inr, [],
  ◌∷◌, ◌++◌, Bytes, arith, drop, append_assoc, append-nil, Bool-cases, ◌==◌, if◌then◌else◌,
}
use aithon.Token.{text}
use aithon.Lexer.Cursor.{Lexer, first, advance}
use aithon.Lexer.Literals.{
  closes, close, pass_newline, string_loop, opens_triple, make_string, unescape,
}
use aithon.Lexer.Strings.{rest-pass_newline}

module _ (quote : ℕ) (triple : Bool) where
  -- One round on a byte that neither closes the string nor starts an escape.
  pub string_literal :
      (c : ℕ) (r out : Bytes) (l : Lexer)
      → closes quote triple (c ∷ r) ≡ false
      → (c == b'\\' && not triple) ≡ false
      → string_loop quote triple (c ∷ r) out l
        ≡ string_loop quote triple r (out ++ c ∷ []) (advance (pass_newline c l))
  unfolding string_loop
  string_literal c [] out l h k = rw (h, k, string_loop)
  string_literal c (d ∷ r) out l h k = rw (h, k, string_loop)

  pub string_escape :
      (c d : ℕ) (r out : Bytes) (l : Lexer)
      → closes quote triple (c ∷ d ∷ r) ≡ false
      → (c == b'\\' && not triple) ≡ true
      → string_loop quote triple (c ∷ d ∷ r) out l
        ≡ string_loop quote triple r (out ++ unescape d ∷ []) (advance (advance l))
  unfolding string_loop
  string_escape c d r out l h k = rw (h, k, string_loop)

  pub string_shut :
      (c : ℕ) (r out : Bytes) (l : Lexer)
      → closes quote triple (c ∷ r) ≡ true
      → string_loop quote triple (c ∷ r) out l ≡ (out, close triple l)
  unfolding string_loop
  string_shut c [] out l h = rw (h, string_loop)
  string_shut c (d ∷ r) out l h = rw (h, string_loop)

-- The quotes, the backslash and the three blanks with a letter of their own are escaped.
unfoldable pub escape_byte : ℕ → Bytes
escape_byte c =
    if c == b'\n'
    then b'\\' ∷ b'n' ∷ []
    else if c == b'\t'
    then b'\\' ∷ b't' ∷ []
    else if c == b'\r'
    then b'\\' ∷ b'r' ∷ []
    else if c == b'\\' || c == b'"' || c == b'\''
    then b'\\' ∷ c ∷ []
    else c ∷ []

unfoldable pub escape : Bytes → Bytes
unfolding escape_byte
escape [] = []
escape (c ∷ s) = escape_byte c ++ escape s

-- `c` is written as it is, or behind a backslash by `d`.
escape_byte-cases :
    (c : ℕ)
    → ((escape_byte c ≡ c ∷ []) × (c ≢ b'\\') × (c ≢ b'"') × (c ≢ b'\''))
      ⊎ ((d : ℕ) × (escape_byte c ≡ b'\\' ∷ d ∷ []) × (unescape d ≡ c))
unfolding escape_byte unescape
escape_byte-cases c = elim (Bool-cases (c == b'\n')) [
  | inl nl ↦ inr (b'n', rw nl refl, ground arith)
  | inr no_nl ↦ elim (Bool-cases (c == b'\t')) [
    | inl tab ↦ inr (b't', rw (no_nl, tab) refl, ground arith)
    | inr no_tab ↦ elim (Bool-cases (c == b'\r')) [
      | inl cr ↦ inr (b'r', rw (no_nl, no_tab, cr) refl, ground arith)
      | inr no_cr ↦ elim (Bool-cases (c == b'\\' || c == b'"' || c == b'\'')) [
        | inl special ↦ inr (c, rw (no_nl, no_tab, no_cr, special) refl, ground arith)
        | inr other ↦
            inl (rw (no_nl, no_tab, no_cr, other) refl, ground arith, ground arith, ground arith)
      ]
    ]
  ]
]

abbrev IsMark : ℕ → Type 0
IsMark q = (q ≡ b'"') ⊎ (q ≡ b'\'')

closes-ne : (q c : ℕ) (r : Bytes) → c ≢ q → closes q false (c ∷ r) ≡ false
unfolding closes
closes-ne q c r h = ground arith

closes_self : (q : ℕ) (r : Bytes) → closes q false (q ∷ r) ≡ true
unfolding closes
closes_self q r = ground arith

-- The loop on an escaped text and its closing quote: it reads the text, and stops behind the quote.
string_loop-escape :
    (q : ℕ)
    → IsMark q
    → (s after out : Bytes) (l : Lexer) → l.rest ≡ escape s ++ q ∷ after
    → ((string_loop q false (escape s ++ q ∷ after) out l).0 ≡ out ++ s)
      × ((string_loop q false (escape s ++ q ∷ after) out l).1.rest ≡ after)
unfolding escape
string_loop-escape q m [] after out l e =
    rw (string_shut q false q after out l (closes_self q after))
      (sym (append-nil out), unfold close in ap (drop 1) e)
string_loop-escape q m (c ∷ s) after out l e = elim (escape_byte-cases c) [
  | inl (plain, no_escape, no_double, no_single) ↦
      let tail : Bytes = escape s ++ q ∷ after in
      let step =
        string_literal q false c tail out l (closes-ne q c tail (ground arith)) (ground arith) in
      let l' = advance (pass_newline c l) in
      let ih =
        string_loop-escape q m s after (out ++ c ∷ []) l' (
          ap (drop 1) (rest-pass_newline c l ∙ e ∙ ap (λ w. (w ++ escape s) ++ q ∷ after) plain)) in
      rw (plain, step) (ih.0 ∙ append_assoc out (c ∷ []) s, ih.1)
  | inr (d, escaped, back) ↦
      let tail : Bytes = escape s ++ q ∷ after in
      let step =
        string_escape q false b'\\' d tail out l (closes-ne q b'\\' (d ∷ tail) (ground arith))
          refl in
      let ih =
        string_loop-escape q m s after (out ++ unescape d ∷ []) (advance (advance l))
          (ap (λ w. drop 1 (drop 1 w)) (e ∙ ap (λ w. (w ++ escape s) ++ q ∷ after) escaped)) in
      rw (escaped, step)
        (ih.0 ∙ append_assoc out (unescape d ∷ []) s ∙ ap (λ x. out ++ x ∷ s) back, ih.1)
]

not_triple :
    (q : ℕ)
    → IsMark q
    → (s after : Bytes) → (s ≡ [] → first after ≢ q)
    → (first (escape s ++ q ∷ after) == q && first (drop 1 (escape s ++ q ∷ after)) == q) ≡ false
unfolding escape
not_triple q m [] after h = ground (arith, h refl)
not_triple q m (c ∷ s) after h = elim (escape_byte-cases c) [
  | inl (plain, no_escape, no_double, no_single) ↦ rw plain (ground arith)
  | inr (d, escaped, back) ↦ rw escaped (ground arith)
]

-- `make_string`, behind an opening quote, on an escaped text, its closing quote and any text after
-- it, gives a token with that text as its value, and stops behind the closing quote. An empty text
-- must not be followed by a third quote, which would open a triple-quoted string.
pub make_string-escape :
    (D : Type 0) (q : ℕ) (s after : Bytes) (l : Lexer)
    → (q ≡ b'"') ⊎ (q ≡ b'\'')
    → (s ≡ [] → first after ≢ q)
    → l.rest ≡ escape s ++ q ∷ after
    → ((make_string {D = D} q l).0.value ≡ text s) × ((make_string {D = D} q l).1.rest ≡ after)
unfolding make_string
make_string-escape D q s after l m third e =
    let single : opens_triple q l ≡ false =
      subst (λ w. (first w == q && first (drop 1 w) == q) ≡ false) (sym e)
        (not_triple q m s after third) in
    let (value, rest) =
      subst
        (λ w. ((string_loop q false w [] l).0 ≡ s) × ((string_loop q false w [] l).1.rest ≡ after))
        (sym e) (string_loop-escape q m s after [] l e) in
    rw single (ap text value, rest)
