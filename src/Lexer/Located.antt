-- ===== src/Lexer/Located.antt =====
-- Located tokens, and what each of the functions that make a token leaves behind.
use aithon.Prelude.{
  ℕ, ◌<◌, Bool, true, false, ◌&&◌, ◌≡◌, ◌∙◌, ◌≢◌, ◌⊎◌, refl, sym, ap, inl, inr, Option, some, none,
  List, [], ◌∷◌, ◌++◌, Bytes, arith, drop, Bool-cases, Option-cases, ◌==◌, All, append_assoc,
  if◌then◌else◌,
}
use aithon.Token.{Token, float, double, integer, long_long, newline, string, text, TokenType}
use aithon.Lexer.Cursor.{
  Lexer, first, advance, peek, peek_next, is_digit, is_ident, is_blank, is_not_newline,
  current_location, skip_whitespace, skip_comment, advance_while,
}
use aithon.Lexer.Literals.{
  opens_triple, make_float, make_integer, make_number, make_string, make_identifier, Outcome, done,
  out_of_range, ◌>>=◌, stoll,
}
use aithon.Lexer.Literal.{literal_text, make_string-literal_text}
use aithon.Lexer.Position.{
  Tracks, Tracks-place, advance-Tracks, unread, place, Advanced, advance_while-Advanced,
}
use aithon.Lexer.Strings.{no_splice, no_splice-unread, string_loop-Tracks, IsQuote}
use aithon.Lexer.Scan.{
  make_newline, make_operator, two_char_operator, find_char, single_chars, reject, one, single,
}

-- How a token's text stands behind its location: its lexeme, a newline for the lexeme `\n`, or a
-- string literal, whose location is just behind its first quote: read from there, the literal has the
-- token's value for its text.
pub data Stands {D : Type 0} (t : Token D) (past after : Bytes) : Type 0 where
  word : (r : Bytes) → after ≡ t.lexeme ++ r → Stands t past after
  line_end : (r : Bytes) → t.type ≡ newline → after ≡ b'\n' ∷ r → Stands t past after
  quoted :
      (q : ℕ) (p : Bytes)
      → t.type ≡ string
      → past ≡ q ∷ p
      → (q ≡ b'"') ⊎ (q ≡ b'\'')
      → t.value ≡ text (literal_text q after)
      → Stands t past after

pub record Located {D : Type 0} (source : Bytes) (t : Token D) : Type 0 where
  pub past : Bytes
  pub after : Bytes
  pub splits : source ≡ unread past after
  pub at : t.location ≡ place past
  pub stands : Stands t past after

fraction_splits :
    (w num r1 s digits r2 out : Bytes)
    → w ≡ num ++ r1
    → r1 ≡ b'.' ∷ s
    → s ≡ digits ++ r2
    → out ≡ (num ++ b'.' ∷ []) ++ digits
    → w ≡ out ++ r2
fraction_splits w num r1 s digits r2 out a b c d = rw (a, b, c, d) (simp append_assoc)

first_pos : (r : Bytes) → 0 < first r → r ≡ first r ∷ drop 1 r
first_pos [] h = absurd (omega arith)
first_pos (c ∷ r) h = refl

dot_first : (r : Bytes) (b : Bool) → (first r == b'.' && b) ≡ true → r ≡ b'.' ∷ drop 1 r
dot_first [] b h = cc
dot_first (c ∷ r) b h = ground arith

-- What a step from a state that tracks the source leaves: a state that does, and located tokens.
abbrev pub Good : {D : Type 0} → Bytes → List (Token D) × Lexer → Type 0
Good source r = All (Located source) r.0 × ((past : Bytes) × Tracks source past r.1)

abbrev pub GoodOutcome : {D : Type 0} → Bytes → Outcome (List (Token D) × Lexer) → Type 0
GoodOutcome source (done r) = Good source r
GoodOutcome source out_of_range = Unit

-- No loop of the lexer passes a newline, but for that of a string.
is_ident_ne : (c : ℕ) → is_ident c ≡ true → c ≢ b'\n'
unfolding is_ident
is_ident_ne c h = ground arith

is_digit_ne : (c : ℕ) → is_digit c ≡ true → c ≢ b'\n'
unfolding is_digit
is_digit_ne c h = ground arith

is_blank_ne : (c : ℕ) → is_blank c ≡ true → c ≢ b'\n'
unfolding is_blank
is_blank_ne c h = ground arith

is_not_newline_ne : (c : ℕ) → is_not_newline c ≡ true → c ≢ b'\n'
unfolding is_not_newline
is_not_newline_ne c h = ground arith

find_char-some :
    (c : ℕ) (table : List (ℕ × TokenType)) (t : TokenType) (lexeme : Bytes)
    → find_char c table ≡ some (t, lexeme)
    → lexeme ≡ c ∷ []
unfolding find_char
find_char-some c [] t lexeme h = cc
find_char-some c ((k, u) ∷ table) t lexeme h = ground (arith, find_char-some c table t lexeme)

two_char_operator-some :
    (c n : ℕ) {t : TokenType} {lexeme : Bytes}
    → two_char_operator c n ≡ some (t, lexeme)
    → (lexeme ≡ c ∷ n ∷ []) × (0 < n) × (n ≢ b'\n')
unfolding two_char_operator
two_char_operator-some c n h = ground arith

module _ (source past : Bytes) (l : Lexer) (t : Tracks source past l) where
  pub skip_whitespace-Tracks : (past' : Bytes) × Tracks source past' (skip_whitespace l)
  unfolding skip_whitespace
  skip_whitespace-Tracks =
      (_, (advance_while-Advanced source is_blank is_blank_ne l.rest past [] l refl t).tracks)

  pub skip_comment-Tracks : (past' : Bytes) × Tracks source past' (skip_comment l)
  unfolding skip_comment
  skip_comment-Tracks = (
    _,
    (advance_while-Advanced source is_not_newline is_not_newline_ne l.rest past [] l refl t).tracks,
  )

  reject-Tracks :
      (c : ℕ) (r : Bytes) → l.rest ≡ c ∷ r → c ≢ b'\n' → Tracks source (c ∷ past) (reject l)
  unfolding reject
  reject-Tracks c r e ne = ground (arith, advance-Tracks l c r e ne t)

  -- Behind the rest of a triple quote, if there is one.
  start-Tracks :
      (q : ℕ)
      → IsQuote q
      → (triple : Bool) → opens_triple q l ≡ triple
      → (past' : Bytes) × Tracks source past' (if triple then advance (advance l) else l)
  start-Tracks q quote false e = (past, t)
  start-Tracks q quote true e = opened l.rest refl e
    where
      opened :
          (r : Bytes)
          → l.rest ≡ r
          → (first r == q && first (drop 1 r) == q) ≡ true
          → (past' : Bytes) × Tracks source past' (advance (advance l))
      opened [] e h = absurd (ground arith)
      opened (c ∷ []) e h = absurd (ground arith)
      opened (c ∷ d ∷ r) e h = (
        d ∷ c ∷ past,
        advance-Tracks (advance l) d r (ap (drop 1) e) (ground arith)
            (advance-Tracks l c (d ∷ r) e (ground arith) t),
      )

module _ (D : Type 0) (source past : Bytes) (l : Lexer) (t : Tracks source past l) where
  word-Located :
      (tok : Token D) (r : Bytes)
      → tok.location ≡ current_location l
      → l.rest ≡ tok.lexeme ++ r
      → Located source tok
  word-Located tok r e s = record {
    past = past;
    after = l.rest;
    splits = t.splits;
    at = e ∙ Tracks-place t;
    stands = word r s;
  }

  pub make_newline-Good :
      (r : Bytes) → l.rest ≡ b'\n' ∷ r → Good {D = D} source (one (make_newline l))
  unfolding make_newline
  make_newline-Good r e = (
    (
      record {
        past = past;
        after = l.rest;
        splits = t.splits;
        at = Tracks-place t;
        stands = line_end r refl e;
      },
      tt,
    ),
    (
      b'\n' ∷ past,
      record {
        splits = rw e (rw e at t.splits);
        current_is = ground arith;
        line_is = ground arith;
        column_is = ground arith;
        start_is = ground arith;
      },
    ),
  )

  pub make_identifier-Good : Good {D = D} source (one (make_identifier l))
  unfolding make_identifier
  make_identifier-Good =
      let a = advance_while-Advanced source is_ident is_ident_ne l.rest past [] l refl t in
      (
        (
          word-Located _ _ refl (
              a.splits ∙ ap (λ w. w ++ (advance_while is_ident l.rest [] l).1.rest) (sym a.output)),
          tt,
        ),
        (_, a.tracks),
      )

  single-Good :
      (c : ℕ) (r : Bytes)
      → l.rest ≡ c ∷ r
      → c ≢ b'\n'
      → Good {D = D} source (single l (find_char (peek l) single_chars))
  single-Good c r e ne = elim (Option-cases (find_char (peek l) single_chars)) [
    | inl missing ↦ rw missing (tt, (c ∷ past, reject-Tracks source past l t c r e ne))
    | inr ((u, lexeme), found) ↦
        let spelled = find_char-some (peek l) single_chars u lexeme found in
        rw found (
          (word-Located _ r refl (rw spelled (e ∙ ap (λ x. x ∷ r) (sym (ap first e)))), tt),
          (c ∷ past, advance-Tracks l c r e ne t),
        )
  ]

  pub make_operator-Good :
      (c : ℕ) (r : Bytes) → l.rest ≡ c ∷ r → c ≢ b'\n' → Good {D = D} source (make_operator l)
  unfolding make_operator
  make_operator-Good c r e ne = elim (Option-cases (two_char_operator (peek l) (peek_next l))) [
    | inl missing ↦ rw missing (single-Good c r e ne)
    | inr ((u, lexeme), found) ↦
        let h = two_char_operator-some (peek l) (peek_next l) found in
        let n : ℕ = peek_next l in
        let e' : l.rest ≡ c ∷ n ∷ drop 1 r =
          e
          ∙ ap (◌∷◌ c) (first_pos r (rw e at h.1))
          ∙ ap (λ s. c ∷ first (drop 1 s) ∷ drop 1 r) (sym e) in
        rw found (
          (
            word-Located _ (drop 1 r) refl
                (rw h.0 (e' ∙ ap (λ x. x ∷ n ∷ drop 1 r) (sym (ap first e)))),
            tt,
          ),
          (
            n ∷ c ∷ past,
            advance-Tracks (advance l) n (drop 1 r) (ap (drop 1) e') h.2
                (advance-Tracks l c (n ∷ drop 1 r) e' ne t),
          ),
        )
  ]

  pub make_string-Good :
      (q : ℕ) (p : Bytes)
      → past ≡ q ∷ p
      → (q ≡ b'"') ⊎ (q ≡ b'\'')
      → no_splice source ≡ true
      → Good {D = D} source (one (make_string q l))
  unfolding make_string
  make_string-Good q p e mark n =
      let quote : IsQuote q = ground arith in
      let (past', t') = start-Tracks source past l t q quote (opens_triple q l) refl in
      (
        (
          record {
            past = past;
            after = l.rest;
            splits = t.splits;
            at = Tracks-place t;
            stands = quoted q p refl e mark (make_string-literal_text D q l);
          },
          tt,
        ),
        string_loop-Tracks source q _ quote _ past' [] _ refl
            (no_splice-unread past' _ (rw t'.splits at n)) t',
      )

  module _ (stod : Bytes → Option D) where
    number-Good :
        (num : Bytes) (l' : Lexer) (past' : Bytes)
        → l.rest ≡ num ++ l'.rest
        → Tracks source past' l'
        → GoodOutcome {D = D} source
            (make_float stod (current_location l) num l' >>= λ r. done (one r))
          × GoodOutcome {D = D} source
              (make_integer stod (current_location l) num l' >>= λ r. done (one r))
    number-Good num l' past' e t' = (
      elim (stod num)
          as (λ o. GoodOutcome {D = D} source (
            (elim o [
              | none ↦ out_of_range
              | some d ↦ done (
                record {
                  type = float;
                  lexeme = num;
                  location = current_location l;
                  value = double d;
                },
                l',
              )
            ])
            >>= λ r. done (one r))) [
              | none ↦ tt
              | some d ↦ ((word-Located _ _ refl e, tt), (past', t'))
            ],
      elim (stoll num)
          as (λ o. GoodOutcome {D = D} source (
            (o >>= λ n. done (
              record {
                type = integer;
                lexeme = num;
                location = current_location l;
                value = long_long n;
              },
              l',
            ))
            >>= λ r. done (one r))) [
              | out_of_range ↦ tt
              | done n ↦ ((word-Located _ _ refl e, tt), (past', t'))
            ],
    )

    pub make_number-Good : GoodOutcome {D = D} source (make_number stod l >>= λ r. done (one r))
    unfolding make_number
    make_number-Good =
        elim (Bool-cases (first l1.rest == b'.' && is_digit (first (drop 1 l1.rest)))) [
          | inl hit ↦
              let dot = dot_first l1.rest _ hit in
              let b =
                advance_while-Advanced source is_digit is_digit_ne (advance l1).rest
                  (b'.' ∷ unread a.taken past) ((advance_while is_digit l.rest [] l).0 ++ b'.' ∷ [])
                  (advance l1) refl (advance-Tracks l1 b'.' _ dot (λ e. omega arith) a.tracks) in
              rw hit
                (number-Good _ _ _
                  (fraction_splits _ _ _ _ _ _ _ (a.splits ∙ ap (λ w. w ++ l1.rest) (sym a.output))
                    dot b.splits b.output)
                  b.tracks).0
          | inr miss ↦
              rw miss
                (number-Good _ _ _ (a.splits ∙ ap (λ w. w ++ l1.rest) (sym a.output)) a.tracks).1
        ]
      where
        a : Advanced source past is_digit [] l.rest (advance_while is_digit l.rest [] l)
        a = advance_while-Advanced source is_digit is_digit_ne l.rest past [] l refl t

        l1 : Lexer
        l1 = (advance_while is_digit l.rest [] l).1
