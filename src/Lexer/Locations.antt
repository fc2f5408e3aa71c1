-- ===== src/Lexer/Locations.antt =====
-- The tokens as `tokenize` returns them, and their locations.
use aithon.Prelude.{
  ℕ, suc, true, false, ◌||◌, ◌≡◌, ◌∙◌, ◌≢◌, refl, sym, ap, inl, inr, Option, some, List, [], ◌∷◌,
  ◌++◌, Bytes, arith, Bool-cases, ◌==◌, ==_iff, All, All-append, length,
}
use aithon.Token.{Token}
use aithon.Lexer.Loop.{loop_inv}
use aithon.Lexer.Cursor.{Lexer, first, init, advance, peek, is_digit, is_alpha}
use aithon.Lexer.Literals.{done}
use aithon.Lexer.Position.{Tracks, Tracks-place, init-Tracks, advance-Tracks}
use aithon.Lexer.Strings.{no_splice}
use aithon.Lexer.Scan.{scan, eof, tokenize}
use aithon.Lexer.Located.{
  Located, word, Good, GoodOutcome, make_newline-Good, make_identifier-Good, make_number-Good,
  make_operator-Good, make_string-Good, skip_comment-Tracks, skip_whitespace-Tracks,
}

module _ (D : Type 0) (stod : Bytes → Option D) (source past : Bytes) (l : Lexer)
    (t : Tracks source past l) where
  -- Every round, on a nonempty rest.
  pub scan-Good :
      (c : ℕ) (r : Bytes)
      → l.rest ≡ c ∷ r
      → no_splice source ≡ true
      → GoodOutcome {D = D} source (scan stod l)
  unfolding scan
  scan-Good c r e n = elim (Bool-cases (peek l == b'#')) [
    | inl hit ↦ rw hit (tt, skip_comment-Tracks source past l t)
    | inr no_comment ↦ elim (Bool-cases (peek l == b'\n')) [
      | inl hit ↦
          rw (no_comment, hit)
            (make_newline-Good D source past l t r
              (e ∙ ap (λ x. x ∷ r) (front ∙ (==_iff _ _).0 hit)))
      | inr no_newline ↦ elim (Bool-cases (is_digit (peek l))) [
        | inl hit ↦ rw (no_comment, no_newline, hit) (make_number-Good D source past l t stod)
        | inr no_digit ↦ elim (Bool-cases (peek l == b'"' || peek l == b'\'')) [
          | inl hit ↦
              rw (no_comment, no_newline, no_digit, hit)
                (make_string-Good D source (c ∷ past) (advance l)
                  (advance-Tracks l c r e (ne no_newline) t) (peek l) past
                  (ap (λ x. x ∷ past) front) (ground arith) n)
          | inr no_quote ↦ elim (Bool-cases (is_alpha (peek l) || peek l == b'_')) [
            | inl hit ↦
                rw (no_comment, no_newline, no_digit, no_quote, hit)
                  (make_identifier-Good D source past l t)
            | inr no_name ↦
                rw (no_comment, no_newline, no_digit, no_quote, no_name)
                  (make_operator-Good D source past l t c r e (ne no_newline))
          ]
        ]
      ]
    ]
  ]
    where
      front : c ≡ peek l
      front = sym (ap first e)

      ne : (peek l == b'\n') ≡ false → c ≢ b'\n'
      ne h = rw front (ground arith)

abbrev Inv : {D : Type 0} → Bytes → Lexer → List (Token D) → Type 0
Inv source l ts = All (Located source) ts × ((past : Bytes) × Tracks source past l)

round-Inv :
    (D : Type 0) (stod : Bytes → Option D) (source : Bytes)
    → no_splice source ≡ true
    → (l : Lexer) (ts : List (Token D)) (c : ℕ) (r : Bytes) (us : List (Token D)) (l' : Lexer)
    → l.rest ≡ c ∷ r
    → scan stod l ≡ done (us, l')
    → Inv source l ts
    → Inv source l' (ts ++ us)
round-Inv D stod source n l ts c r us l' e s (h, (past, t)) =
    let good : Good source (us, l') = rw s at (scan-Good D stod source past l t c r e n) in
    (All-append (Located source) ts us h good.0, good.1)

-- If no backslash stands directly before a newline, every token that `tokenize` returns has the line,
-- column and line start of a place in the source where it stands: its lexeme follows there, or a newline
-- for a NEWLINE token, or, for a string, the first quote of a literal stands just before, and the literal
-- read from there, triple-quoted if two more of the quotes follow, has the token's value for its text.
pub tokenize-Located :
    (D : Type 0) (stod : Bytes → Option D) (source : Bytes) (tokens : List (Token D)) (l : Lexer)
    → no_splice source ≡ true
    → tokenize stod source ≡ done (some (tokens, l))
    → All (Located source) tokens
unfolding tokenize
tokenize-Located D stod source tokens l n e =
    let (us, (h, (past, t)), all, end) =
      loop_inv stod (Inv source)
        (λ l ts (h, (past, t)). (h, skip_whitespace-Tracks source past l t))
        (round-Inv D stod source n) (suc (length source)) (init source) [] tokens l
        (tt, ([], init-Tracks source)) e in
    rw all (
      All-append (Located source) us (eof l ∷ []) h (
        (record {
          past = past;
          after = [];
          splits = rw end at t.splits;
          at = Tracks-place t;
          stands = word [] refl;
        }),
        tt,
      ))
