-- ===== src/Lexer/Strings.antt =====
-- The string literal's loop keeps the counters right, but for a newline behind a backslash.
use aithon.Prelude.{
  ℕ, ◌<◌, Bool, true, false, not, ◌&&◌, ◌≡◌, ◌∙◌, ◌≢◌, refl, ap, inl, inr, [], ◌∷◌, Bytes, arith,
  drop, Bool-cases, ◌==◌,
}
use aithon.Lexer.Cursor.{Lexer, advance}
use aithon.Lexer.Literals.{closes, close, pass_newline, string_loop}
use aithon.Lexer.Position.{Tracks, advance-Tracks, unread}

-- No backslash stands directly before a newline.
unfoldable pub no_splice : Bytes → Bool
no_splice [] = true
no_splice (c ∷ []) = true
no_splice (c ∷ d ∷ r) = not (c == b'\\' && d == b'\n') && no_splice (d ∷ r)

no_splice-tail : (c : ℕ) (r : Bytes) → no_splice (c ∷ r) ≡ true → no_splice r ≡ true
unfolding no_splice
no_splice-tail c [] h = refl
no_splice-tail c (d ∷ r) h = ground arith

pub no_splice-unread : (past r : Bytes) → no_splice (unread past r) ≡ true → no_splice r ≡ true
no_splice-unread [] r h = h
no_splice-unread (c ∷ past) r h = no_splice-tail c r (no_splice-unread past (c ∷ r) h)

escaped_ne :
    (c d : ℕ) (r : Bytes) (triple : Bool)
    → (c == b'\\' && not triple) ≡ true
    → no_splice (c ∷ d ∷ r) ≡ true
    → d ≢ b'\n'
unfolding no_splice
escaped_ne c d r triple h n = ground arith

pass_newline-Tracks :
    {source past : Bytes} (l : Lexer) (c : ℕ) (r : Bytes)
    → l.rest ≡ c ∷ r
    → Tracks source past l
    → Tracks source (c ∷ past) (advance (pass_newline c l))
unfolding pass_newline
pass_newline-Tracks l c r e t = elim (Bool-cases (c == b'\n')) [
  | inl hit ↦ rw hit (record {
    splits = rw e (rw e at t.splits);
    current_is = ground arith;
    line_is = ground arith;
    column_is = ground arith;
    start_is = ground arith;
  })
  | inr miss ↦ rw miss (advance-Tracks l c r e (ground arith) t)
]

pub rest-pass_newline : (c : ℕ) (l : Lexer) → (pass_newline c l).rest ≡ l.rest
unfolding pass_newline
rest-pass_newline c l = ground arith

-- A quotation mark: no newline, and not what `peek` answers past the end.
abbrev pub IsQuote : ℕ → Type 0
IsQuote q = (0 < q) × (q ≢ b'\n')

close-Tracks :
    {source past : Bytes} (l : Lexer) (quote : ℕ) (triple : Bool) (r : Bytes)
    → IsQuote quote
    → closes quote triple r ≡ true
    → l.rest ≡ r
    → Tracks source past l
    → (past' : Bytes) × Tracks source past' (close triple l)
unfolding closes close
close-Tracks l quote triple [] q h e t = absurd (ground arith)
close-Tracks {past = past} l quote false (c ∷ r) q h e t =
    (c ∷ past, advance-Tracks l c r e (ground arith) t)
close-Tracks l quote true (c ∷ []) q h e t = absurd (ground arith)
close-Tracks l quote true (c ∷ d ∷ []) q h e t = absurd (ground arith)
close-Tracks {past = past} l quote true (c ∷ d ∷ f ∷ r) q h e t = (
  f ∷ d ∷ c ∷ past,
  advance-Tracks (advance (advance l)) f r (ap (λ s. drop 1 (drop 1 s)) e) (ground arith) (
      advance-Tracks (advance l) d (f ∷ r) (ap (drop 1) e) (ground arith)
        (advance-Tracks l c (d ∷ f ∷ r) e (ground arith) t)),
)

pub string_loop-Tracks :
    (source : Bytes) (quote : ℕ) (triple : Bool)
    → IsQuote quote
    → (r past out : Bytes) (l : Lexer) → l.rest ≡ r
    → no_splice r ≡ true
    → Tracks source past l
    → (past' : Bytes) × Tracks source past' (string_loop quote triple r out l).1
unfolding string_loop
string_loop-Tracks source quote triple q [] past out l e n t = (past, t)
string_loop-Tracks source quote triple q (c ∷ []) past out l e n t =
    elim (Bool-cases (closes quote triple (c ∷ []))) [
      | inl shut ↦ rw (shut, string_loop) (close-Tracks l quote triple (c ∷ []) q shut e t)
      | inr open_ ↦ elim (Bool-cases (c == b'\\' && not triple)) [
        | inl escaped ↦
            rw (open_, escaped, string_loop) (c ∷ past, advance-Tracks l c [] e (ground arith) t)
        | inr literal ↦ rw (open_, literal, string_loop) (c ∷ past, pass_newline-Tracks l c [] e t)
      ]
    ]
string_loop-Tracks source quote triple q (c ∷ d ∷ r) past out l e n t =
    elim (Bool-cases (closes quote triple (c ∷ d ∷ r))) [
      | inl shut ↦ rw (shut, string_loop) (close-Tracks l quote triple (c ∷ d ∷ r) q shut e t)
      | inr open_ ↦ elim (Bool-cases (c == b'\\' && not triple)) [
        | inl escaped ↦
            rw (open_, escaped, string_loop)
              (string_loop-Tracks source quote triple q r (d ∷ c ∷ past) _ (advance (advance l))
                (ap (λ s. drop 1 (drop 1 s)) e) (no_splice-tail d r (no_splice-tail c (d ∷ r) n))
                (advance-Tracks (advance l) d r (ap (drop 1) e) (escaped_ne c d r triple escaped n)
                  (advance-Tracks l c (d ∷ r) e (ground arith) t)))
        | inr literal ↦
            rw (open_, literal, string_loop)
              (string_loop-Tracks source quote triple q (d ∷ r) (c ∷ past) _
                (advance (pass_newline c l)) (ap (drop 1) (rest-pass_newline c l ∙ e))
                (no_splice-tail c (d ∷ r) n) (pass_newline-Tracks l c (d ∷ r) e t))
      ]
    ]
