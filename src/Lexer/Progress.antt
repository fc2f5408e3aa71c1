-- ===== src/Lexer/Progress.antt =====
-- The rounds of the loop of `tokenize`, and how far each one gets in the text.
use aithon.Prelude.{
  ℕ, suc, zero, ◌≤◌, ◌<◌, Bool, true, false, ◌&&◌, ◌||◌, ◌≡◌, ◌∙◌, ◌⊎◌, refl, sym, ap, subst, inl,
  inr, Option, some, none, List, [], ◌∷◌, ◌++◌, Bytes, arith, length, drop, ◌==◌, Bool-cases,
  Option-cases,
}
use aithon.Token.{Token, integer, long_long, float, double}
use aithon.Lexer.Cursor.{
  Lexer, current_location, init, first, peek, peek_next, advance, is_digit, is_alpha, is_ident,
  is_blank, is_not_newline, advance_while, skip_whitespace,
}
use aithon.Lexer.Literals.{
  Outcome, done, out_of_range, ◌>>=◌, string_loop, close, pass_newline, make_string, make_number,
  make_identifier, opens_triple, stoll, unescape,
}
use aithon.Lexer.Strings.{rest-pass_newline}
use aithon.Lexer.Scan.{
  scan, loop, tokenize, make_operator, one, two_char_operator, find_char, single_chars, reject,
}
use aithon.Lexer.Loop.{List-cases, Outcome-cases, loop_end, loop_round, loop_throws}

abbrev left : Lexer → ℕ
left l = length l.rest

left-advance : (l : Lexer) → left (advance l) ≤ left l
left-advance l = elim (List-cases l.rest) [
  | inl e ↦ rw e (omega arith)
  | inr (c, r, e) ↦ rw e (omega arith)
]

advance_while_le :
    (test : ℕ → Bool) (r out : Bytes) (l : Lexer)
    → l.rest ≡ r
    → left (advance_while test r out l).1 ≤ length r
unfolding advance_while
advance_while_le test [] out l e = rw e (omega arith)
advance_while_le test (c ∷ r) out l e = ground (
  arith,
  advance_while_le test r (out ++ c ∷ []) (advance l) (ap (drop 1) e),
  ap (length {A = ℕ}) e,
)

-- Where the first byte passes the test, it is consumed.
advance_while_lt :
    (test : ℕ → Bool) (c : ℕ) (r out : Bytes) (l : Lexer)
    → l.rest ≡ c ∷ r
    → test c ≡ true
    → left (advance_while test (c ∷ r) out l).1 ≤ length r
unfolding advance_while
advance_while_lt test c r out l e h =
    rw (h, advance_while) (advance_while_le test r (out ++ c ∷ []) (advance l) (ap (drop 1) e))

left-close : (triple : Bool) (l : Lexer) → left (close triple l) ≤ left l
unfolding close
left-close false l = left-advance l
left-close true l =
    omega (arith, left-advance l, left-advance (advance l), left-advance (advance (advance l)))

left-pass_newline : (c : ℕ) (l : Lexer) → left (pass_newline c l) ≡ left l
unfolding pass_newline
left-pass_newline c l = ground arith

string_loop_le :
    (quote : ℕ) (triple : Bool) (r out : Bytes) (l : Lexer)
    → l.rest ≡ r
    → left (string_loop quote triple r out l).1 ≤ length r
unfolding string_loop
string_loop_le quote triple [] out l e = rw e (omega arith)
string_loop_le quote triple (c ∷ []) out l e = ground (
  arith,
  ap (length {A = ℕ}) e,
  left-close triple l,
  left-advance l,
  left-advance (pass_newline c l),
  left-pass_newline c l,
)
string_loop_le quote triple (c ∷ d ∷ r) out l e = ground (
  arith,
  ap (length {A = ℕ}) e,
  left-close triple l,
  string_loop_le quote triple r (out ++ unescape d ∷ []) (advance (advance l))
      (ap (λ s. drop 1 (drop 1 s)) e),
  string_loop_le quote triple (d ∷ r) (out ++ c ∷ []) (advance (pass_newline c l))
      (ap (drop 1) (rest-pass_newline c l ∙ e)),
)

abbrev Leaves {ℓ} : {A : Type ℓ} → (A → Lexer) → ℕ → Outcome A → Type 0
Leaves state n (done a) = left (state a) ≤ n
Leaves state n out_of_range = Unit

Leaves-one :
    {D : Type 0} (n : ℕ) (o : Outcome (Token D × Lexer))
    → Leaves (λ (r : Token D × Lexer). r.1) n o
    → Leaves {A = List (Token D) × Lexer} (λ r. r.1) n (o >>= λ r. done (one r))
Leaves-one n (done r) h = h
Leaves-one n out_of_range h = tt

module _ (D : Type 0) where
  make_string_le : (quote : ℕ) (l : Lexer) → left (make_string {D = D} quote l).1 ≤ left l
  unfolding make_string
  make_string_le quote l = elim (Bool-cases (opens_triple quote l)) [
    | inl hit ↦ rw hit (
        omega (
          arith,
          left-advance l,
          left-advance (advance l),
          string_loop_le quote true (advance (advance l)).rest [] (advance (advance l)) refl,
        ))
    | inr miss ↦ rw miss (string_loop_le quote false l.rest [] l refl)
  ]

  make_operator_le :
      (c : ℕ) (r : Bytes) (l : Lexer) → l.rest ≡ c ∷ r → left (make_operator {D = D} l).1 ≤ length r
  unfolding make_operator
  make_operator_le c r l e = elim (Option-cases (two_char_operator (peek l) (peek_next l))) [
    | inl missing ↦ rw missing (elim (Option-cases (find_char (peek l) single_chars)) [
      | inl none_ ↦ rw none_ (rejected l (ap (drop 1) e))
      | inr (s, found) ↦ rw found (rw e (omega arith))
    ])
    | inr (s, found) ↦
        rw found (omega (arith, left-advance (advance l), ap (λ x. length {A = ℕ} (drop 1 x)) e))
  ]
    where
      rejected : (l : Lexer) → drop 1 l.rest ≡ r → left (reject l) ≤ length r
      rejected l h = rw (ap (length {A = ℕ}) h) (omega arith)

  module _ (stod : Bytes → Option D) (l : Lexer) (c : ℕ) (r : Bytes) (e : l.rest ≡ c ∷ r) where
    make_number_le : is_digit c ≡ true → Leaves (λ r. r.1) (length r) (make_number stod l)
    unfolding make_number
    make_number_le h =
        elim (Bool-cases (first l1.rest == b'.' && is_digit (first (drop 1 l1.rest)))) [
          | inl hit ↦
              rw hit
                (elim (stod fraction.0)
                  as (λ o.
                    Leaves {A = Token D × Lexer} (λ r. r.1) (length r)
                      (elim o [
                        | none ↦ out_of_range
                        | some d ↦ done (
                          record {
                            type = float;
                            lexeme = fraction.0;
                            location = current_location l;
                            value = double d;
                          },
                          fraction.1,
                        )
                      ])) [ none ↦ tt | some d ↦ shorter ])
          | inr miss ↦
              rw miss
                (elim (stoll (advance_while is_digit l.rest [] l).0)
                  as (λ o.
                    Leaves {A = Token D × Lexer} (λ r. r.1) (length r)
                      (o >>= λ n. done (
                        record {
                          type = integer;
                          lexeme = (advance_while is_digit l.rest [] l).0;
                          location = current_location l;
                          value = long_long n;
                        },
                        l1,
                      ))) [ out_of_range ↦ tt | done n ↦ short ])
        ]
      where
        l1 : Lexer
        l1 = (advance_while is_digit l.rest [] l).1

        short : left l1 ≤ length r
        short =
            subst (λ w. left (advance_while is_digit w [] l).1 ≤ length r) (sym e)
              (advance_while_lt is_digit c r [] l e h)

        fraction : Bytes × Lexer
        fraction =
            advance_while is_digit (advance l1).rest
              ((advance_while is_digit l.rest [] l).0 ++ b'.' ∷ []) (advance l1)

        shorter : left fraction.1 ≤ length r
        shorter = omega (
          arith,
          short,
          left-advance l1,
          advance_while_le is_digit (advance l1).rest _ (advance l1) refl,
        )

    make_identifier_le :
        (is_alpha c || c == b'_') ≡ true → left (make_identifier {D = D} l).1 ≤ length r
    unfolding make_identifier is_ident
    make_identifier_le h =
        subst (λ w. left (advance_while is_ident w [] l).1 ≤ length r) (sym e)
          (advance_while_lt is_ident c r [] l e (ground arith))

    rest_short : length (drop 1 l.rest) ≤ length r
    rest_short = omega (arith, ap (λ x. length {A = ℕ} (drop 1 x)) e)

    scan_le : Leaves (λ r. r.1) (length r) (scan stod l)
    unfolding scan
    scan_le = elim (Bool-cases (peek l == b'#')) [
      | inl hit ↦ rw hit (passing is_not_newline (ground arith))
      | inr no_comment ↦ elim (Bool-cases (peek l == b'\n')) [
        | inl hit ↦ rw (no_comment, hit) rest_short
        | inr no_newline ↦ elim (Bool-cases (is_digit (peek l))) [
          | inl hit ↦
              rw (no_comment, no_newline, hit)
                (Leaves-one (length r) (make_number stod l) (make_number_le (rw front at hit)))
          | inr no_digit ↦ elim (Bool-cases (peek l == b'"' || peek l == b'\'')) [
            | inl hit ↦
                rw (no_comment, no_newline, no_digit, hit)
                  (omega (arith, rest_short, make_string_le (peek l) (advance l)))
            | inr no_quote ↦ elim (Bool-cases (is_alpha (peek l) || peek l == b'_')) [
              | inl hit ↦
                  rw (no_comment, no_newline, no_digit, no_quote, hit)
                    (make_identifier_le (rw front at hit))
              | inr no_name ↦
                  rw (no_comment, no_newline, no_digit, no_quote, no_name)
                    (make_operator_le c r l e)
            ]
          ]
        ]
      ]
    ]
      where
        passing :
            (test : ℕ → Bool) → test c ≡ true → left (advance_while test l.rest [] l).1 ≤ length r
        passing test h =
            subst (λ w. left (advance_while test w [] l).1 ≤ length r) (sym e)
              (advance_while_lt test c r [] l e h)

        front : peek l ≡ c
        front = ap first e

skip_whitespace_le : (l : Lexer) → left (skip_whitespace l) ≤ left l
unfolding skip_whitespace
skip_whitespace_le l = advance_while_le is_blank l.rest [] l refl

-- Ends: either the tokens and the last state, or an exception, and never for want of fuel.
abbrev pub Ends : {D : Type 0} → Outcome (Option (List (Token D) × Lexer)) → Type 0
Ends {D} o = (o ≡ out_of_range) ⊎ ((ts : List (Token D)) × (l : Lexer) × (o ≡ done (some (ts, l))))

loop-Ends :
    (D : Type 0) (stod : Bytes → Option D) (fuel : ℕ) (l : Lexer) (ts : List (Token D))
    → left l < fuel
    → Ends (loop stod fuel l ts)
unfolding loop
loop-Ends D stod zero l ts h = absurd (omega arith)
loop-Ends D stod (suc fuel) l ts h = elim (List-cases (skip_whitespace l).rest) [
  | inl e ↦ inr (_, _, loop_end stod fuel l ts e)
  | inr (c, r, e) ↦ elim (Outcome-cases (scan stod (skip_whitespace l))) [
    | inl thrown ↦ inl (loop_throws stod fuel l ts c r e thrown)
    | inr ((us, l'), s) ↦
        let less : left l' ≤ length r = rw s at (scan_le D stod (skip_whitespace l) c r e) in
        rw (loop_round stod fuel l ts c r us l' e s) (
          loop-Ends D stod fuel l' (ts ++ us)
            (omega (arith, less, skip_whitespace_le l, ap (length {A = ℕ}) e)))
  ]
]

-- `tokenize` always ends: with a list of tokens, or by the uncaught `std::out_of_range` of a number
-- that does not fit.
pub tokenize-Ends :
    (D : Type 0) (stod : Bytes → Option D) (source : Bytes) → Ends (tokenize stod source)
unfolding tokenize
tokenize-Ends D stod source = loop-Ends D stod (suc (length source)) (init source) [] (omega arith)
