-- ===== src/Lexer/Loop.antt =====
-- The loop of `tokenize`: its three kinds of rounds, the rule for its invariants, and that the
-- fuel is enough.
use aithon.Prelude.{
  ℕ, suc, zero, ◌≡◌, ◌∙◌, ◌⊎◌, refl, sym, ap, subst, inl, inr, Option, some, List, [], ◌∷◌, ◌++◌,
  Bytes,
}
use aithon.Token.{Token}
use aithon.Lexer.Cursor.{Lexer, skip_whitespace}
use aithon.Lexer.Literals.{Outcome, done, out_of_range}
use aithon.Lexer.Scan.{scan, loop, eof}

pub List-cases {ℓ} :
    {A : Type ℓ} (xs : List A) → (xs ≡ []) ⊎ ((x : A) × (r : List A) × (xs ≡ x ∷ r))
List-cases [] = inl refl
List-cases (x ∷ r) = inr (x, r, refl)

pub Outcome-cases {ℓ} : {A : Type ℓ} (o : Outcome A) → (o ≡ out_of_range) ⊎ ((a : A) × (o ≡ done a))
Outcome-cases out_of_range = inl refl
Outcome-cases (done a) = inr (a, refl)

module _ {D : Type 0} (stod : Bytes → Option D) where
  pub loop_end :
      (fuel : ℕ) (l : Lexer) (tokens : List (Token D))
      → (skip_whitespace l).rest ≡ []
      → loop stod (suc fuel) l tokens
        ≡ done (some (tokens ++ eof (skip_whitespace l) ∷ [], skip_whitespace l))
  unfolding loop
  loop_end fuel l tokens e = rw (e, loop)

  pub loop_round :
      (fuel : ℕ) (l : Lexer) (tokens : List (Token D)) (c : ℕ) (r : Bytes) (us : List (Token D))
      (l' : Lexer)
      → (skip_whitespace l).rest ≡ c ∷ r
      → scan stod (skip_whitespace l) ≡ done (us, l')
      → loop stod (suc fuel) l tokens ≡ loop stod fuel l' (tokens ++ us)
  unfolding loop
  loop_round fuel l tokens c r us l' e s = rw (e, s, loop)

  pub loop_throws :
      (fuel : ℕ) (l : Lexer) (tokens : List (Token D)) (c : ℕ) (r : Bytes)
      → (skip_whitespace l).rest ≡ c ∷ r
      → scan stod (skip_whitespace l) ≡ out_of_range
      → loop stod (suc fuel) l tokens ≡ out_of_range
  unfolding loop
  loop_throws fuel l tokens c r e s = rw (e, s, loop)

  -- An invariant that the rounds keep holds where the loop ends, which is at the end of the text.
  pub loop_inv :
      (J : Lexer → List (Token D) → Type 0)
      → ((l : Lexer) (ts : List (Token D)) → J l ts → J (skip_whitespace l) ts)
      → ((l : Lexer) (ts : List (Token D)) (c : ℕ) (r : Bytes) (us : List (Token D)) (l' : Lexer)
          → l.rest ≡ c ∷ r
          → scan stod l ≡ done (us, l')
          → J l ts
          → J l' (ts ++ us))
      → (fuel : ℕ) (l : Lexer) (ts : List (Token D)) (result : List (Token D)) (l' : Lexer) → J l ts
      → loop stod fuel l ts ≡ done (some (result, l'))
      → (us : List (Token D)) × J l' us × (result ≡ us ++ eof l' ∷ []) × (l'.rest ≡ [])
  unfolding loop
  loop_inv J skip round zero l ts result l' j e = absurd (cc)
  loop_inv J skip round (suc fuel) l ts result l' j e = elim (List-cases (skip_whitespace l).rest) [
    | inl end ↦
        let h = sym (loop_end fuel l ts end) ∙ e in
        let same : skip_whitespace l ≡ l' = cc h in
        let all : ts ++ eof (skip_whitespace l) ∷ [] ≡ result = cc h in
        (
          ts,
          subst (λ x. J x ts) same (skip l ts j),
          sym all ∙ ap (λ x. ts ++ eof x ∷ []) same,
          ap (λ (x : Lexer). x.rest) (sym same) ∙ end,
        )
    | inr (c, r, front) ↦ elim (Outcome-cases (scan stod (skip_whitespace l))) [
      | inl thrown ↦ absurd (cc (loop_throws fuel l ts c r front thrown))
      | inr ((us, l2), s) ↦
          loop_inv J skip round fuel l2 (ts ++ us) result l'
            (round (skip_whitespace l) ts c r us l2 front s (skip l ts j))
            (sym (loop_round fuel l ts c r us l2 front s) ∙ e)
    ]
  ]
