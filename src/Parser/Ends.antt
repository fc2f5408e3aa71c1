-- ===== src/Parser/Ends.antt =====
-- How a parsing function ends: never for want of fuel, and with fewer tokens left than a bound.
use aithon.Prelude.{
  ℕ, ◌≤◌, ◌<◌, Bool, true, false, Bool-cases, Option, none, some, List, [], ◌∷◌, inl, inr, arith,
  length,
}
use aithon.Parser.{
  Tokens, Result, Report, ok, error, bad_variant_access, Parse, and_then, check, match, match_any,
  or_match, consume, found, skip_newlines, after_newline,
}
use aithon.Token as Token
use aithon.Token.{TokenType, Token}

pub data Ends {D A : Type 0} (n : ℕ) : Result D A → Type 0 where
  ends : (a : A) (ts : Tokens D) → length ts < n → Ends n (ok a ts)
  reported : (r : Report D) → Ends n (error r)
  threw : Ends n bad_variant_access

pub and_then-Ends :
    {D A B : Type 0} (n m : ℕ) (r : Result D A) (k : A → Parse D B)
    → Ends m r
    → ((a : A) (ts : Tokens D) → length ts < m → Ends n (k a ts))
    → Ends n (and_then r k)
unfolding and_then
and_then-Ends n m _ k (ends a ts lt) h = h a ts lt
and_then-Ends n m _ k (reported r) h = reported r
and_then-Ends n m _ k threw h = threw

-- What a match leaves is shorter.
abbrev pub Next : {D : Type 0} → ℕ → Option (Token D × Tokens D) → Type 0
Next n none = Unit
Next n (some (t, ts)) = length ts < n

abbrev pub NextAny : {D K : Type 0} → ℕ → Option (K × Token D × Tokens D) → Type 0
NextAny n none = Unit
NextAny n (some (k, t, ts)) = length ts < n

pub match-Next : {D : Type 0} (type : TokenType) (ts : Tokens D) → Next (length ts) (match type ts)
unfolding match
match-Next type [] = tt
match-Next type (t ∷ ts) = elim (Bool-cases (check type (t ∷ ts))) [
  | inl e ↦ rw e (omega arith)
  | inr e ↦ rw e tt
]

or_match-Next :
    {D K : Type 0} (n : ℕ) (k : K) (o : Option (Token D × Tokens D))
    (p : Option (K × Token D × Tokens D))
    → Next n o
    → NextAny n p
    → NextAny n (or_match k o p)
or_match-Next n k none p h i = i
or_match-Next n k (some (t, ts)) p h i = h

pub match_any-Next :
    {D K : Type 0} (table : List (TokenType × K)) (ts : Tokens D)
    → NextAny (length ts) (match_any table ts)
unfolding match_any
match_any-Next [] ts = tt
match_any-Next ((type, k) ∷ table) ts =
    or_match-Next (length ts) k (match type ts) (match_any table ts) (match-Next type ts)
      (match_any-Next table ts)

found-Ends :
    {D : Type 0} (n : ℕ) (type : TokenType) (ts : Tokens D) (o : Option (Token D × Tokens D))
    → Next n o
    → Ends n (found type ts o)
found-Ends n type ts none h = reported _
found-Ends n type ts (some (t, rest)) h = ends t rest h

pub consume-Ends :
    {D : Type 0} (type : TokenType) (ts : Tokens D) → Ends (length ts) (consume type ts)
unfolding consume
consume-Ends type ts = found-Ends (length ts) type ts (match type ts) (match-Next type ts)

-- Behind a token that must come.
pub then_consume :
    {D A : Type 0} (n : ℕ) (type : TokenType) (ts : Tokens D) (k : Token D → Parse D A)
    → ((t : Token D) (rest : Tokens D) → length rest < length ts → Ends n (k t rest))
    → Ends n (and_then (consume type ts) k)
then_consume n type ts k h =
    and_then-Ends n (length ts) (consume type ts) k (consume-Ends type ts) h

after_newline_le :
    {D : Type 0} (ts rest : Tokens D) (b : Bool) (n : ℕ)
    → length ts ≤ n
    → length rest ≤ n
    → length (after_newline ts rest b) ≤ n
after_newline_le ts rest true n h i = i
after_newline_le ts rest false n h i = h

pub skip_newlines_le : {D : Type 0} (ts : Tokens D) → length (skip_newlines ts) ≤ length ts
unfolding skip_newlines
skip_newlines_le [] = omega arith
skip_newlines_le (t ∷ ts) =
    after_newline_le (t ∷ ts) (skip_newlines ts) (check Token.newline (t ∷ ts)) _ (omega arith)
      (omega (arith, skip_newlines_le ts))
