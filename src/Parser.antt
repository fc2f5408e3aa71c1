-- ===== src/Parser.antt =====
-- src/parser/parser.cpp and include/parser/parser.h: what the parsing functions share. The state is
-- the list of the tokens from `current_` on; a `match` hands on the token that `previous()` then is.
-- The tokens end with END_OF_FILE, which no function passes, so that `current()` is in range; on the
-- empty list, which does not come up, the parser is at the end.
pub mod Grammar
pub mod Expr
pub mod Stmt
pub mod Block
pub mod Ends
pub mod ExprEnds
pub mod DeclEnds
pub mod StmtEnds
pub mod Total
pub mod Reads
pub mod Levels
pub mod Print
pub mod Operations
pub mod Sequences
pub mod Atoms
pub mod Postfixes
pub mod RoundTrip
mod Tests
use aithon.Prelude.{
  ℕ, ◌==◌, Bool, true, false, not, ◌&&◌, Option, none, some, List, [], ◌∷◌, Bytes, if◌then◌else◌,
}
use aithon.Token.{TokenType, Token, end_of_file, newline}
use aithon.Token.Tags.{same_type}

abbrev pub Tokens : Type 0 → Type 0
Tokens D = List (Token D)

-- A message to the error reporter, with the tokens from the current one on.
pub data Report (D : Type 0) : Type 0 where
  expected : TokenType → Tokens D → Report D
  unexpected : Tokens D → Report D
  invalid_target : Tokens D → Report D
  expected_member : Tokens D → Report D
  field_needs_type : Bytes → Tokens D → Report D

-- How a call ends: with a value and the tokens left; by the exception that follows a report; or by
-- the one of `std::get` on a token whose value is of another type.
pub data Result (D A : Type 0) : Type 0 where
  ok : A → Tokens D → Result D A
  error : Report D → Result D A
  bad_variant_access : Result D A
  out_of_fuel : Result D A

abbrev pub Parse : Type 0 → Type 0 → Type 0
Parse D A = Tokens D → Result D A

module _ {D A B : Type 0} where
  unfoldable pub and_then : Result D A → (A → Parse D B) → Result D B
  and_then (ok a ts) k = k a ts
  and_then (error r) k = error r
  and_then bad_variant_access k = bad_variant_access
  and_then out_of_fuel k = out_of_fuel

abbrev pub pure : {D A : Type 0} → A → Parse D A
pure a ts = ok a ts

abbrev pub type_of : {D : Type 0} → Tokens D → TokenType
type_of [] = end_of_file
type_of (t ∷ ts) = t.type

abbrev pub is_at_end : {D : Type 0} → Tokens D → Bool
is_at_end ts = same_type (type_of ts) end_of_file

unfoldable pub check : {D : Type 0} → TokenType → Tokens D → Bool
unfolding same_type
check type ts = not (is_at_end ts) && same_type (type_of ts) type

unfoldable pub match : {D : Type 0} → TokenType → Tokens D → Option (Token D × Tokens D)
unfolding check
match type [] = none
match type (t ∷ ts) = if check type (t ∷ ts) then some (t, ts) else none

abbrev pub or_match :
    {D K : Type 0}
    → K
    → Option (Token D × Tokens D)
    → Option (K × Token D × Tokens D)
    → Option (K × Token D × Tokens D)
or_match k (some (t, ts)) other = some (k, t, ts)
or_match k none other = other

-- The `match` of several types, or several `match`es one after the other, in order.
unfoldable pub match_any :
    {D K : Type 0} → List (TokenType × K) → Tokens D → Option (K × Token D × Tokens D)
unfolding match
match_any [] ts = none
match_any ((type, k) ∷ table) ts = or_match k (match type ts) (match_any table ts)

abbrev pub found :
    {D : Type 0} → TokenType → Tokens D → Option (Token D × Tokens D) → Result D (Token D)
found type ts (some (t, rest)) = ok t rest
found type ts none = error (expected type ts)

-- The token consumed.
unfoldable pub consume : {D : Type 0} → TokenType → Parse D (Token D)
unfolding match
consume type ts = found type ts (match type ts)

abbrev pub after_newline : {D : Type 0} → Tokens D → Tokens D → Bool → Tokens D
after_newline ts rest true = rest
after_newline ts rest false = ts

unfoldable pub skip_newlines : {D : Type 0} → Tokens D → Tokens D
unfolding check
skip_newlines [] = []
skip_newlines (t ∷ ts) = after_newline (t ∷ ts) (skip_newlines ts) (check newline (t ∷ ts))

abbrev pub skipping : {D A : Type 0} → Parse D A → Parse D A
skipping p ts = p (skip_newlines ts)
