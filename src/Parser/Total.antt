-- ===== src/Parser/Total.antt =====
-- The results of `parse`.
use aithon.Prelude.{ℕ, zero, suc, ◌+◌, ◌*◌, ◌<◌, ◌≡◌, refl, Bool, true, false, arith, length}
use aithon.Parser.{
  Tokens, Result, Report, ok, error, bad_variant_access, Parse, and_then, skip_newlines, is_at_end,
}
use aithon.Parser.Block.{parse_loop, parse}
use aithon.Parser.Ends.{Ends, ends, skip_newlines_le}
use aithon.Parser.StmtEnds.{statement-Ends}

-- `parse` has a module and is at the end of the tokens, or has reported an error, or an exception
-- of `std::get` has left it.
pub data Parsed {D A : Type 0} : Result D A → Type 0 where
  complete : (a : A) (ts : Tokens D) → is_at_end ts ≡ true → Parsed (ok a ts)
  reported : (r : Report D) → Parsed (error r)
  threw : Parsed bad_variant_access

and_then-Parsed :
    {D A B : Type 0} (m : ℕ) (r : Result D A) (k : A → Parse D B)
    → Ends m r
    → ((a : A) (ts : Tokens D) → length ts < m → Parsed (k a ts))
    → Parsed (and_then r k)
unfolding and_then
and_then-Parsed m _ k (ends a ts lt) h = h a ts lt
and_then-Parsed m _ k (Ends.reported r) h = Parsed.reported r
and_then-Parsed m _ k Ends.threw h = Parsed.threw

Parsed-map :
    {D A B : Type 0} (g : A → B) (r : Result D A)
    → Parsed r
    → Parsed (and_then r (λ a ts. ok (g a) ts))
unfolding and_then
Parsed-map g _ (complete a ts e) = complete (g a) ts e
Parsed-map g _ (Parsed.reported r) = Parsed.reported r
Parsed-map g _ Parsed.threw = Parsed.threw

parse_loop-Parsed :
    {D : Type 0} (f : ℕ) (done : Bool) (ts : Tokens D)
    → 40 * length ts + 27 < f
    → is_at_end ts ≡ done
    → Parsed (parse_loop f done ts)
unfolding parse_loop
parse_loop-Parsed zero done ts b e = absurd (omega arith)
parse_loop-Parsed (suc f) true ts b e = complete _ ts e
parse_loop-Parsed (suc f) false ts b e =
    and_then-Parsed (length ts) _ _ (statement-Ends (length ts) f ts (omega arith) (omega arith))
      λ s rest lt. Parsed-map _ _ (
        parse_loop-Parsed f (is_at_end (skip_newlines rest)) (skip_newlines rest)
          (omega (arith, skip_newlines_le rest)) refl)

-- On any list of tokens `parse` ends: with a module when it has come to the end of the tokens, with
-- a report, or by the exception that `std::get` throws. The fuel, 40 units for each token and 40
-- more, never runs out.
pub parse-Parsed : {D : Type 0} (ts : Tokens D) → Parsed (parse ts)
unfolding parse
parse-Parsed ts =
    parse_loop-Parsed _ (is_at_end (skip_newlines ts)) (skip_newlines ts)
      (omega (arith, skip_newlines_le ts)) refl
