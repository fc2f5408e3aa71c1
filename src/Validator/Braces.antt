-- ===== src/Validator/Braces.antt =====
-- src/validator/syntax_validator.cpp, check_unmatched_braces.
use mathlib.Core.List.{reverse}
use aithon.Prelude.{
  ℕ, suc, Option, none, some, List, [], ◌∷◌, ◌++◌, map, Bytes, ◌==◌, if◌then◌else◌,
}
use aithon.Validator.{
  unmatched_brace, unclosed_brace, ValidationError, skipped, error_at, is_inside_string,
  is_inside_comment,
}

pub data Brace : Type 0 where
  opening closing : Brace

abbrev pub brace_of : ℕ → Option Brace
brace_of c = if c == b'{' then some opening else if c == b'}' then some closing else none

-- The brace at a position that is in no string and no comment.
unfoldable pub brace_at : Bytes → ℕ → ℕ → Option Brace
unfolding is_inside_string is_inside_comment
brace_at text i c = if skipped text i then none else brace_of c

-- `open_braces` has the last one first.
abbrev pub next_open : Option Brace → ℕ → List ℕ → List ℕ
next_open none i open_braces = open_braces
next_open (some opening) i open_braces = i ∷ open_braces
next_open (some closing) i [] = []
next_open (some closing) i (p ∷ open_braces) = open_braces

abbrev pub reported : Bytes → Option Brace → ℕ → List ℕ → List ValidationError
reported text (some closing) i [] = error_at unmatched_brace text i ∷ []
reported text o i open_braces = []

-- The bytes from a position on: the braces left open, and the errors.
unfoldable pub brace_loop : Bytes → ℕ → Bytes → List ℕ → List ℕ × List ValidationError
unfolding brace_at
brace_loop text i [] open_braces = (open_braces, [])
brace_loop text i (c ∷ cs) open_braces =
    let o = brace_at text i c in
    let r = brace_loop text (suc i) cs (next_open o i open_braces) in
    (r.0, reported text o i open_braces ++ r.1)

abbrev pub unclosed : Bytes → List ℕ → List ValidationError
unclosed text open_braces = map (error_at unclosed_brace text) (reverse open_braces)

unfoldable pub check_unmatched_braces : Bytes → List ValidationError → List ValidationError
unfolding brace_loop
check_unmatched_braces text errors =
    let r = brace_loop text 0 text [] in errors ++ (r.1 ++ unclosed text r.0)
