-- ===== src/Validator/Tests.antt =====
-- Texts that src/validator/syntax_validator.cpp checks.
use aithon.Prelude.{
  ℕ, suc, ◌+◌, ◌≤◌, ◌<◌, ◌≡◌, ◌↔◌, refl, subst, Bool, true, false, Option, none, some, List, [],
  ◌∷◌, Bytes, codes, length, arith, if◌then◌else◌,
}
use aithon.Validator.{ValidationError, unmatched_brace, unclosed_brace, error_at}
use aithon.Validator.Lexical.{braces, braces_behind, plain_behind}
use aithon.Validator.Balanced.{Balanced, check_unmatched_braces_iff}
use aithon.Validator.Braces.{opening, closing, check_unmatched_braces}
use aithon.Validator.Indentation.{starts_with, check_indentation_blocks}
use aithon.Validator.Patterns.{
  Pattern, definition, check_def_keyword, check_colon_terminators, check_missing_braces,
}
use aithon.Validator.Searches.{Matches, Verdict, validate-Verdict}
use aithon.Validator.Validate.{validate}

-- A brace in a string and one in a comment do not count.
abbrev quoted : Bytes
quoted = codes "{ \"}\" } # {"

quoted_passes : check_unmatched_braces quoted [] ≡ []
unfolding check_unmatched_braces
quoted_passes = refl

quoted-braces : braces quoted ≡ opening ∷ closing ∷ []
unfolding braces_behind
quoted-braces = refl

abbrev crossed : Bytes
crossed = codes "}{"

crossed_fails :
    check_unmatched_braces crossed []
    ≡ error_at unmatched_brace crossed 0 ∷ error_at unclosed_brace crossed 1 ∷ []
unfolding check_unmatched_braces
crossed_fails = refl

abbrev nothing_before : List ValidationError
nothing_before = []

check_unmatched_braces_iff_example :
    (check_unmatched_braces quoted [] ≡ []) ↔ (([] ≡ nothing_before) × Balanced (braces quoted))
unfolding plain_behind
check_unmatched_braces_iff_example = check_unmatched_braces_iff quoted [] refl

-- A search that knows of one pattern only, and takes `def` for it.
abbrev later : Option (ℕ × ℕ) → Option (ℕ × ℕ)
later none = none
later (some (position, size)) = some (suc position, size)

unfoldable find_def : Bytes → Option (ℕ × ℕ)
unfolding starts_with
find_def [] = none
find_def (c ∷ cs) =
    let rest = later (find_def cs) in
    if starts_with (codes "def") (c ∷ cs) then some (0, 3) else rest

abbrev search_def : Pattern → Bytes → Option (ℕ × ℕ)
search_def definition text = find_def text
search_def p text = none

starts_with_le : (start text : Bytes) → starts_with start text ≡ true → length start ≤ length text
unfolding starts_with
starts_with_le [] text e = omega arith
starts_with_le (b ∷ start) [] e = ground arith
starts_with_le (b ∷ start) (c ∷ text) e = ground (arith, starts_with_le start text)

abbrev Within : Bytes → Option (ℕ × ℕ) → Type 0
Within text none = Unit
Within text (some (position, size)) = (0 < size) × (position + size ≤ length text)

Within-either :
    (c : ℕ) (cs : Bytes) (starts : Bool) (o : Option (ℕ × ℕ))
    → starts_with (codes "def") (c ∷ cs) ≡ starts
    → Within cs o
    → Within (c ∷ cs) (if starts then some (0, 3) else later o)
Within-either c cs true o e w = (omega arith, starts_with_le (codes "def") (c ∷ cs) e)
Within-either c cs false none e w = tt
Within-either c cs false (some (position, size)) e w = (w.0, omega (arith, w.1))

find_def-Within : (text : Bytes) → Within text (find_def text)
unfolding find_def
find_def-Within [] = tt
find_def-Within (c ∷ cs) =
    Within-either c cs (starts_with (codes "def") (c ∷ cs)) (find_def cs) refl (find_def-Within cs)

search_def-Matches : Matches search_def
search_def-Matches definition text position size e = subst (Within text) e (find_def-Within text)
search_def-Matches _ text position size e = absurd (ground arith)

abbrev with_def : Bytes
with_def = codes "def f() { }"

validate-Verdict_example :
    Verdict with_def
      (check_def_keyword search_def with_def)
      (check_colon_terminators search_def with_def)
      (check_indentation_blocks with_def)
      (check_missing_braces search_def with_def)
      (validate search_def with_def)
unfolding plain_behind
validate-Verdict_example = validate-Verdict search_def search_def-Matches with_def refl

-- An apostrophe in a comment opens a string that goes on to the end of the text, so that a brace behind
-- it is not checked.
abbrev apostrophe : Bytes
apostrophe = codes "# don't\n}"

apostrophe_passes : check_unmatched_braces apostrophe [] ≡ []
unfolding check_unmatched_braces
apostrophe_passes = refl

-- So does one after a triple-quoted string with a quote in it.
abbrev tripled : Bytes
tripled = codes "s = \"\"\"a\"b\"\"\"\n}"

tripled_passes : check_unmatched_braces tripled [] ≡ []
unfolding check_unmatched_braces
tripled_passes = refl
