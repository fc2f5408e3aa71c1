-- ===== src/Lexer/Tests.antt =====
-- Runs of the lexer, and its theorems at concrete sources.
use aithon.Prelude.{
  ◌≡◌, refl, Option, some, List, [], ◌∷◌, ◌++◌, Bytes, bytes_eq, codes, map, All, inl,
}
use aithon.Token.{
  Token, identifier, equal, integer, end_of_file, newline, string, double_star, text,
}
use aithon.Lexer.Cursor.{Lexer, init}
use aithon.Token.Texts.{token_type_to_string}
use aithon.Lexer.Words.{word_type-Named}
use aithon.Lexer.Literals.{word_type, Outcome, done, out_of_range, make_string}
use aithon.Lexer.Scan.{tokenize, eof}
use aithon.Lexer.Strings.{no_splice}
use aithon.Lexer.Located.{Located}
use aithon.Lexer.Locations.{tokenize-Located}
use aithon.Lexer.Progress.{Ends, tokenize-Ends}
use aithon.Lexer.Shape.{NotEnd, tokenize_shape}
use aithon.Lexer.Quote.{escape, make_string-escape}

abbrev Run : Type 0
Run = Outcome (Option (List (Token Bytes) × Lexer))

abbrev run : Bytes → Run
run = tokenize some

abbrev tokens_of : Run → List (Token Bytes)
tokens_of (done (some (ts, l))) = ts
tokens_of _ = []

abbrev state_of : Run → Lexer
state_of (done (some (ts, l))) = l
state_of _ = init []

abbrev sample : Bytes
sample = codes "x = 1 ** y # c\n 'a\\n'"

sample_types :
    map (λ (t : Token Bytes). t.type) (tokens_of (run sample))
    ≡ identifier ∷ equal ∷ integer ∷ double_star ∷ identifier ∷ newline ∷ string ∷ end_of_file ∷ []
unfolding tokenize
sample_types = refl

-- 9223372036854775808 is one too many for `std::stoll`.
too_large : run (codes "x = 9223372036854775808") ≡ out_of_range
unfolding tokenize
too_large = refl

-- A backslash before a newline hides the newline from the line counter: the token `y` stands on
-- line 2, and its location says line 1.
spliced : Bytes
spliced = codes "'a\\\nb' y"

spliced_lines :
    map (λ (t : Token Bytes). t.location.line) (tokens_of (run spliced)) ≡ 1 ∷ 1 ∷ 1 ∷ []
unfolding tokenize spliced
spliced_lines = refl

tokenize-Located_example : All (Located sample) (tokens_of (run sample))
unfolding tokenize no_splice
tokenize-Located_example =
    tokenize-Located Bytes some sample (tokens_of (run sample)) (state_of (run sample)) refl refl

tokenize-Ends_example : Ends (run sample)
tokenize-Ends_example = tokenize-Ends Bytes some sample

tokenize_shape_example :
    (us : List (Token Bytes)) × (tokens_of (run sample) ≡ us ++ eof (state_of (run sample)) ∷ [])
    × All (λ (t : Token Bytes). NotEnd t.type) us
    × ((state_of (run sample)).rest ≡ [])
unfolding tokenize
tokenize_shape_example =
    tokenize_shape Bytes some sample (tokens_of (run sample)) (state_of (run sample)) refl

abbrev said : Lexer
said = init (codes "say \\\"hi\\\"\\n\" + x")

make_string-escape_example :
    ((make_string {D = Bytes} b'"' said).0.value ≡ text (codes "say \"hi\"\n"))
    × ((make_string {D = Bytes} b'"' said).1.rest ≡ codes " + x")
unfolding init escape
make_string-escape_example =
    make_string-escape Bytes b'"' (codes "say \"hi\"\n") (codes " + x") said (inl refl) (λ e. cc)
      refl

-- The keyword "while" is named "'while'".
while_named : token_type_to_string (word_type (codes "while")) ≡ codes "'while'"
unfolding word_type bytes_eq
while_named = word_type-Named (codes "while") (λ e. cc)
