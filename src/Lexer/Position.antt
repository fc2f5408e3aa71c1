-- ===== src/Lexer/Position.antt =====
-- Where the lexer stands in the source: the text behind it, read backwards, fixes its counters.
use aithon.Prelude.{
  ℕ, ◌+◌, Bool, true, ◌&&◌, not, append-nil, ◌≡◌, ◌≢◌, refl, sym, ap, ◌∙◌, inl, inr, [], ◌∷◌, ◌++◌,
  Bytes, arith, length, drop, Bool-cases, ◌==◌, if◌then◌else◌, append_assoc,
}
use aithon.Token.{SourceLocation}
use aithon.Lexer.Cursor.{Lexer, init, advance, current_location, advance_while}

-- `past` is the text in front of a place, last byte first.
abbrev pub unread : Bytes → Bytes → Bytes
unread [] r = r
unread (c ∷ past) r = unread past (c ∷ r)

abbrev pub line_of : Bytes → ℕ
line_of [] = 1
line_of (c ∷ past) = if c == b'\n' then line_of past + 1 else line_of past

abbrev pub column_of : Bytes → ℕ
column_of [] = 1
column_of (c ∷ past) = if c == b'\n' then 1 else column_of past + 1

abbrev pub start_of : Bytes → ℕ
start_of [] = 0
start_of (c ∷ past) = if c == b'\n' then length past + 1 else start_of past

abbrev pub place : Bytes → SourceLocation
place past = record { line = line_of past; column = column_of past; offset = start_of past }

pub record Tracks (source past : Bytes) (l : Lexer) : Type 0 where
  pub splits : source ≡ unread past l.rest
  pub current_is : l.current ≡ length past
  pub line_is : l.line ≡ line_of past
  pub column_is : l.column ≡ column_of past
  pub start_is : l.line_start ≡ start_of past

pub init-Tracks : (source : Bytes) → Tracks source [] (init source)
unfolding init
init-Tracks source = ground arith

pub Tracks-place :
    {source past : Bytes} {l : Lexer} → Tracks source past l → current_location l ≡ place past
Tracks-place t = ground arith

pub advance-Tracks :
    {source past : Bytes} (l : Lexer) (c : ℕ) (r : Bytes)
    → l.rest ≡ c ∷ r
    → c ≢ b'\n'
    → Tracks source past l
    → Tracks source (c ∷ past) (advance l)
advance-Tracks l c r e ne t = record {
  splits = rw e (rw e at t.splits);
  current_is = ground arith;
  line_is = ground arith;
  column_is = ground arith;
  start_is = ground arith;
}

abbrev pub all_pass : (ℕ → Bool) → Bytes → Bool
all_pass test [] = true
all_pass test (c ∷ r) = test c && all_pass test r

abbrev pub stops : (ℕ → Bool) → Bytes → Bool
stops test [] = true
stops test (c ∷ r) = not (test c)

-- What a loop of `advance` did from the bytes `r` on: `taken` went to the output and is behind it.
pub record Advanced (source past : Bytes) (test : ℕ → Bool) (out r : Bytes) (result : Bytes × Lexer)
    : Type 0 where
  pub taken : Bytes
  pub output : result.0 ≡ out ++ taken
  pub splits : r ≡ taken ++ result.1.rest
  pub passed : all_pass test taken ≡ true
  pub stopped : stops test result.1.rest ≡ true
  pub tracks : Tracks source (unread taken past) result.1

pub advance_while-Advanced :
    (source : Bytes) (test : ℕ → Bool)
    → ((c : ℕ) → test c ≡ true → c ≢ b'\n')
    → (r past out : Bytes) (l : Lexer) → l.rest ≡ r
    → Tracks source past l
    → Advanced source past test out r (advance_while test r out l)
unfolding advance_while
advance_while-Advanced source test ok [] past out l e t = record {
  taken = [];
  output = sym (append-nil out);
  splits = sym e;
  passed = refl;
  stopped = rw e refl;
  tracks = t;
}
advance_while-Advanced source test ok (c ∷ r) past out l e t = elim (Bool-cases (test c)) [
  | inl hit ↦
      let ih =
        advance_while-Advanced source test ok r (c ∷ past) (out ++ c ∷ []) (advance l)
          (ap (drop 1) e) (advance-Tracks l c r e (ok c hit) t) in
      rw (hit, advance_while)
        (record {
          taken = c ∷ ih.taken;
          output = ih.output ∙ append_assoc out (c ∷ []) ih.taken;
          splits = ap (◌∷◌ c) ih.splits;
          passed = rw hit ih.passed;
          stopped = ih.stopped;
          tracks = ih.tracks;
        })
  | inr miss ↦
      rw (miss, advance_while)
        (record {
          taken = [];
          output = sym (append-nil out);
          splits = sym e;
          passed = refl;
          stopped = rw e (rw miss refl);
          tracks = t;
        })
]
