-- ===== src/Validator/Lexical.antt =====
-- Strings and comments, read off a text byte by byte, and what src/validator/syntax_validator.cpp takes
-- for them.
use aithon.Prelude.{
  ℕ, zero, suc, ◌+◌, ◌-◌, ◌≤◌, ◌≡◌, refl, ap, ◌∙◌, Bool, true, false, not, ◌&&◌, ◌||◌, Option, none,
  some, List, [], ◌∷◌, Bytes, take, drop, arith, Bool-cases, inl, inr, ◌==◌, if◌then◌else◌,
}
use aithon.Validator.{
  newline, byte_at, Quotes, read_byte, read_bytes, inside, is_inside_string, line_start,
  comment_loop, is_inside_comment,
}
use aithon.Validator.Braces.{Brace, brace_of, brace_at}

pub data Place : Type 0 where
  code single_quoted double_quoted comment : Place

-- A string reaches from a quote to the next one of its kind, over newlines too, and a comment from a `#` in
-- no string to the end of the line. After a backslash that is no part of a comment, a quote opens and
-- closes nothing. Three quotes in a row are an empty string, and the start of one more.
pub record Spot : Type 0 where
  pub place : Place
  pub escaped : Bool

abbrev pub spot : Place → Bool → Spot
spot p e = record { place = p; escaped = e }

-- Behind a byte that no backslash stands before.
abbrev pub next_plain : Place → ℕ → Spot
next_plain code c =
    if c == b'\\'
    then spot code true
    else if c == b'\''
    then spot single_quoted false
    else if c == b'"'
    then spot double_quoted false
    else if c == b'#'
    then spot comment false
    else spot code false
next_plain single_quoted c =
    if c == b'\\'
    then spot single_quoted true
    else if c == b'\''
    then spot code false
    else spot single_quoted false
next_plain double_quoted c =
    if c == b'\\'
    then spot double_quoted true
    else if c == b'"'
    then spot code false
    else spot double_quoted false
next_plain comment c = if c == newline then spot code false else spot comment false

abbrev pub next_escaped : Place → ℕ → Spot
next_escaped code c = if c == b'#' then spot comment false else spot code false
next_escaped single_quoted c = spot single_quoted false
next_escaped double_quoted c = spot double_quoted false
next_escaped comment c = if c == newline then spot code false else spot comment false

abbrev pub next : Place → Bool → ℕ → Spot
next p false c = next_plain p c
next p true c = next_escaped p c

abbrev pub counted : Place → ℕ → Option Brace
counted code c = brace_of c
counted p c = none

abbrev pub prepend : Option Brace → List Brace → List Brace
prepend none bs = bs
prepend (some b) bs = b ∷ bs

-- The braces of a text that are in no string and no comment.
unfoldable pub braces_behind : Spot → Bytes → List Brace
braces_behind s [] = []
braces_behind s (c ∷ cs) = prepend (counted s.place c) (braces_behind (next s.place s.escaped c) cs)

abbrev pub braces : Bytes → List Brace
braces text = braces_behind (spot code false) text

abbrev pub allowed : Place → ℕ → Bool
allowed comment c = not (c == b'\\' || (c == b'\'' || c == b'"'))
allowed p c = true

unfoldable pub plain_behind : Spot → Bytes → Bool
plain_behind s [] = true
plain_behind s (c ∷ cs) = allowed s.place c && plain_behind (next s.place s.escaped c) cs

-- No quote and no backslash stands in a comment.
abbrev pub plain_comments : Bytes → Bool
plain_comments text = plain_behind (spot code false) text

-- The braces as the code finds them, from a position on.
abbrev pub braces_from : Bytes → ℕ → Bytes → List Brace
braces_from text i [] = []
braces_from text i (c ∷ cs) = prepend (brace_at text i c) (braces_from text (suc i) cs)

abbrev is_single : Place → Bool
is_single single_quoted = true
is_single p = false

abbrev is_double : Place → Bool
is_double double_quoted = true
is_double p = false

abbrev is_comment : Place → Bool
is_comment comment = true
is_comment p = false

abbrev quotes_of : Place → Bool → Quotes
quotes_of p e = record { in_single = is_single p; in_double = is_double p; escaped = e }

abbrev quotes_in : Spot → Quotes
quotes_in s = quotes_of s.place s.escaped

read_byte_next :
    (p : Place) (e : Bool) (c : ℕ)
    → allowed p c ≡ true
    → read_byte c (quotes_of p e) ≡ quotes_in (next p e c)
read_byte_next code true c h = ground arith
read_byte_next code false c h = ground arith
read_byte_next single_quoted true c h = ground arith
read_byte_next single_quoted false c h = ground arith
read_byte_next double_quoted true c h = ground arith
read_byte_next double_quoted false c h = ground arith
read_byte_next comment true c h = ground arith
read_byte_next comment false c h = ground arith

comment_next :
    (p : Place) (e : Bool) (c : ℕ)
    → (if c == newline
        then false
        else (is_comment p || (c == b'#' && not (inside (quotes_of p e)))))
      ≡ is_comment (next p e c).place
comment_next code true c = ground arith
comment_next code false c = ground arith
comment_next single_quoted true c = ground arith
comment_next single_quoted false c = ground arith
comment_next double_quoted true c = ground arith
comment_next double_quoted false c = ground arith
comment_next comment true c = ground arith
comment_next comment false c = ground arith

drop-suc : (i c : ℕ) (text cs : Bytes) → drop i text ≡ c ∷ cs → drop (suc i) text ≡ cs
drop-suc zero c [] cs e = absurd (ground arith)
drop-suc zero c (d ∷ text) cs e = ap (drop 1) e
drop-suc (suc i) c [] cs e = absurd (ground arith)
drop-suc (suc i) c (d ∷ text) cs e = drop-suc i c text cs e

byte_at-drop : (i c : ℕ) (text cs : Bytes) → drop i text ≡ c ∷ cs → byte_at text i ≡ c
byte_at-drop zero c [] cs e = absurd (ground arith)
byte_at-drop zero c (d ∷ text) cs e = ground arith
byte_at-drop (suc i) c [] cs e = absurd (ground arith)
byte_at-drop (suc i) c (d ∷ text) cs e = byte_at-drop i c text cs e

read_bytes-take :
    (i c : ℕ) (text cs : Bytes) (q : Quotes)
    → drop i text ≡ c ∷ cs
    → read_bytes (take (suc i) text) q ≡ read_byte c (read_bytes (take i text) q)
read_bytes-take zero c [] cs q e = absurd (ground arith)
read_bytes-take zero c (d ∷ text) cs q e =
    let same : d ≡ c = ground arith in ap (λ x. read_byte x q) same
read_bytes-take (suc i) c [] cs q e = absurd (ground arith)
read_bytes-take (suc i) c (d ∷ text) cs q e = read_bytes-take i c text cs (read_byte d q) e

line_start_le : (text : Bytes) (i : ℕ) → line_start text i ≤ i
unfolding line_start
line_start_le text zero = omega arith
line_start_le text (suc i) = ground (arith, line_start_le text i)

comment_loop-suc :
    (text : Bytes) (i n : ℕ)
    → comment_loop text i (suc n) ≡ (
        comment_loop text i n
        || (byte_at text (i + n) == b'#' && not (is_inside_string text (i + n))))
comment_loop-suc text i zero = let same : i + 0 ≡ i = omega arith in rw same (ground arith)
comment_loop-suc text i (suc n) =
    let same : i + suc n ≡ suc i + n = omega arith in
    rw same (ground (arith, comment_loop-suc text (suc i) n))

is_inside_comment-suc :
    (text : Bytes) (i : ℕ)
    → is_inside_comment text (suc i) ≡ (
        if byte_at text i == newline
        then false
        else (is_inside_comment text i
            || (byte_at text i == b'#' && not (is_inside_string text i))))
unfolding is_inside_comment line_start
is_inside_comment-suc text i = elim (Bool-cases (byte_at text i == newline)) [
  | inl hit ↦ let none_left : suc i - suc i ≡ 0 = omega arith in rw hit (rw none_left refl)
  | inr miss ↦
      let n : ℕ = i - line_start text i in
      let le = line_start_le text i in
      let more : suc i - line_start text i ≡ suc n = omega arith in
      let back : line_start text i + n ≡ i = omega arith in
      rw miss (rw more (rw (comment_loop-suc text (line_start text i) n, back) refl))
]

brace_where :
    (p : Place) (e : Bool) (c : ℕ)
    → (if inside (quotes_of p e) || is_comment p then none else brace_of c) ≡ counted p c
brace_where code e c = refl
brace_where single_quoted e c = refl
brace_where double_quoted e c = refl
brace_where comment e c = refl

brace_at-counted :
    (text : Bytes) (i c : ℕ) (p : Place) (e : Bool)
    → read_bytes (take i text) (quotes_of code false) ≡ quotes_of p e
    → is_inside_comment text i ≡ is_comment p
    → brace_at text i c ≡ counted p c
unfolding brace_at is_inside_string
brace_at-counted text i c p e quotes comments = rw (quotes, comments) (brace_where p e c)

next_quotes :
    (text : Bytes) (i c : ℕ) (cs : Bytes) (p : Place) (e : Bool)
    → drop i text ≡ c ∷ cs
    → read_bytes (take i text) (quotes_of code false) ≡ quotes_of p e
    → allowed p c ≡ true
    → read_bytes (take (suc i) text) (quotes_of code false) ≡ quotes_in (next p e c)
next_quotes text i c cs p e at_i quotes ok =
    read_bytes-take i c text cs (quotes_of code false) at_i
    ∙ ap (read_byte c) quotes
    ∙ read_byte_next p e c ok

next_comment :
    (text : Bytes) (i c : ℕ) (cs : Bytes) (p : Place) (e : Bool)
    → drop i text ≡ c ∷ cs
    → read_bytes (take i text) (quotes_of code false) ≡ quotes_of p e
    → is_inside_comment text i ≡ is_comment p
    → is_inside_comment text (suc i) ≡ is_comment (next p e c).place
unfolding is_inside_string
next_comment text i c cs p e at_i quotes comments =
    rw (is_inside_comment-suc text i, byte_at-drop i c text cs at_i, comments, quotes)
      (comment_next p e c)

and-true : (a b : Bool) → (a && b) ≡ true → (a ≡ true) × (b ≡ true)
and-true true b h = (refl, h)
and-true false b h = absurd (ground arith)

braces_from_behind :
    (text : Bytes) (i : ℕ) (cs : Bytes) (p : Place) (e : Bool)
    → drop i text ≡ cs
    → read_bytes (take i text) (quotes_of code false) ≡ quotes_of p e
    → is_inside_comment text i ≡ is_comment p
    → plain_behind (spot p e) cs ≡ true
    → braces_from text i cs ≡ braces_behind (spot p e) cs
unfolding braces_behind plain_behind
braces_from_behind text i [] p e at_i quotes comments plain = refl
braces_from_behind text i (c ∷ cs) p e at_i quotes comments plain =
    let both = and-true (allowed p c) _ plain in
    let rest =
      braces_from_behind text (suc i) cs (next p e c).place (next p e c).escaped
        (drop-suc i c text cs at_i) (next_quotes text i c cs p e at_i quotes both.0)
        (next_comment text i c cs p e at_i quotes comments) both.1 in
    rw (brace_at-counted text i c p e quotes comments, rest) refl

-- Where no quote and no backslash stands in a comment, the code finds the braces that are in no string
-- and no comment.
pub braces_from_lem :
    (text : Bytes) → plain_comments text ≡ true → braces_from text 0 text ≡ braces text
unfolding is_inside_comment line_start
braces_from_lem text plain = braces_from_behind text 0 text code false refl refl refl plain
