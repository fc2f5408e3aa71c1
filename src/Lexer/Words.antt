-- ===== src/Lexer/Words.antt =====
-- The keywords as the lexer reads them, and as messages name them.
use aithon.Prelude.{
  ◌≡◌, ◌≢◌, ◌∙◌, refl, sym, ap, inl, inr, Bool-cases, Option-cases, some, List, [], ◌∷◌, ◌++◌, All,
  Bytes, codes, bytes_eq, bytes_eq_iff,
}
use aithon.Lexer.Literals.{keywords, find_keyword, word_type}
use aithon.Token.{TokenType, identifier}
use aithon.Token.Texts.{token_type_to_string}

-- A text between single quotes.
abbrev pub quoted : Bytes → Bytes
quoted w = codes "'" ++ w ++ codes "'"

abbrev Named : Bytes × TokenType → Type 0
Named (w, t) = token_type_to_string t ≡ quoted w

find_keyword-Named :
    (w : Bytes) (t : TokenType) (table : List (Bytes × TokenType))
    → All Named table
    → find_keyword w table ≡ some t
    → Named (w, t)
unfolding find_keyword
find_keyword-Named w t [] h = λ e. absurd (cc)
find_keyword-Named w t ((k, u) ∷ table) h = elim (Bool-cases (bytes_eq k w)) [
  | inl e ↦
      rw (e, find_keyword)
        (λ f.
          let same_type : u ≡ t = cc in
          sym (ap token_type_to_string same_type) ∙ (h.0 ∙ ap quoted ((bytes_eq_iff k w).0 e)))
  | inr e ↦ rw (e, find_keyword) (find_keyword-Named w t table h.1)
]

keywords-Named : All Named keywords
unfolding token_type_to_string
keywords-Named = (
  refl,
  (
    refl,
    (
      refl,
      (
        refl,
        (
          refl,
          (
            refl,
            (
              refl,
              (
                refl,
                (refl, (refl, (refl, (refl, (refl, (refl, (refl, (refl, (refl, (refl, tt)))))))))),
              ),
            ),
          ),
        ),
      ),
    ),
  ),
)

-- A word that the lexer takes for a keyword is named in messages by the word itself, in quotes.
pub word_type-Named :
    (w : Bytes) → word_type w ≢ identifier → token_type_to_string (word_type w) ≡ quoted w
unfolding word_type
word_type-Named w keyword = elim (Option-cases (find_keyword w keywords)) [
  | inl e ↦ absurd (keyword (rw e refl))
  | inr (t, e) ↦ rw e (find_keyword-Named w t keywords keywords-Named e)
]
