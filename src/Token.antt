-- ===== src/Token.antt =====
-- include/lexer/token.h: the tokens that the lexer hands to the parser.
pub mod Texts
pub mod Tags
use Prim.Native.Nat.{ℕ}
use aithon.Prelude.{Bytes}

pub data TokenType : Type 0 where
  integer float string true_ false_ none_ : TokenType
  identifier func struct class if_ elif else_ while for in_ return break continue : TokenType
  and or not : TokenType
  plus minus star slash percent double_slash double_star : TokenType
  equal equal_equal not_equal less less_equal greater greater_equal : TokenType
  lparen rparen lbrace rbrace lbracket rbracket comma colon dot semicolon : TokenType
  newline end_of_file error : TokenType

pub TokenType-discrete : Discrete TokenType
TokenType-discrete = hlevel

-- `offset` is what the lexer puts there: where the current line starts.
pub record SourceLocation : Type 0 where
  pub line : ℕ
  pub column : ℕ
  pub offset : ℕ

-- The variant `long long | double | std::string`, over the type `D` of doubles.
pub data Value (D : Type 0) : Type 0 where
  long_long : ℕ → Value D
  double : D → Value D
  text : Bytes → Value D

pub record Token (D : Type 0) : Type 0 where
  pub type : TokenType
  pub lexeme : Bytes
  pub location : SourceLocation
  pub value : Value D
