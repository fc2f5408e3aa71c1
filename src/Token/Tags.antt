-- ===== src/Token/Tags.antt =====
-- The numbers of the enumerators, by which two token types are compared.
use aithon.Prelude.{ℕ, ◌==◌, Bool}
use aithon.Token.{
  TokenType, integer, float, string, true_, false_, none_, identifier, func, struct, class, if_,
  elif, else_, while, for, in_, return, break, continue, and, or, not, plus, minus, star, slash,
  percent, double_slash, double_star, equal, equal_equal, not_equal, less, less_equal, greater,
  greater_equal, lparen, rparen, lbrace, rbrace, lbracket, rbracket, comma, colon, dot, semicolon,
  newline, end_of_file, error,
}

unfoldable pub tag : TokenType → ℕ
tag integer = 0
tag float = 1
tag string = 2
tag true_ = 3
tag false_ = 4
tag none_ = 5
tag identifier = 6
tag func = 7
tag struct = 8
tag class = 9
tag if_ = 10
tag elif = 11
tag else_ = 12
tag while = 13
tag for = 14
tag in_ = 15
tag return = 16
tag break = 17
tag continue = 18
tag and = 19
tag or = 20
tag not = 21
tag plus = 22
tag minus = 23
tag star = 24
tag slash = 25
tag percent = 26
tag double_slash = 27
tag double_star = 28
tag equal = 29
tag equal_equal = 30
tag not_equal = 31
tag less = 32
tag less_equal = 33
tag greater = 34
tag greater_equal = 35
tag lparen = 36
tag rparen = 37
tag lbrace = 38
tag rbrace = 39
tag lbracket = 40
tag rbracket = 41
tag comma = 42
tag colon = 43
tag dot = 44
tag semicolon = 45
tag newline = 46
tag end_of_file = 47
tag error = 48

unfoldable pub same_type : TokenType → TokenType → Bool
unfolding tag
same_type a b = tag a == tag b
