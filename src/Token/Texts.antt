-- ===== src/Token/Texts.antt =====
-- src/lexer/token.cpp: the names of the token types in messages.
use aithon.Prelude.{Bytes, codes}
use aithon.Token.{
  TokenType, integer, float, string, identifier, func, struct, class, if_, elif, else_, while, for,
  in_, return, break, continue, and, or, not, true_, false_, none_, lparen, rparen, lbrace, rbrace,
  lbracket, rbracket, equal, equal_equal, not_equal, less, greater, plus, minus, star, slash, colon,
  comma, dot, semicolon, less_equal, greater_equal, percent, double_slash, double_star, newline,
  end_of_file, error,
}

unfoldable pub token_type_to_string : TokenType → Bytes
token_type_to_string integer = codes "INTEGER"
token_type_to_string float = codes "FLOAT"
token_type_to_string string = codes "STRING"
token_type_to_string identifier = codes "IDENTIFIER"
token_type_to_string func = codes "'func'"
token_type_to_string struct = codes "'struct'"
token_type_to_string class = codes "'class'"
token_type_to_string if_ = codes "'if'"
token_type_to_string elif = codes "'elif'"
token_type_to_string else_ = codes "'else'"
token_type_to_string while = codes "'while'"
token_type_to_string for = codes "'for'"
token_type_to_string in_ = codes "'in'"
token_type_to_string return = codes "'return'"
token_type_to_string break = codes "'break'"
token_type_to_string continue = codes "'continue'"
token_type_to_string and = codes "'and'"
token_type_to_string or = codes "'or'"
token_type_to_string not = codes "'not'"
token_type_to_string true_ = codes "'True'"
token_type_to_string false_ = codes "'False'"
token_type_to_string none_ = codes "'None'"
token_type_to_string lparen = codes "'('"
token_type_to_string rparen = codes "')'"
token_type_to_string lbrace = codes "'{'"
token_type_to_string rbrace = codes "'}'"
token_type_to_string lbracket = codes "'['"
token_type_to_string rbracket = codes "']'"
token_type_to_string equal = codes "'='"
token_type_to_string equal_equal = codes "'=='"
token_type_to_string not_equal = codes "'!='"
token_type_to_string less = codes "'<'"
token_type_to_string greater = codes "'>'"
token_type_to_string plus = codes "'+'"
token_type_to_string minus = codes "'-'"
token_type_to_string star = codes "'*'"
token_type_to_string slash = codes "'/'"
token_type_to_string colon = codes "':'"
token_type_to_string comma = codes "','"
token_type_to_string dot = codes "'.'"
token_type_to_string semicolon = codes "';'"
token_type_to_string less_equal = codes "'<='"
token_type_to_string greater_equal = codes "'>='"
token_type_to_string percent = codes "'%'"
token_type_to_string double_slash = codes "'//'"
token_type_to_string double_star = codes "'**'"
token_type_to_string newline = codes "newline"
token_type_to_string end_of_file = codes "end of file"
token_type_to_string error = codes "error"
