-- ===== src/Lexer.antt =====
-- src/lexer/lexer.cpp and include/lexer/lexer.h: from the bytes of a source text to its tokens.
pub mod Cursor
pub mod Literals
pub mod Literal
pub mod Scan
pub mod Position
pub mod Strings
pub mod Loop
pub mod Progress
pub mod Shape
pub mod Quote
pub mod Located
pub mod Locations
pub mod Words
mod Tests
