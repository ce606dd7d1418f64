-- ===== src/Lexer.antt =====
-- crates/plat-lexer: the lexer.
pub mod Token
pub mod Chars
pub mod State
pub mod Strings
pub mod Numbers
pub mod Tokenize
pub mod Moves
pub mod Roundtrip
mod Examples
