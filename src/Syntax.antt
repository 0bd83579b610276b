-- ===== src/Syntax.antt =====
-- syntax/src: the query language.
pub mod Token
pub mod Lexer
