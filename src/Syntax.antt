-- ===== src/Syntax.antt =====
-- src/syntax: type expressions, the syntax tree, the substitution of type arguments.
pub mod Types
pub mod Ast
pub mod Items
pub mod Substitute
pub mod Token
pub mod Lexer
pub mod Parser
