-- ===== src/Semantic.antt =====
-- src/semantic: the type environment, the type checker and the borrow checker.
pub mod Compat
pub mod Infer
pub mod Env
pub mod Typeck
pub mod Borrowck
