-- ===== src/Package.antt =====
-- src/package/mod.rs: the package commands.
pub mod Deps
pub mod Spec
pub mod Commands
pub mod Manifest
mod Tests
