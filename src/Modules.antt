-- ===== src/Modules.antt =====
-- src/module/mod.rs: the module loader.
pub mod Loader
