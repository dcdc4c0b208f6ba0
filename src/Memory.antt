-- ===== src/Memory.antt =====
-- src/memory: the arena, the pool of reusable containers, and the region annotations.
pub mod Arena
pub mod Pool
pub mod Region
