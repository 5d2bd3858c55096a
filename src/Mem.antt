-- ===== src/Mem.antt =====
-- The mem package.
pub mod StaticString
