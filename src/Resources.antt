-- ===== src/Resources.antt =====
-- resources: the HTTP handlers.
pub mod Cycles
pub mod Health
pub mod Control
