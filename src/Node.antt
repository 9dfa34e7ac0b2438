-- ===== src/Node.antt =====
-- The node agent: the assignments that a provider works on.
pub mod Inflight
pub mod Kept
mod Tests
