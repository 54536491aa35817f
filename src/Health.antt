-- ===== src/Health.antt =====
-- The health monitor (package health).
pub mod RingBuf
pub mod Election
