-- ===== src/Network.antt =====
-- The wire protocol of network/.
pub mod Frame
mod Tests
