-- ===== src/Server.antt =====
-- The server of cmd/node/main.go.
pub mod State
pub mod Start
pub mod Client
pub mod Http
pub mod Telemetry
pub mod Latency
pub mod Commit
mod Tests
