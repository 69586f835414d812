-- ===== src/Storage.antt =====
-- The storage engine of storage/.
pub mod Mapped
pub mod Index
pub mod Segment
pub mod Wal
pub mod Tests
