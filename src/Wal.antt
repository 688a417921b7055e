-- ===== src/Wal.antt =====
-- The write-ahead log (src/storage/dazzle_db/wal).
pub mod Record
pub mod Reader
pub mod Writer
