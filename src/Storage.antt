-- ===== src/Storage.antt =====
-- storage/src: pages and their byte format.
pub mod Error
pub mod Page
pub mod ByteLru
pub mod BufferPool
pub mod Log
pub mod Wal
pub mod DataFile
pub mod Store
