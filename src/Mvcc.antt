-- ===== src/Mvcc.antt =====
-- mvcc/src: versioned records, index manifests and snapshot transactions.
pub mod Error
pub mod Record
pub mod Prefix
pub mod State
pub mod Commit
pub mod Reclaim
pub mod Protocol
pub mod Manifest
pub mod Read
pub mod Transaction
pub mod Rebuild
