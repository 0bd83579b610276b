-- ===== src/Index.antt =====
-- index/src: the immutable B+ tree: its nodes and their byte format, lookups, ranges, bulk builds and edits.
pub mod Error
pub mod Node
pub mod Tree
