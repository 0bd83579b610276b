-- ===== src/Lib.antt =====
-- QuantaDB: a multiversion key-value database over pages, in Rust crates.
--
-- The storage crate keeps pages of 8192 bytes, the index crate a B+ tree of pages, and the mvcc
-- crate transactions over both. A commit is validated under the lock of the shared state
-- (`prepare_commit`), written to storage without the lock, and published under the lock again
-- (`finish_prepared`); a watermark makes commits visible in timestamp order; a background rebuild
-- publishes index generations and reclaims versions that they cover.
--
--   Prelude and its children: the library names that the modules share, Boolean tests, lists, maps
--     in key order, results.
--   Bytes: byte buffers, the little-endian fields and slice copies of every format.
--   Storage.Page: storage/src/page.rs. Storage.Error: storage/src/error.rs.
--   Storage.ByteLru: storage/src/byte_lru.rs. Storage.BufferPool: storage/src/buffer_pool.rs, over
--     the store as an interface.
--   Storage.Log, Storage.Wal: storage/src/wal.rs, the records and their scan, then the segments and the log.
--   Storage.DataFile: storage/src/data_file.rs.
--   Storage.Store: storage/src/store.rs: Allocator is `PageAllocator`, Replay what a log commits and
--     `recover`, Batches the writes, appends and reads, Checkpoint and Background the checkpoints, Open
--     `DurableStore::open`. Poison, Pool, Fresh, Atomicity, Reads, Flush, Rounds,
--     Settled and Skipped hold proofs, as do Segments, Order, Durable, Reopen and Reset of Storage.Wal.
--   Index.Error, Index.Node: index/src/error.rs, node.rs.
--   Index.Tree: index/src/tree.rs: `read_node` and `get`; Partition cuts entries into nodes, Build is
--     `BPlusTree::plan`, Edit the `Editor` and `edit_plan`. Lookup says what tree pages hold, and has the
--     laws of `get`; the children of Partition, Build and Edit, and Order, hold proofs. The cache of
--     nodes is `None`.
--   Mvcc.Error, Mvcc.Record, Mvcc.Manifest: mvcc/src/error.rs, record.rs, index_manifest.rs.
--   Mvcc.State, Mvcc.Commit, Mvcc.Reclaim, Mvcc.Prefix: the state of mvcc/src/database.rs, its
--     commit path, `reclaim_covered`, and the ranges of prefixes, under the function names of the source.
--   Mvcc.Read, Mvcc.Transaction: the reads of `Inner` and `Transaction` of the same file. The tree and
--     the pages are the interface `Reader`, of which nothing is assumed.
--   Mvcc.Rebuild: the critical sections of `rebuild_index`, and `stats`.
--   Mvcc.Protocol: the critical sections as interleaved steps on the shared state. A step is one
--     hold of the lock that changes it; the second of `rebuild_index` is `publish_rebuilt` of
--     Mvcc.Rebuild. `flights` and `history` are bookkeeping for the statements: the commits
--     between `prepare_commit` and `finish_prepared`, and those that were published.
--   Syntax.Token, Syntax.Lexer: syntax/src/token.rs, lexer.rs. A text is its code points.
--   Engine.Error, Engine.Codec: engine/src/error.rs, codec.rs, the keys.
--   Examples: the definitions and the theorems at concrete inputs.
--
-- Numbers are natural numbers; where the source checks an addition, the bound 2 ^ 64 is written
-- out. Loops are structural, or on fuel: `advance_visible` gets the number of completed
-- timestamps, of which a round removes one, and `decode_page` the length of the page, of which a
-- record takes its header at least. The loops over entries of a node and over the order of use
-- of the cache are structural; so is the way down a tree, on its height; `first_key` of an edit
-- has fuel, which the height is enough for, and the loop of `finish` has fuel for the pages that
-- it visits. The partitions of a tree's nodes have the number of entries as fuel, of which a
-- round takes one, and `raise_levels` the number of children, which a level halves. The scan of
-- a log has the length of the file as fuel, of which a record takes its header, and a checkpoint
-- the length of the flush queue, of which a round takes a page; the lexer has the length of its
-- text, of which a token takes a character.
--
-- A file is its bytes: a write is in the file at once, and a sync does nothing; a crash is
-- the files opened again.
--
-- Not modelled: threads, locks and files as such (a poisoned lock, the notifications of the
-- publisher), the CRC of the crate crc32fast (a parameter), the caches of decoded pages in front of
-- the reads, the lock of a store's directory, the ranges of the B+ tree, the parser of the query
-- language, the engine above its keys and the server. The ticks of the cache and
-- the clock of the pool are counted without the bound of 64 bits.
pub mod Prelude
pub mod Bytes
pub mod Storage
pub mod Index
pub mod Mvcc
pub mod Syntax
pub mod Engine
pub mod Examples
