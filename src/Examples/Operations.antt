-- ===== src/Examples/Operations.antt =====
-- Transactions, scans, index nodes and the cache on concrete values.
use quantadb.Prelude.{ℕ, ◌≡◌, refl, some, none, [], ◌∷◌, false}
use quantadb.Prelude.Result.{ok}
use quantadb.Prelude.Ord.{nat_ord, bytes_ord}
use quantadb.Prelude.Map.{insert}
use quantadb.Bytes.{Bytes}
use quantadb.Storage.ByteLru.{Lru, get, delete, put}
use quantadb.Storage.ByteLru
use quantadb.Storage.ByteLru.Bounds.{Cached, operations-Cached, empty-Cached}
use quantadb.Index.Node.{
  leaf, field_end, read_key, read_entry, read_entries, ensure_above, ensure_strict_keys,
  decode_entries, decode_leaf, decode_kind, decode,
}
use quantadb.Index.Node.Valid.{IsNode, decode-IsNode}
use quantadb.Mvcc.Transaction
use quantadb.Mvcc.Read.{Reader}
use quantadb.Mvcc.Record.{validate_size}
use quantadb.Mvcc.Transaction.Own.{get-put}
use quantadb.Mvcc.Transaction.{
  Transaction, scan, scan_index, scan_entries, scan_entry, scan_versions, scan_writes,
}
use quantadb.Examples.States.{busy}

operations-Cached_example :
    Cached (get (ByteLru.empty {V = ℕ} 100) 3).0
    × Cached (delete (ByteLru.empty {V = ℕ} 100) 3)
    × Cached (put (ByteLru.empty {V = ℕ} 100) 3 7 40)
operations-Cached_example = operations-Cached (ByteLru.empty 100) 3 7 40 (empty-Cached 100)

-- an empty index
abbrev empty_reader : Reader
empty_reader = record {
  tree_get = λ root key. ok none;
  tree_range = λ root start end. ok [];
  read_page = λ page_id. ok none;
}

abbrev running : Transaction
running = record {
  id = 9;
  snapshot = 3;
  writes = (108 ∷ [], some (3 ∷ [])) ∷ [];
  scanned_prefixes = [];
  range_protected = false;
  finished = false;
}

get-put_example :
    Transaction.get empty_reader
      (record running { writes = (107 ∷ [], some (5 ∷ [])) ∷ (108 ∷ [], some (3 ∷ [])) ∷ [] })
      busy
      (107 ∷ [])
    ≡ ok (some (5 ∷ []))
unfolding Transaction.put validate_size insert
get-put_example =
    get-put empty_reader running busy (107 ∷ []) (5 ∷ []) (107 ∷ [])
      (record running { writes = (107 ∷ [], some (5 ∷ [])) ∷ (108 ∷ [], some (3 ∷ [])) ∷ [] }) refl

abbrev node_page : Bytes
node_page =
    81 ∷ 78 ∷ 73 ∷ 88 ∷ 1 ∷ 0 ∷ 1 ∷ 0 ∷ 1 ∷ 0 ∷ 0 ∷ 0 ∷ 0 ∷ 0 ∷ 0 ∷ 0 ∷ 255 ∷ 255 ∷ 255 ∷ 255 ∷ 255
    ∷ 255 ∷ 255 ∷ 255 ∷ 0 ∷ 0 ∷ 0 ∷ 0 ∷ 0 ∷ 0 ∷ 0 ∷ 0 ∷ 1 ∷ 0 ∷ 0 ∷ 0 ∷ 97 ∷ 2 ∷ 0 ∷ 0 ∷ 0 ∷ 0 ∷ 0
    ∷ 0 ∷ 0 ∷ []

decode-IsNode_example : IsNode node_page (leaf ((97 ∷ [], 2) ∷ []) none)
unfolding decode decode_kind decode_leaf decode_entries read_entries read_entry read_key field_end
    ensure_strict_keys ensure_above
decode-IsNode_example = decode-IsNode 5 node_page (leaf ((97 ∷ [], 2) ∷ []) none) refl
