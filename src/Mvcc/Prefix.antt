-- ===== src/Mvcc/Prefix.antt =====
-- mvcc/src/database.rs: the key range of a prefix. Keys are compared as byte strings.
pub mod Range
use Prim.Native.Nat.Ordering.{lt}
use quantadb.Prelude.{
  ℕ, zero, suc, ◌+◌, Bool, true, false, Option, none, some, ◌==◌, if◌then◌else◌, ◌&&◌, not, length,
  take, set, get_or,
}
use quantadb.Prelude.Ord.{compare_bytes}
use quantadb.Prelude.Map.{Map}
use quantadb.Prelude.Seq.{keep}
use quantadb.Bytes.{Bytes}

-- The loop of `prefix_end` over the positions below `n`, downwards.
unfoldable pub prefix_end_scan : ℕ → Bytes → Option Bytes
prefix_end_scan zero end = none
prefix_end_scan (suc position) end =
    let rest = prefix_end_scan position end in
    if get_or end position 0 == 255
    then rest
    else some (take (suc position) (set end position (get_or end position 0 + 1)))

unfoldable pub prefix_end : Bytes → Option Bytes
prefix_end prefix = prefix_end_scan (length prefix) prefix

abbrev pub less : Bytes → Bytes → Bool
less a b = elim (compare_bytes a b) [ lt ↦ true | _ ↦ false ]

-- `end_bound`: no end is an unbounded range.
abbrev pub below_end : Option Bytes → Bytes → Bool
below_end none key = true
below_end (some end) key = less key end

abbrev pub in_range : Bytes → Option Bytes → Bytes → Bool
in_range start end key = not (less key start) && below_end end key

-- `versions.range((Included(prefix), end_bound(end)))`
unfoldable pub version_range {ℓ} : {V : Type ℓ} → Map Bytes V → Bytes → Map Bytes V
version_range versions prefix = keep (λ entry. in_range prefix (prefix_end prefix) entry.0) versions
