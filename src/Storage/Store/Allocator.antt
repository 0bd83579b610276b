-- ===== src/Storage/Store/Allocator.antt =====
-- storage/src/store.rs: `PageAllocator`.
pub mod Pool
pub mod Fresh
use quantadb.Prelude.{
  ℕ, zero, suc, ◌+◌, ◌-◌, ◌^◌, Option, none, some, List, [], ◌∷◌, ◌++◌, if◌then◌else◌, length, ltb,
  min, max,
}
use quantadb.Prelude.Result.{Result, ok, err}
use quantadb.Prelude.Ord.{nat_ord}
use quantadb.Prelude.Map.{Map, insert}
use quantadb.Bytes.{checked_add}
use quantadb.Storage.Error.{StorageResult, StorageError, configuration}
use quantadb.Storage.Store.{PageAllocator}

-- The loop of `pop_first`: the pages taken, and those left.
unfoldable pub take_free : ℕ → Map ℕ (Unit {0}) → List ℕ × Map ℕ (Unit {0})
take_free zero free = ([], free)
take_free (suc count) [] = ([], [])
take_free (suc count) ((page_id, mark) ∷ free) =
    (page_id ∷ (take_free count free).0, (take_free count free).1)

-- `count` numbers from `first` on
unfoldable pub numbered : ℕ → ℕ → List ℕ
numbered first zero = []
numbered first (suc count) = first ∷ numbered (first + 1) count

-- The free pages that were taken stay taken where the ids run out.
unfoldable pub reserve : PageAllocator → ℕ → PageAllocator × StorageResult (List ℕ)
reserve a count =
    let (page_ids, free) = take_free count a.free_pages in
    let fresh = count - length page_ids in
    elim (checked_add a.next_page_id fresh) [
      | none ↦ (record a { free_pages = free }, err configuration)
      | some end ↦ (
        record { next_page_id = end; free_pages = free },
        ok (page_ids ++ numbered a.next_page_id fresh),
      )
    ]

-- a page that was never handed out is ignored
unfoldable pub release_one : PageAllocator → ℕ → PageAllocator
release_one a page_id =
    if ltb page_id a.next_page_id
    then record a { free_pages = insert a.free_pages page_id tt }
    else a

unfoldable pub release : PageAllocator → List ℕ → PageAllocator
release a [] = a
release a (page_id ∷ pages) = release (release_one a page_id) pages

unfoldable pub free_page_count : PageAllocator → ℕ
free_page_count a = length a.free_pages

-- `saturating_add`
unfoldable pub note_written : PageAllocator → ℕ → PageAllocator
note_written a page_id = record a {
  next_page_id = max a.next_page_id (min (page_id + 1) (2 ^ 64 - 1));
}
