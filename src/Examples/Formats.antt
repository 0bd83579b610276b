-- ===== src/Examples/Formats.antt =====
-- The formats on concrete values: a page, version records, an index manifest, key ranges.
use quantadb.Prelude.{ℕ, ◌%◌, ◌^◌, ◌++◌, ◌≡◌, some, none, [], ◌∷◌, arith, List}
use quantadb.Prelude.Result.{ok}
use quantadb.Bytes.{Bytes, from_le, zeroes}
use quantadb.Storage.Page.{Page}
use quantadb.Storage.Page
use quantadb.Storage.Page.RoundTrip.{IsPage, decode-encode}
use quantadb.Mvcc.State.{IndexRoot}
use quantadb.Mvcc.Record.{VersionRecord, decode_bytes, decode_page}
use quantadb.Mvcc.Record.RoundTrip.{IsRecord, image, decode_bytes-image, size}
use quantadb.Mvcc.Record.Pages.{images, decode_page-images}
use quantadb.Mvcc.Manifest
use quantadb.Mvcc.Manifest.RoundTrip.{decode-encode_generation}

-- a checksum that has 32 bits
abbrev toy_crc : Bytes → ℕ
toy_crc bytes = from_le bytes % 2 ^ 32

abbrev small_page : Page
small_page = record { id = 3; lsn = 9; payload = 1 ∷ 2 ∷ 255 ∷ [] }

small_page-IsPage : IsPage small_page
small_page-IsPage = record { id_u64 = omega arith; lsn_u64 = omega arith; fits = omega arith }

decode-encode_example : Page.decode toy_crc (Page.encode toy_crc small_page) ≡ ok small_page
decode-encode_example = decode-encode toy_crc (λ b. omega arith) small_page small_page-IsPage

abbrev stored : VersionRecord
stored = record { timestamp = 5; key = 107 ∷ []; value = some (7 ∷ 8 ∷ []) }

abbrev deleted : VersionRecord
deleted = record { timestamp = 6; key = 107 ∷ []; value = none }

stored-IsRecord : IsRecord stored
stored-IsRecord = record {
  committed = omega arith;
  timestamp_u64 = omega arith;
  fits = omega arith;
}

deleted-IsRecord : IsRecord deleted
deleted-IsRecord = record {
  committed = omega arith;
  timestamp_u64 = omega arith;
  fits = omega arith;
}

decode_bytes-image_example :
    decode_bytes 4 (image stored ++ (0 ∷ 1 ∷ [])) ≡ ok (some (stored, size stored))
decode_bytes-image_example = decode_bytes-image 4 stored (0 ∷ 1 ∷ []) stored-IsRecord

decode_page-images_example :
    decode_page 4 (images (stored ∷ deleted ∷ []) ++ zeroes 100) ≡ some (ok (stored ∷ deleted ∷ []))
decode_page-images_example =
    decode_page-images 4 (stored ∷ deleted ∷ []) 100 (stored-IsRecord, (deleted-IsRecord, tt))

abbrev root_of_three : IndexRoot
root_of_three = record { page_id = 12; height = 1; entries = 3 }

decode-encode_generation_example :
    Manifest.decode 20
      (Manifest.encode (record { timestamp = 8; root = some root_of_three; manifest_page_id = 20 }))
    ≡ ok (some (record { timestamp = 8; root = some root_of_three; manifest_page_id = 20 }))
decode-encode_generation_example = decode-encode_generation 8 20 (some root_of_three) (
  omega arith,
  record {
    page = omega arith;
    tall = omega arith;
    height_u16 = omega arith;
    filled = omega arith;
    entries_u64 = omega arith;
  },
)

abbrev two_keys : List (Bytes × ℕ)
two_keys = (97 ∷ [], 1) ∷ (98 ∷ [], 2) ∷ []
