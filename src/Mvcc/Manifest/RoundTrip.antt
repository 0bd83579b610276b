-- ===== src/Mvcc/Manifest/RoundTrip.antt =====
-- A manifest that was encoded decodes to its generation.
use quantadb.Prelude.{ℕ, ◌^◌, ◌-◌, ◌<◌, ◌≡◌, refl, true, Option, none, some, arith}
use quantadb.Prelude.Result.{ok}
use quantadb.Bytes.Fields.{from_le-to_le_16, from_le-to_le_64}
use quantadb.Mvcc.State.{IndexGeneration, IndexRoot}
use quantadb.Mvcc.Manifest.{
  encode, decode, decode_fields, decode_root, decode_no_root, decode_some_root,
}

-- What a published root has.
pub record IsRoot (r : IndexRoot) : Type 0 where
  pub page : r.page_id < 2 ^ 64 - 1
  pub tall : 0 < r.height
  pub height_u16 : r.height < 2 ^ 16
  pub filled : 0 < r.entries
  pub entries_u64 : r.entries < 2 ^ 64

abbrev pub IsGeneration : IndexGeneration → Type 0
IsGeneration g = (g.timestamp < 2 ^ 64) × elim g.root [ none ↦ Unit {0} | some r ↦ IsRoot r ]

decode_fields-root :
    (p t page h n : ℕ)
    → page < 2 ^ 64 - 1
    → 0 < h
    → 0 < n
    → decode_fields p 1 1 true t page h n
      ≡ ok (
          some (record {
            timestamp = t;
            root = some (record { page_id = page; height = h; entries = n });
            manifest_page_id = p;
          }))
unfolding decode_fields decode_root decode_no_root decode_some_root
decode_fields-root p t page h n a b c = ground arith

decode_fields-empty :
    (p t : ℕ)
    → decode_fields p 1 0 true t (2 ^ 64 - 1) 0 0
      ≡ ok (some (record { timestamp = t; root = none; manifest_page_id = p }))
unfolding decode_fields decode_root decode_no_root decode_some_root
decode_fields-empty p t = refl

-- The manifest of a generation, on the page that the generation names, decodes to the generation.
pub decode-encode_generation :
    (t p : ℕ) (root : Option IndexRoot)
    → IsGeneration (record { timestamp = t; root = root; manifest_page_id = p })
    → decode p (encode (record { timestamp = t; root = root; manifest_page_id = p }))
      ≡ ok (some (record { timestamp = t; root = root; manifest_page_id = p }))
unfolding decode encode
decode-encode_generation t p none (small, v) =
    rw (from_le-to_le_64 t small) (decode_fields-empty p t)
decode-encode_generation t p (some r) (small, v) = rw (from_le-to_le_64 t small) (
    rw (from_le-to_le_64 r.page_id (page_small r v)) (
      rw (from_le-to_le_64 r.entries v.entries_u64) (
        rw (from_le-to_le_16 r.height v.height_u16)
          (decode_fields-root p t r.page_id r.height r.entries v.page v.tall v.filled))))
  where
    page_small : (r : IndexRoot) → IsRoot r → r.page_id < 2 ^ 64
    page_small r v = omega arith
