-- ===== src/Engine/Codec.antt =====
-- engine/src/codec.rs: the keys of rows and index entries. An `i64` and an `f64` are their 64 bits,
-- and a text is its UTF-8 bytes. The records in JSON, of the crate serde_json, are not modelled.
pub mod Injective
use quantadb.Prelude.{
  ℕ, ◌+◌, ◌-◌, ◌*◌, ◌/◌, ◌%◌, ◌^◌, Bool, true, false, List, [], ◌∷◌, ◌++◌, ◌==◌, not, if◌then◌else◌,
  length, ltb,
}
use quantadb.Prelude.Result.{Result, ok, err, ensure, ◌>>=◌, ◌>>◌}
use quantadb.Bytes.{Bytes, to_le, from_le}
use quantadb.Engine.Error.{
  EngineError, EngineResult, constraint_violation, invalid_row, invalid_schema, corrupt_record,
}

pub data Value : Type 0 where
  null : Value
  boolean : Bool → Value
  integer float : ℕ → Value
  text : Bytes → Value

-- `to_be_bytes`
abbrev pub reverse_onto : Bytes → Bytes → Bytes
reverse_onto done [] = done
reverse_onto done (b ∷ bs) = reverse_onto (b ∷ done) bs

abbrev pub to_be : ℕ → ℕ → Bytes
to_be width v = reverse_onto [] (to_le width v)

-- b"\0quanta/row/"
abbrev pub row_prefix_bytes : Bytes
row_prefix_bytes = 0 ∷ 113 ∷ 117 ∷ 97 ∷ 110 ∷ 116 ∷ 97 ∷ 47 ∷ 114 ∷ 111 ∷ 119 ∷ 47 ∷ []

-- b"\0quanta/unique/"
abbrev pub unique_prefix_bytes : Bytes
unique_prefix_bytes =
    0 ∷ 113 ∷ 117 ∷ 97 ∷ 110 ∷ 116 ∷ 97 ∷ 47 ∷ 117 ∷ 110 ∷ 105 ∷ 113 ∷ 117 ∷ 101 ∷ 47 ∷ []

-- b"\0quanta/index/"
abbrev pub index_entry_prefix_bytes : Bytes
index_entry_prefix_bytes =
    0 ∷ 113 ∷ 117 ∷ 97 ∷ 110 ∷ 116 ∷ 97 ∷ 47 ∷ 105 ∷ 110 ∷ 100 ∷ 101 ∷ 120 ∷ 47 ∷ []

-- `bits ^ (1 << 63)` on 64 bits
abbrev pub flip_sign : ℕ → ℕ
flip_sign bits = (bits + 2 ^ 63) % 2 ^ 64

-- `is_finite`: the exponent is not all ones.
abbrev pub is_finite : ℕ → Bool
is_finite bits = not (bits / 2 ^ 52 % 2 ^ 11 == 2047)

-- The bits of a float in the order of the numbers.
abbrev pub ordered_bits : ℕ → ℕ
ordered_bits bits = if bits / 2 ^ 63 == 0 then flip_sign bits else 2 ^ 64 - 1 - bits

unfoldable pub encode_identity : Value → EngineResult Bytes
encode_identity null = err constraint_violation
encode_identity (boolean value) = ok (1 ∷ (if value then 1 else 0) ∷ [])
encode_identity (integer value) = ok (2 ∷ to_be 8 (flip_sign value))
encode_identity (float bits) =
    if is_finite bits then ok (3 ∷ to_be 8 (ordered_bits bits)) else err invalid_row
encode_identity (text value) = ok (4 ∷ value)

unfoldable pub index_entry_prefix : ℕ → Bytes
index_entry_prefix index_id = index_entry_prefix_bytes ++ to_be 8 index_id

-- a length and as many bytes, where the length fits 32 bits
unfoldable pub delimited : EngineError → Bytes → EngineResult Bytes
delimited failure bytes =
    ensure (ltb (length bytes) (2 ^ 32)) failure >> ok (to_be 4 (length bytes) ++ bytes)

unfoldable pub delimited_values : List Value → EngineResult Bytes
delimited_values [] = ok []
delimited_values (value ∷ values) = do
  identity ← encode_identity value
  framed ← delimited invalid_row identity
  rest ← delimited_values values
  ok (framed ++ rest)

unfoldable pub index_value_prefix : ℕ → List Value → EngineResult Bytes
index_value_prefix index_id values =
    delimited_values values >>= λ key. ok (index_entry_prefix index_id ++ key)

unfoldable pub index_entry_key : ℕ → Bool → List Value → Bytes → EngineResult Bytes
index_entry_key index_id unique values row_key = index_value_prefix index_id values >>= λ key.
    (if unique then ok key else (delimited invalid_row row_key >>= λ framed. ok (key ++ framed)))

unfoldable pub row_prefix : ℕ → Bytes
row_prefix table_id = row_prefix_bytes ++ to_be 8 table_id

unfoldable pub unique_prefix : ℕ → Bytes
unique_prefix table_id = unique_prefix_bytes ++ to_be 8 table_id

unfoldable pub unique_key : ℕ → ℕ → Value → EngineResult Bytes
unique_key table_id column value = do
  ensure (ltb column (2 ^ 32)) invalid_schema
  identity ← encode_identity value
  ok (unique_prefix table_id ++ to_be 4 column ++ to_be 4 (length identity % 2 ^ 32) ++ identity)

unfoldable pub row_key : ℕ → Bytes → EngineResult Bytes
row_key table_id identity =
    delimited invalid_row identity >>= λ framed. ok (row_prefix table_id ++ framed)

-- b"\0quanta/catalog/table/"
abbrev pub catalog_prefix : Bytes
catalog_prefix =
    0 ∷ 113 ∷ 117 ∷ 97 ∷ 110 ∷ 116 ∷ 97 ∷ 47 ∷ 99 ∷ 97 ∷ 116 ∷ 97 ∷ 108 ∷ 111 ∷ 103 ∷ 47 ∷ 116 ∷ 97
    ∷ 98 ∷ 108 ∷ 101 ∷ 47 ∷ []

-- b"\0quanta/catalog/index/"
abbrev pub index_catalog_prefix : Bytes
index_catalog_prefix =
    0 ∷ 113 ∷ 117 ∷ 97 ∷ 110 ∷ 116 ∷ 97 ∷ 47 ∷ 99 ∷ 97 ∷ 116 ∷ 97 ∷ 108 ∷ 111 ∷ 103 ∷ 47 ∷ 105 ∷ 110
    ∷ 100 ∷ 101 ∷ 120 ∷ 47 ∷ []

unfoldable pub component_key : Bytes → Bytes → EngineResult Bytes
component_key prefix component =
    delimited invalid_schema component >>= λ framed. ok (prefix ++ framed)

unfoldable pub catalog_key : Bytes → EngineResult Bytes
catalog_key name = component_key catalog_prefix name

unfoldable pub index_catalog_key : Bytes → EngineResult Bytes
index_catalog_key name = component_key index_catalog_prefix name

unfoldable pub decode_u64 : Bytes → EngineResult ℕ
decode_u64 bytes =
    if length bytes == 8 then ok (from_le (reverse_onto [] bytes)) else err corrupt_record
