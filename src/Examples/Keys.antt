-- ===== src/Examples/Keys.antt =====
-- The keys of index entries on concrete values.
use quantadb.Prelude.{ℕ, ◌≡◌, refl, List, [], ◌∷◌, ◌++◌, arith}
use quantadb.Prelude.Result.{ok}
use quantadb.Bytes.{Bytes}
use quantadb.Engine.Codec.{
  Value, integer, text, encode_identity, delimited, delimited_values, index_entry_prefix,
  index_entry_prefix_bytes, index_value_prefix,
}
use quantadb.Engine.Codec.Injective.{index_value_prefix-injective}

-- 5 and "a"
abbrev some_values : List Value
some_values = integer 5 ∷ text (97 ∷ []) ∷ []

abbrev some_key : Bytes
some_key =
    index_entry_prefix_bytes
    ++ 0 ∷ 0 ∷ 0 ∷ 0 ∷ 0 ∷ 0 ∷ 0 ∷ 7 ∷ 0 ∷ 0 ∷ 0 ∷ 9 ∷ 2 ∷ 128 ∷ 0 ∷ 0 ∷ 0 ∷ 0 ∷ 0 ∷ 0 ∷ 5 ∷ 0 ∷ 0
      ∷ 0 ∷ 2 ∷ 4 ∷ 97 ∷ []

key_of_some_values : index_value_prefix 7 some_values ≡ ok some_key
unfolding index_value_prefix index_entry_prefix delimited_values delimited encode_identity
key_of_some_values = refl

index_value_prefix-injective_example : (◌≡◌ {A = ℕ} 7 7) × (some_values ≡ some_values)
index_value_prefix-injective_example =
    index_value_prefix-injective 7 7 some_values some_values some_key (omega arith) (omega arith)
      (omega arith, (tt, tt)) (omega arith, (tt, tt)) key_of_some_values key_of_some_values
