-- ===== src/Engine/Error.antt =====
-- engine/src/error.rs. The texts of messages are not kept, names are.
use quantadb.Bytes.{Bytes}
use quantadb.Mvcc.Error.{TransactionError}
use quantadb.Syntax.Token.{Span}
use quantadb.Syntax.Lexer.{Message}
use quantadb.Prelude.Result.{Result}

pub data EngineError : Type 0 where
  transaction : TransactionError → EngineError
  syntax : Message → Span → EngineError
  encoding corrupt_record invalid_schema invalid_row : EngineError
  table_already_exists table_not_found index_already_exists index_not_found : Bytes → EngineError
  column_not_found : Bytes → EngineError
  constraint_violation expression unsupported : EngineError
  transaction_already_active no_active_transaction transaction_aborted : EngineError

abbrev pub EngineResult {ℓ} : Type ℓ → Type ℓ
EngineResult A = Result EngineError A
