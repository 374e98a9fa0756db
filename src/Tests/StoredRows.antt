-- ===== src/Tests/StoredRows.antt =====
-- A row made in a table on the memory engine.
use space_db.Base.{ℕ, ◌≡◌, refl, List, map, [], ◌∷◌, none, some, true, false, ok, arith}
use space_db.Bytes.{Bytes, Slice}
use space_db.Storage.Memory.{MemoryEngine, memory_engine}
use space_db.Storage.Memory.Laws.{memory_laws}
use space_db.Storage.Mvcc.{get}
use space_db.Storage.Mvcc.Store.{IsStore}
use space_db.Storage.Mvcc.Write.{written, written-IsStore}
use space_db.Storage.Mvcc.Tests.{first, first_state, first_store, first_sees_itself}
use space_db.Types.{Row, Value, integer, value_integer}
use space_db.Types.Int64.{pos}
use space_db.Schema.{Table}
use space_db.Kv.{Codec, create_row}
use space_db.Executor.Transaction.{Transaction, kv_transaction}
use space_db.Executor.Statements.{update_rows, delete_rows}
use space_db.Executor.Calls.{rows-counted, counted, update_call, delete_call}
use space_db.Kv.Stored.{create_row-get}

abbrev name : Bytes
name = 117 ∷ []

abbrev numbers : Table
numbers = record {
  name = name;
  columns =
      (record {
        name = 105 ∷ [];
        data_type = integer;
        nullable = false;
        default_value = none;
        primary_key = true;
      })
      ∷ [];
}

abbrev row : Row
row = value_integer (pos 1) ∷ []

-- A codec that knows one row and one table.
abbrev codec : Codec
codec = record {
  marshal_row = λ r. some (91 ∷ []);
  unmarshal_row = λ b. some row;
  marshal_table = λ t. some (123 ∷ []);
  unmarshal_table = λ b. some numbers;
}

-- The state that holds the table, and the one with the row.
abbrev table_state : MemoryEngine
table_state = written memory_engine memory_laws first (1 ∷ name) (some (123 ∷ [])) false first_state

table_store : IsStore memory_engine memory_laws 2 table_state
table_store =
    written-IsStore memory_engine memory_laws first (1 ∷ name) (some (123 ∷ [])) false 2 first_state
      (omega arith) first_store (omega arith) (omega arith)

abbrev row_bytes : Bytes
row_bytes = 2 ∷ 117 ∷ 0 ∷ 2 ∷ 128 ∷ 0 ∷ 0 ∷ 0 ∷ 0 ∷ 0 ∷ 0 ∷ 1 ∷ []

abbrev row_state : MemoryEngine
row_state = written memory_engine memory_laws first row_bytes (some (91 ∷ [])) false table_state

row_made : create_row memory_engine codec first name row table_state ≡ (ok tt, row_state)
unfolding create_row space_db.Storage.Memory.set space_db.Storage.Memory.scan_reverse
    space_db.Storage.Memory.get space_db.Storage.Key.encode space_db.Storage.Key.encode_version
    space_db.Storage.Entries.insert space_db.Storage.Key.decode_mvcc_key
    space_db.Storage.Versions.is_visible space_db.Bytes.BigEndian.of_be
    space_db.Storage.Versions.decode_versioned_value
row_made = refl

create_row-get_example :
    (key : Bytes) × (encoded : Bytes) × (codec.marshal_row row ≡ some encoded)
    × (get memory_engine first key table_state ≡ ok none)
    × (get memory_engine first key row_state ≡ ok (some encoded))
create_row-get_example =
    create_row-get memory_engine memory_laws codec first name row 2 table_state table_store
      (omega arith) (omega arith) first_sees_itself row_state (omega arith) (omega arith) row_made

abbrev kv : Transaction
kv = kv_transaction memory_engine codec first

-- An update of the row that assigns twice, and its deletion.
abbrev assignments : List (ℕ × Value)
assignments = (0, value_integer (pos 5)) ∷ (0, value_integer (pos 2)) ∷ []

rows-counted_example :
    (update_rows kv numbers assignments (row ∷ []) 0 table_state
      ≡ counted (map (update_call kv numbers assignments) (row ∷ [])) 0 table_state)
    × (delete_rows kv numbers (row ∷ []) 0 table_state
        ≡ counted (map (delete_call kv numbers) (row ∷ [])) 0 table_state)
rows-counted_example = rows-counted kv numbers assignments (row ∷ []) table_state
