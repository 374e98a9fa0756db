-- ===== src/Kv.antt =====
-- engine/kv.go: tables and rows kept in the keys of a storage transaction.
pub mod Keys
pub mod Keyed
pub mod Rows
pub mod Fits
pub mod Stored
use space_db.Base.{
  ℕ, zero, suc, ◌+◌, Bool, true, false, List, [], ◌∷◌, ◌++◌, Option, none, some, Result, ok, err,
  length, ◌==◌, if◌then◌else◌, guard,
}
use space_db.Base.Exec.{Exec, pure, reads, lift, ◌>>=◌, ◌>>◌}
use space_db.Bytes.{Bytes, Slice}
use space_db.Storage.Errors.{Error}
use space_db.Storage.Entries.{Entries}
use space_db.Storage.Engine.{Engine}
use space_db.Storage.Versions.{Transaction, slice_bytes}
use space_db.Storage.Mvcc.{begin, commit, rollback, get, set, delete, scan_prefix}
use space_db.Types.{
  Value, Row, SqlError, storage, table_missing, duplicate_key, bad_encoding, invalid_table,
  table_exists, value_eq,
}
use space_db.Schema.{Table, validate, primary_key_value}
use Keys.{table_key, row_prefix_key, row_key}
use Rows.{validate_row}

-- The JSON library: Marshal may fail, and so may Unmarshal.
pub record Codec : Type 0 where
  pub marshal_row : Row → Option Bytes
  pub unmarshal_row : Bytes → Option Row
  pub marshal_table : Table → Option Bytes
  pub unmarshal_table : Bytes → Option Table

-- A result of storage/, with its error passed on.
abbrev pub stored : {A : Type 0} → Result Error A → Result SqlError A
stored (ok a) = ok a
stored (err e) = err (storage e)

unfoldable pub need_bytes : Option Bytes → Result SqlError Bytes
need_bytes none = err bad_encoding
need_bytes (some b) = ok b

-- `if table == nil`
unfoldable pub need_table : Bytes → Option Table → Result SqlError Table
need_table name none = err (table_missing name)
need_table name (some t) = ok t

-- `if existing != nil`
unfoldable pub need_absent : Bytes → Slice → Result SqlError (Unit {0})
need_absent name none = ok tt
need_absent name (some b) = err (duplicate_key name)

need_no_table : Bytes → Option Table → Result SqlError (Unit {0})
need_no_table name none = ok tt
need_no_table name (some t) = err (table_exists name)

-- `%w: %v` with ErrInvalidTable
as_invalid_table : Result SqlError (Unit {0}) → Result SqlError (Unit {0})
as_invalid_table (ok u) = ok u
as_invalid_table (err e) = err (invalid_table e)

module _ (codec : Codec) where
  decode_table : Slice → Result SqlError (Option Table)
  decode_table none = ok none
  decode_table (some encoded) = elim (codec.unmarshal_table encoded) [
    | none ↦ err bad_encoding
    | some table ↦ ok (some table)
  ]

  decode_row : Table → Option Row → Result SqlError Row
  decode_row table none = err bad_encoding
  decode_row table (some row) =
      if length row == length table.columns then ok row else err bad_encoding

  -- The loop of ScanTable.
  decode_rows : Table → Entries → Result SqlError (List Row)
  unfolding decode_row
  decode_rows table [] = ok []
  decode_rows table ((k, v) ∷ entries) =
      space_db.Base.◌>>=◌ (decode_row table (codec.unmarshal_row (slice_bytes v)))
        λ row. space_db.Base.◌>>=◌ (decode_rows table entries) λ rows. ok (row ∷ rows)

module _ (e : Engine) (codec : Codec) (t : Transaction) where
  -- A call of a storage transaction's method.
  abbrev pub calls : {A : Type 0} → Exec e.State Error A → Exec e.State SqlError A
  calls m s = let (r, s') = m s in (stored r, s')

  unfoldable pub get_table : Bytes → e.State → Result SqlError (Option Table)
  unfolding table_key decode_table get
  get_table table_name s =
      space_db.Base.◌>>=◌ (table_key table_name)
        λ key. space_db.Base.◌>>=◌ (stored (get e t key s)) λ encoded. decode_table codec encoded

  unfoldable pub create_row : Bytes → Row → Exec e.State SqlError (Unit {0})
  unfolding get_table need_table need_absent need_bytes validate_row primary_key_value row_key get
      set
  create_row table_name row = do
    found ← reads (get_table table_name)
    table ← lift (need_table table_name found)
    lift (validate_row table row)
    primary_key ← lift (primary_key_value table row)
    key ← lift (row_key table_name primary_key)
    existing ← reads (λ s. stored (get e t key s))
    lift (need_absent table_name existing)
    encoded ← lift (need_bytes (codec.marshal_row row))
    calls (set e t key (some encoded))

  -- What UpdateRow does when the primary key changes.
  move_row : Table → Value → Bytes → Exec e.State SqlError (Unit {0})
  unfolding need_absent row_key get delete
  move_row table old_primary_key new_key = do
    old_key ← lift (row_key table.name old_primary_key)
    existing ← reads (λ s. stored (get e t new_key s))
    lift (need_absent table.name existing)
    calls (delete e t old_key)

  unfoldable pub update_row : Table → Value → Row → Exec e.State SqlError (Unit {0})
  unfolding move_row need_bytes validate_row primary_key_value row_key value_eq set
  update_row table old_primary_key row = do
    lift (validate_row table row)
    new_primary_key ← lift (primary_key_value table row)
    new_key ← lift (row_key table.name new_primary_key)
    if value_eq old_primary_key new_primary_key
        then pure tt
        else move_row table old_primary_key new_key
    encoded ← lift (need_bytes (codec.marshal_row row))
    calls (set e t new_key (some encoded))

  unfoldable pub delete_row : Table → Value → Exec e.State SqlError (Unit {0})
  unfolding row_key delete
  delete_row table primary_key = do
    key ← lift (row_key table.name primary_key)
    calls (delete e t key)

  unfoldable pub scan_table : Table → e.State → Result SqlError (List Row)
  unfolding row_prefix_key scan_prefix decode_rows
  scan_table table s = space_db.Base.◌>>=◌ (row_prefix_key table.name) λ prefix.
      space_db.Base.◌>>=◌ (stored (scan_prefix e t prefix s))
        λ entries. decode_rows codec table entries

  unfoldable pub create_table : Table → Exec e.State SqlError (Unit {0})
  unfolding as_invalid_table validate need_no_table get_table table_key need_bytes set
  create_table table = do
    lift (as_invalid_table (validate table))
    existing ← reads (get_table table.name)
    lift (need_no_table table.name existing)
    key ← lift (table_key table.name)
    encoded ← lift (need_bytes (codec.marshal_table table))
    calls (set e t key (some encoded))
