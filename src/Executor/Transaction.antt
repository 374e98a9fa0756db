-- ===== src/Executor/Transaction.antt =====
-- executor/transaction.go: what the executors need of a transaction, and the transactions of
-- engine/kv.go as one.
use space_db.Base.{List, Option, Result}
use space_db.Base.Exec.{Exec}
use space_db.Bytes.{Bytes}
use space_db.Types.{Value, Row, SqlError}
use space_db.Schema.{Table}
use space_db.Storage.Engine.{Engine}
use space_db.Kv.{
  Codec, calls, create_row, update_row, delete_row, scan_table, create_table, get_table,
}

pub record Transaction : Type 1 where
  pub State : Type 0
  pub commit : Exec State SqlError (Unit {0})
  pub rollback : Exec State SqlError (Unit {0})
  pub create_row : Bytes → Row → Exec State SqlError (Unit {0})
  pub update_row : Table → Value → Row → Exec State SqlError (Unit {0})
  pub delete_row : Table → Value → Exec State SqlError (Unit {0})
  pub scan_table : Table → State → Result SqlError (List Row)
  pub create_table : Table → Exec State SqlError (Unit {0})
  pub get_table : Bytes → State → Result SqlError (Option Table)

-- A KVTransaction over a storage transaction.
abbrev pub kv_transaction : Engine → Codec → space_db.Storage.Versions.Transaction → Transaction
kv_transaction e codec t = record {
  State = e.State;
  commit = calls e codec t (space_db.Storage.Mvcc.commit e t);
  rollback = calls e codec t (space_db.Storage.Mvcc.rollback e t);
  create_row = create_row e codec t;
  update_row = update_row e codec t;
  delete_row = delete_row e codec t;
  scan_table = scan_table e codec t;
  create_table = create_table e codec t;
  get_table = get_table e codec t;
}
