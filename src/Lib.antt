-- ===== src/Lib.antt =====
-- SpaceDB: a small SQL database over a multi-version key-value store.
--
-- Parts and files
-- - storage/mvcc_key.go, the keys of the store: Storage/Key.antt (encode, decodeMvccKey, the
--   constructors of keys and the prefixes for scans). Storage/Key/ has Escape, RoundTrip, Order,
--   Ranges and Prefix.
-- - storage/engine.go, the interface Engine: Storage/Engine.antt, with the contract IsReliable of
--   an engine whose operations do not fail. An iterator is a list of entries and an error at its end.
-- - storage/memory.go: Storage/Memory.antt. The Go map is an association list without repeated
--   keys (Storage/Entries.antt); a scan collects, sorts and perhaps reverses it.
-- - storage/disk_log.go and disk.go: Storage/Disk.antt (the calls), Storage/Disk/Log.antt (the
--   records), Storage/Disk/Opening.antt (NewDiskEngine, rebuildKeydir, compact). The os package is
--   the parameter Files of Storage/Disk/FileSystem.antt, the B-tree library the parameter BTree of
--   Storage/BTree.antt, each with what its documentation says as named laws and with an instance for
--   runs. Storage/Disk/Contents.antt says which map an engine represents; the other files of
--   Storage/Disk/ have the theorems. A scan is modelled for a consumer that takes every record;
--   writes between the copy of the index and the reading of a value are in Storage/Disk/Snapshot.antt.
-- - storage/storage.go, transactions: Storage/Versions.antt has the parts that do not touch the
--   engine (isVisible, the values' encoding, the loops over the records of a scan), and
--   Storage/Mvcc.antt the methods Begin, Commit, Rollback, Get, ScanPrefix, Set and Delete, over
--   any engine. A method takes the state of the engine and returns its result with the new state, so
--   what was written before an error stays written (Base/Exec.antt). The mutex that each method
--   holds makes it one step. Storage/Mvcc/Store.antt has the invariant IsStore of the engine's
--   contents, and the other files of Storage/Mvcc/ the theorems for each method.
-- - types/: Types.antt (Value, Compare), Types/Int64.antt and Types/Float64.antt.
-- - schema/schema.go: Schema.antt. engine/kv.go: Kv.antt and Kv/Keys.antt, Kv/Rows.antt; its
--   methods take a storage transaction, and the JSON library as the parameter Codec.
-- - lexer/lexer.go: Lexer.antt, and lexer/token.go with keywordDataType of parser/ast.go:
--   Lexer/Tokens.antt. strconv.ParseFloat is a parameter.
-- - parser/ast.go: Ast.antt. planner/plan.go and schema.go: Planner.antt.
-- - executor/expression.go and planner/value.go: Executor/Expressions.antt. executor/filter.go,
--   join.go, OFFSET and LIMIT of executor.go: Executor/Relations.antt. makeInsertRow:
--   Executor/Inserts.antt. executor/transaction.go: Executor/Transaction.antt; the executors that
--   call a transaction (CREATE TABLE, INSERT, scan, UPDATE, DELETE): Executor/Statements.antt;
--   ProjectionExecutor: Executor/Projection.antt. executor/aggregate.go: Executor/Aggregates.antt, with
--   the sum and the quotient of two float64 as parameters. ORDER BY, and Build with the executor of
--   every node of a plan: Executor/Execution.antt.
-- Runs of the code and the theorems at concrete inputs are in Tests/ and Storage/Mvcc/Tests.antt.
--
-- Conventions
-- A byte is a number below 256, a byte slice or a string a list of bytes, and a slice that may be nil
-- an Option. Versions are numbers below 2^64 with the wrap-around written out. An int64 is a number
-- with a sign, a float64 the number of its 64 bits. Errors are data (Storage/Errors.antt, SqlError in
-- Types.antt), without the context that callers wrap round them. Pointers to values that are only
-- read are values. Loops are structural recursions, but for two that run on fuel: the replay of a
-- log (rebuild_loop in Storage/Disk/Opening.antt) has a round for every byte of the file and one
-- more, enough since a record has at least 8 bytes (Storage/Disk/Termination.antt), and the loop of
-- TokenizeAll (tokenize in Lexer.antt) has a round for every byte and two more. log2 in
-- Types/Float64.antt has 64 steps, one for each bit. The stable sort of ORDER BY is an insertion
-- sort (Executor/Execution.antt), and fails when a comparison that it makes fails.
--
-- Not modelled: the lock on the log's file and what a machine that stops does to unsynced files;
-- the calls on an engine whose log compact of storage/disk.go left closed (NewDiskEngineCompact gives
-- no such engine out); the texts that describe tokens, the parser, the session, the printing of
-- results, and the network programs under cmd.
pub mod Base
pub mod Bytes
pub mod Storage
pub mod Types
pub mod Schema
pub mod Kv
pub mod Ast
pub mod Executor
pub mod Planner
pub mod Lexer
pub mod Tests
