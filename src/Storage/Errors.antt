-- ===== src/Storage/Errors.antt =====
-- The errors of storage/. A constructor stands for the message at one place of the code; the
-- context that a caller wraps round an error with %w is not modelled.
use space_db.Base.{ℕ, Result, ok, err}

pub data Error : Type 0 where
  -- decodeMvccKey, decodeRawKey, decodeVersion
  truncated_key invalid_namespace trailing_bytes truncated_version unknown_kind : Error
  truncated_escape no_terminator : Error
  invalid_escape : ℕ → Error
  invalid_version_length : ℕ → Error
  -- decodeVersionedValue
  truncated_value : Error
  invalid_value_tag : ℕ → Error
  -- MVCCTransaction.write
  write_conflict : Error
  -- DiskEngine and diskLog
  engine_closed value_too_large entry_too_large short_read size_mismatch invalid_value_size : Error
  invalid_entry_size already_locked write_failed : Error
  -- `errors.Join` of two errors
  joined : Error → Error → Error

-- `errors.Join` of an error and what a call returned, and of what two calls returned.
abbrev pub join_with : Error → Result Error (Unit {0}) → Error
join_with e (ok u) = e
join_with e (err later) = joined e later

abbrev pub join_results :
    Result Error (Unit {0}) → Result Error (Unit {0}) → Result Error (Unit {0})
join_results (ok u) later = later
join_results (err e) later = err (join_with e later)
