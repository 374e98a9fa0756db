-- ===== src/Storage.antt =====
-- storage/: the key-value engines, the encoding of MVCC keys and the MVCC transactions.
pub mod Errors
pub mod Key
pub mod Entries
pub mod BTree
pub mod Engine
pub mod Memory
pub mod Disk
pub mod Versions
pub mod Mvcc
