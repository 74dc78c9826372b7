-- ===== src/Database.antt =====
-- include/zidanedb/database.h and src/database.cpp: the store, an append-only log of records with the
-- hash index beside it. The state of a method is the object's members and the two files.
mod Report
mod State
mod Log
mod Rebuild
mod Methods
mod Open
pub mod Scan
pub mod Parsing
pub mod Reads
pub mod Replay
pub mod Recovery
pub mod Contents
pub mod Writes
pub mod Removals
pub mod Opening
pub use Report.*
unfoldable pub use State.*
unfoldable pub use Log.*
unfoldable pub use Rebuild.*
unfoldable pub use Methods.*
unfoldable pub use Open.*
