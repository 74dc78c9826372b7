-- ===== src/Index.antt =====
-- src/index.h and src/index.cpp: the persistent hash index. The state of an action is the file at the
-- index's path, `none` where there is none; opening a file that exists and writing always succeed.
-- The actions that change a file are in `Index/Update`.
mod Read
mod File
mod Update
mod Layout
pub mod Bucket
pub mod Set
pub mod Header
pub mod Erase
pub mod Table
pub mod Find
pub mod Counts
pub mod Represents
mod Chains
mod Entries
unfoldable pub use Read.*
unfoldable pub use File.*
unfoldable pub use Update.*
