-- ===== src/Failpoints.antt =====
-- src/failpoints.h: the points at which the build for the crash tests stops the process. Methods has
-- the functions of that build, Failpoints/Stops and Failpoints/Crashes what a stop leaves behind,
-- Failpoints/Recovery and Failpoints/Closing what opening the files again makes of it.
mod Methods
pub mod Stops
pub mod Crashes
pub mod Recovery
pub mod Closing
pub mod Reached
unfoldable pub use Methods.*
