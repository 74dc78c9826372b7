-- ===== src/Matrix.antt =====
-- apps/matrix: the tests that run the database as a client. Utils and Processes are utils.cpp, the
-- second about the child process of the crash test; Workloads has the tests that write pairs and read
-- them back, Crash the crash test, Main the part of `main` behind the parser.
pub mod Utils
pub mod Processes
pub mod Workloads
pub mod Crash
pub mod Main
