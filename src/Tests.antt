-- ===== src/Tests.antt =====
-- Runs of the model, and the theorems at concrete inputs.
mod Sample
mod Witnesses
mod Recovered
mod Stored
mod Opened
mod Lives
mod Parsed
mod Parsers
mod Counted
mod Crashed
