-- ===== src/Tests.antt =====
-- Tests of the definitions, and instances of the theorems at concrete data.
pub mod Engines
pub mod Labelling
pub mod Encoding
pub mod Parsing
pub mod Sending
pub mod Exposition
pub mod Tracking
