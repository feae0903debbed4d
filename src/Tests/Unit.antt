-- ===== src/Tests/Unit.antt =====
-- The repository's own unit tests, run on the definitions.
mod Frames
mod Domains
pub mod Routes
mod Networks
