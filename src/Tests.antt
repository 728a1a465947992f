-- ===== src/Tests.antt =====
-- Concrete inputs for the tests.
pub mod Fixtures
pub mod Codecs
mod Values
mod Runs
mod Plans
mod Loads
mod Sorts
mod Starts
mod Scans
mod Saves
mod Selects
mod Flats
mod Rounds
mod Kept
mod Moves
