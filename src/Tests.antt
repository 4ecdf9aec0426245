-- ===== src/Tests.antt =====
-- Examples: the theorems at concrete inputs.
pub mod Sample
pub mod Sessions
pub mod Order
pub mod Runs
pub mod Pages
pub mod Caches
pub mod Records
