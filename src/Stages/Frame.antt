-- ===== src/Stages/Frame.antt =====
-- What the stages leave as it is: each keeps every fact that reads nothing of what a build changes.
pub mod Sources
pub mod Compiled
pub mod Packed
