-- ===== src/Stages.antt =====
-- The stages of build-pipeline/stages, one module for each file or family of files.
pub mod Cache
pub mod Frame
pub mod Spared
pub mod Flags
pub mod Fetch
pub mod EarlyExit
pub mod Compile
pub mod Kernel
pub mod Sdk
pub mod InitScript
pub mod Rootfs
pub mod Image
pub mod Ship
