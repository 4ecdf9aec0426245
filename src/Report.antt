-- ===== src/Report.antt =====
-- What has changed and what there is to compile: `compute_all_hashes`, `generate_diff_report`,
-- `analyze_compilation_files` and the master hash of build-pipeline/common.py.
mod Hashes
mod Analyzer
mod Table
pub mod Reads
pub mod Frame
pub mod Changes
pub mod Missing
unfoldable pub use Hashes.*
unfoldable pub use Analyzer.*
unfoldable pub use Table.*
