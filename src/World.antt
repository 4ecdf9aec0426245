-- ===== src/World.antt =====
-- What build-pipeline/common.py keeps between calls: the file system that it works on, the module's
-- global variables, the pipeline's context, and what the code calls outside itself.
mod Paths
mod Files
mod State
mod External
unfoldable pub use Paths.*
unfoldable pub use Files.*
unfoldable pub use State.*
pub use External.*
