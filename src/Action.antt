-- ===== src/Action.antt =====
-- A Python call: it reads and writes the `World` and may raise. What was written before a raise
-- stays written, so the world comes back beside the exception too.
mod Defs
mod Rules
unfoldable pub use Defs.*
pub use Rules.*
