-- ===== src/Report/Reads.antt =====
-- Reading the configuration and hashing the inputs change nothing.
use pronze.Prelude.{String, none, some, Option}
use pronze.World.{World, Env}
use pronze.Action.{Keeps, keeps_rules}
use pronze.Hashing.Reads.{get_file_hash-Keeps, get_dir_hash-Keeps}
use pronze.Report.Hashes.{require_key, config_at, compute_all_hashes}

module _ {P : World → Type 0} where
  require_key-Keeps : (key : String) (o : Option String) → Keeps P (require_key key o)
  require_key-Keeps key none = search keeps_rules
  require_key-Keeps key (some v) = search keeps_rules

  pub config_at-Keeps : (key : String) → Keeps P (config_at key)
  unfolding config_at
  config_at-Keeps key = search (keeps_rules, require_key-Keeps)

  pub compute_all_hashes-Keeps : ⦃env : Env⦄ → Keeps P compute_all_hashes
  unfolding compute_all_hashes
  compute_all_hashes-Keeps =
      search (keeps_rules, config_at-Keeps, get_dir_hash-Keeps, get_file_hash-Keeps) depth 50
