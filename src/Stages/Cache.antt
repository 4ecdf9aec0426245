-- ===== src/Stages/Cache.antt =====
-- What the compile stages share: the saved hash, the flags, and the order in which they are taken
-- down and set. stages/kernel.py, busybox.py, s6.py, kernel_module.py, sdk.py and daemon.py each
-- write this out.
pub mod Rebuild
pub mod Flags
use pronze.Prelude.{
  String, ◌<>◌, Bool, true, false, ◌&&◌, Option, none, some, List, [], ◌∷◌, ◌==◌, string_eq,
  if◌then◌else◌,
}
use pronze.Prelude.Texts.{strip}
use pronze.World.{World, Env, FilePath, ◌/◌, Status, skipped, Context}
use pronze.Action.{⊤, Action, pure, gets, modify, ◌>>=◌, ◌>>◌, when, for_each}
use pronze.Os.{exists, read_text, write_text, remove}
use pronze.Status.{update_node_status}

abbrev pub context : Action Context
context = gets (λ w. w.context)

-- `if os.path.exists(p): os.remove(p)`
unfoldable pub remove_if_exists : FilePath → Action ⊤
remove_if_exists p = do there ← exists p; if there then remove p else pure tt

-- the text of a hash file, or "" where there is none
unfoldable pub saved_hash : FilePath → Action String
saved_hash p = do there ← exists p; if there then (do t ← read_text p; pure (strip t)) else pure ""

-- whether all of some files are there
unfoldable pub all_exist : List FilePath → Action Bool
all_exist [] = pure true
all_exist (p ∷ ps) = do
  let rest = all_exist ps
  there ← exists p
  if there then rest else pure false

-- `with open(p, "w") as f: f.write("OK\n")`
abbrev pub mark_done : FilePath → Action ⊤
mark_done p = write_text p "OK\n"

-- `saved_hash == hash and os.path.exists(done) and …`
unfoldable pub is_cached : FilePath → FilePath → String → List FilePath → Action Bool
is_cached hash_file done_file hash cached = do
  saved ← saved_hash hash_file
  has_done ← exists done_file
  has_cached ← all_exist cached
  pure (saved == hash && has_done && has_cached)

module _ ⦃env : Env⦄ where
  -- The branch of a valid cache: restore, report, and set the flag again.
  unfoldable pub restore_stage : String → FilePath → Action ⊤ → Action ⊤
  restore_stage name done_file restore = do
    restore
    update_node_status name skipped "Restored from cache" none
    mark_done done_file

  -- The other branch: the flags are taken down before the work, and set after it, the hash first.
  unfoldable pub rebuild_stage : FilePath → FilePath → String → Action ⊤ → Action ⊤
  rebuild_stage hash_file done_file hash work = do
    remove_if_exists done_file
    remove_if_exists hash_file
    work
    write_text hash_file (hash <> "\n")
    mark_done done_file

  unfoldable pub cached_stage : String → String → List FilePath → Action ⊤ → Action ⊤ → Action ⊤
  cached_stage name hash cached restore work = do
    c ← context
    let hash_file = c.nochanges_dir / (name <> ".hash")
    let done_file = c.nochanges_dir / (name <> ".done")
    valid ← is_cached hash_file done_file hash cached
    if valid
        then restore_stage name done_file restore
        else rebuild_stage hash_file done_file hash work
