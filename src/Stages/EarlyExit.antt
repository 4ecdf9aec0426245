-- ===== src/Stages/EarlyExit.antt =====
-- stages/early_exit.py: the master hash, and the build that is cut short where nothing has changed.
pub mod Blocked
use pronze.Prelude.{
  String, ◌<>◌, Bool, true, false, not, ◌&&◌, ◌||◌, none, List, [], ◌∷◌, ◌==◌, string_eq,
  if◌then◌else◌, get_or_else,
}
use pronze.Prelude.Texts.{join}
use pronze.Prelude.Dict.{Dict, lookup}
use pronze.World.{World, Env, FilePath, ◌/◌, join_path, Context, success}
use pronze.Action.{⊤, Action, pure, gets, modify, ◌>>=◌, ◌>>◌, for_each}
use pronze.Os.{exists, makedirs, copy2}
use pronze.Status.{update_node_status}
use pronze.Report.{compute_all_hashes, hash_of}
use pronze.Modules.{musl_release, workspace_path}
use pronze.Execute.{set_context}
use pronze.Stages.Cache.{context, saved_hash, mark_done}

-- the inputs of the master hash, in their order
unfoldable pub master_inputs : Dict String String → List String
master_inputs h =
    hash_of "kernel_dir" h
    ∷ hash_of "sdk_dir" h
    ∷ hash_of "daemon_dir" h
    ∷ hash_of "s6_dir" h
    ∷ hash_of "test_dir" h
    ∷ hash_of "profiles_dir" h
    ∷ hash_of "build_pipeline_dir" h
    ∷ hash_of "config_setup_dir" h
    ∷ hash_of "pipeline_conf" h
    ∷ hash_of "linux_ver" h
    ∷ hash_of "busybox_ver" h
    ∷ hash_of "skalibs_ver" h
    ∷ hash_of "execline_ver" h
    ∷ hash_of "s6_ver" h
    ∷ hash_of "linux_tar" h
    ∷ hash_of "busybox_tar" h
    ∷ hash_of "skalibs_tar" h
    ∷ hash_of "execline_tar" h
    ∷ hash_of "s6_tar" h
    ∷ []

-- `if os.path.exists(src): shutil.copy2(src, dst)`
unfoldable pub copy_if_exists : FilePath → FilePath → Action ⊤
copy_if_exists src dst = do there ← exists src; if there then copy2 src dst else pure tt

abbrev binaries : List String
binaries =
    "libpronze.so" ∷ "pronzed" ∷ "test_alloc" ∷ "test_bounds" ∷ "test_zig" ∷ "test_rust"
    ∷ "pronze.ko" ∷ []

abbrev in_workspace : List String
in_workspace = "libpronze.so" ∷ "pronze.ko" ∷ "test_alloc" ∷ "test_bounds" ∷ "test_zig" ∷ []

-- the image and the binaries of the cache, back to where a build leaves them
unfoldable pub restore_all : Context → Action ⊤
restore_all c = do
  copy2 (c.nochanges_dir / "pronzeos.img") (c.output_dir / "pronzeos.img")
  for_each binaries (λ b. copy_if_exists (c.nochanges_dir / b) c.output_dir)
  for_each in_workspace (λ b. copy_if_exists (c.nochanges_dir / b) (workspace_path c b))
  makedirs (join_path (c.workspace_dir / "test" / "test_rust") musl_release)
  makedirs (join_path (c.workspace_dir / "daemon") musl_release)
  copy_if_exists (c.nochanges_dir / "test_rust") (workspace_path c "test_rust")
  copy_if_exists (c.nochanges_dir / "pronzed") (workspace_path c "pronzed")

abbrev pub skip_rest : Action ⊤
skip_rest = modify (set_context (λ c. record c { skip_remaining = true }))

module _ ⦃env : Env⦄ where
  unfoldable pub master_hash_of : Dict String String → String
  master_hash_of h = env.sha256 (join "-" (master_inputs h))

  -- the end of each branch: what it reports, and the stage's own flag
  abbrev pub report : String → Action ⊤
  report details = do
    c ← context
    update_node_status "CheckEarlyExit" success details none
    mark_done (c.nochanges_dir / "CheckEarlyExit.done")

  -- what is done where the master hash is the saved one
  unfoldable pub exit_early : Bool → Bool → Action ⊤
  exit_early has_output has_cached = do
    c ← context
    if has_output
        then (do skip_rest; report "Unchanged (Early Exit)")
        else if has_cached
        then (do restore_all c; skip_rest; report "Restored from Cache")
        else report "Changes detected, executing DAG"

  -- `CheckEarlyExitStage.run`
  unfoldable pub check_early_exit : Action ⊤
  check_early_exit = do
    current ← compute_all_hashes
    let hash = master_hash_of current
    modify (set_context (λ c. record c { master_hash = hash }))
    c ← context
    saved ← saved_hash (c.nochanges_dir / "master.hash")
    has_done ← exists (c.nochanges_dir / "master.done")
    has_output ← exists (c.output_dir / "pronzeos.img")
    has_cached ← exists (c.nochanges_dir / "pronzeos.img")
    if not c.repackage_only_active && saved == hash && has_done
        then exit_early has_output has_cached
        else report "Changes detected, executing DAG"
