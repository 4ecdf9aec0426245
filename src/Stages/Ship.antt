-- ===== src/Stages/Ship.antt =====
-- stages/clean_output.py and stages/ship.py: the output directory, and the cache of finished images.
use pronze.Prelude.{String, ◌<>◌, not, ◌&&◌, none, List, [], ◌∷◌, ◌==◌, string_eq, if◌then◌else◌}
use pronze.World.{Env, FilePath, ◌/◌, Context, success, skipped, hashes}
use pronze.Action.{⊤, Action, pure, ◌>>=◌, ◌>>◌, for_each, try_pass}
use pronze.Os.{exists, isdir, islink, rmtree, remove, listdir, copy2, write_text}
use pronze.Commands.{write_json_file, write_stage_flags}
use pronze.Modules.{workspace_path}
use pronze.Status.{update_node_status}
use pronze.Report.{compute_all_hashes}
use pronze.Stages.Cache.{context, saved_hash, all_exist, remove_if_exists, mark_done}
use pronze.Stages.Sdk.{in_dir}
use pronze.Stages.EarlyExit.{copy_if_exists}

abbrev pub shipped_names : List String
shipped_names =
    "libpronze.so" ∷ "pronzed" ∷ "test_alloc" ∷ "test_bounds" ∷ "test_zig" ∷ "test_rust"
    ∷ "pronze.ko" ∷ []

-- those of some binaries that stand in the workspace
unfoldable pub present : Context → List String → Action (List String)
present c [] = pure []
present c (name ∷ names) = do
  there ← exists (workspace_path c name)
  rest ← present c names
  pure (if there then name ∷ rest else rest)

unfoldable pub shipped_files : Action (List String)
shipped_files = do c ← context; names ← present c shipped_names; pure ("pronzeos.img" ∷ names)

-- a failure to delete one item is logged, and the loop goes on
abbrev pub delete_item : FilePath → String → Action ⊤
delete_item output_dir item = try_pass (do
  directory ← isdir (output_dir / item)
  link ← islink (output_dir / item)
  if directory && not link then rmtree (output_dir / item) else remove (output_dir / item))

unfoldable pub clean_dir : FilePath → Action ⊤
clean_dir output_dir = do
  there ← isdir output_dir
  if there
      then (do items ← listdir output_dir; for_each items (delete_item output_dir))
      else pure tt

abbrev to_both : Context → String → Action ⊤
to_both c name = do
  copy_if_exists (workspace_path c name) (c.output_dir / name)
  copy_if_exists (workspace_path c name) (c.nochanges_dir / name)

module _ ⦃env : Env⦄ where
  -- `CleanOutputStage.run`
  unfoldable pub clean_output : Action ⊤
  clean_output = do
    c ← context
    saved ← saved_hash (c.nochanges_dir / "ShipImage.hash")
    files ← shipped_files
    all_cached_exist ← all_exist (in_dir c.nochanges_dir files)
    has_done ← exists (c.nochanges_dir / "ShipImage.done")
    if not c.repackage_only_active && saved == c.master_hash && has_done && all_cached_exist
        then update_node_status "CleanOutput" skipped "Output directory preserved (Ship cached)"
            none
        else (do
          clean_dir c.output_dir
          update_node_status "CleanOutput" success "Output directory cleaned." none)

  unfoldable pub restore_shipped : Context → List String → Action ⊤
  restore_shipped c files = do
    for_each files (λ name. copy_if_exists (c.nochanges_dir / name) (c.output_dir / name))
    update_node_status "ShipImage" skipped "Restored from cache" none

  -- the flags are taken down first, and set again when all is shipped
  unfoldable pub ship : Context → Action ⊤
  ship c = do
    for_each ("ShipImage.hash" ∷ "ShipImage.done" ∷ "master.hash" ∷ "master.done" ∷ [])
        (λ f. remove_if_exists (c.nochanges_dir / f))
    copy2 (c.work_dir / "pronzeos.img") (c.output_dir / "pronzeos.img")
    copy2 (c.output_dir / "pronzeos.img") (c.nochanges_dir / "pronzeos.img")
    for_each shipped_names (to_both c)
    write_text (c.nochanges_dir / "master.hash") (c.master_hash <> "\n")
    mark_done (c.nochanges_dir / "master.done")
    current ← compute_all_hashes
    write_json_file (c.nochanges_dir / "hashes.json") (hashes current)
    write_stage_flags c.nochanges_dir "master" c.master_hash
    write_stage_flags c.nochanges_dir "ShipImage" c.master_hash

  -- `ShipImageStage.run`
  unfoldable pub ship_image : Action ⊤
  ship_image = do
    c ← context
    saved ← saved_hash (c.nochanges_dir / "ShipImage.hash")
    files ← shipped_files
    has_done ← exists (c.nochanges_dir / "ShipImage.done")
    all_cached_exist ← all_exist (in_dir c.nochanges_dir files)
    if not c.repackage_only_active && saved == c.master_hash && has_done && all_cached_exist
        then restore_shipped c files
        else ship c
