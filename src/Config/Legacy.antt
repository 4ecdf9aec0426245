-- ===== src/Config/Legacy.antt =====
-- The migration in the constructor of `PipelineContext`, build-pipeline/common.py: what stands in a
-- directory .builthash of an older version is moved to the directory of the cache.
use pronze.Prelude.{
  ℕ, zero, suc, String, Bool, true, false, ◌&&◌, List, [], ◌∷◌, if◌then◌else◌, is_some,
}
use pronze.Prelude.Dict.{lookup}
use pronze.World.{FilePath, root, ◌/◌, path_eq}
use pronze.Action.{
  exception, os_error, ⊤, Action, pure, raise, gets, ◌>>=◌, ◌>>◌, try_except, try_pass, when,
  for_each,
}
use pronze.Os.{exists, isdir, listdir, makedirs, rmtree, copy2}

-- whether an entry of a tree was copied
abbrev is_copied : Action ⊤ → Action Bool
is_copied copy = try_except (do copy; pure true) (λ _. pure false)

-- whether all of them were, each one tried
unfoldable pub copy_entries : (String → Action ⊤) → List String → Action Bool
copy_entries copy [] = pure true
copy_entries copy (item ∷ items) = do
  let rest = copy_entries copy items
  good ← is_copied (copy item)
  all_good ← rest
  pure (good && all_good)

abbrev copy_as : (FilePath → FilePath → Action ⊤) → FilePath → FilePath → Action ⊤
copy_as copy_dir s d = do directory ← isdir s; if directory then copy_dir s d else copy2 s d

-- `shutil.copytree(src, dst)`: links are followed, `dst` must be new, and what cannot be copied is
-- reported when all the rest has been.
unfoldable pub copy_new_tree : ℕ → FilePath → FilePath → Action ⊤
copy_new_tree zero src dst = raise (exception "maximum recursion depth exceeded")
copy_new_tree (suc depth) src dst = do
  items ← listdir src
  taken ← gets (λ w. is_some (lookup dst w.fs))
  when taken (raise (os_error "file exists" dst))
  makedirs dst
  all_good ← copy_entries (λ item. copy_as (copy_new_tree depth) (src / item) (dst / item)) items
  if all_good then pure tt else raise (os_error "not copied" src)

abbrev max_depth : ℕ
max_depth = 1000

-- one item, over whatever stands at its new place
unfoldable pub migrate_item : FilePath → FilePath → String → Action ⊤
migrate_item legacy_dir new_dir item = do
  directory ← isdir (legacy_dir / item)
  there ← exists (new_dir / item)
  if directory
      then (do
        when there (rmtree (new_dir / item))
        copy_new_tree max_depth (legacy_dir / item) (new_dir / item))
      else copy2 (legacy_dir / item) (new_dir / item)

-- The workspace's .builthash: an item that cannot be copied is left out.
unfoldable pub migrate_workspace : FilePath → FilePath → Action ⊤
migrate_workspace legacy_dir nochanges_dir = do
  there ← isdir legacy_dir
  if there
      then (do
        items ← listdir legacy_dir
        for_each items (λ item. try_pass (migrate_item legacy_dir nochanges_dir item))
        try_pass (rmtree legacy_dir))
      else pure tt

-- The container's /.builthash: an item that cannot be copied ends the migration, and the directory stays.
unfoldable pub migrate_container : Action ⊤
migrate_container = do
  there ← isdir (root / ".builthash")
  if there
      then try_pass (do
        new_there ← exists (root / ".output-nochanges")
        when new_there (do
          items ← listdir (root / ".builthash")
          for_each items (migrate_item (root / ".builthash") (root / ".output-nochanges")))
        rmtree (root / ".builthash"))
      else pure tt
