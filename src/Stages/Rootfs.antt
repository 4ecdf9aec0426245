-- ===== src/Stages/Rootfs.antt =====
-- stages/rootfs.py and stages/config_setup.py: the root file system of the image.
use pronze.Prelude.{
  ℕ, zero, suc, String, ◌<>◌, Bool, true, false, not, ◌&&◌, ◌||◌, Option, none, some, List, [], ◌∷◌,
  ◌==◌, string_eq, if◌then◌else◌, contains,
}
use pronze.Prelude.Texts.{join, has_part}
use pronze.Prelude.Dict.{lookup}
use pronze.World.{World, FilePath, root, ◌/◌, join_path, failed, NodeState, relative}
use pronze.Action.{file_not_found, os_error, ⊤, Action, pure, raise, gets, ◌>>=◌, ◌>>◌, for_each}
use pronze.Os.{exists, isdir, islink, makedirs, rmtree, remove, listdir, chmod, make_symlink}
use pronze.Commands.{copy_file_or_symlink, copy_dir_contents, write_text_file}
use pronze.Status.{allowed_failures}
use pronze.Report.{config_at}
use pronze.Stages.InitScript.{init_script}
use pronze.Stages.Cache.{context}

abbrev root_dirs : List (List String)
root_dirs =
    ("bin" ∷ [])
    ∷ ("sbin" ∷ [])
    ∷ ("usr" ∷ "bin" ∷ [])
    ∷ ("usr" ∷ "sbin" ∷ [])
    ∷ ("lib" ∷ [])
    ∷ ("lib64" ∷ [])
    ∷ ("proc" ∷ [])
    ∷ ("sys" ∷ [])
    ∷ ("dev" ∷ [])
    ∷ ("tmp" ∷ [])
    ∷ ("etc" ∷ "s6-services" ∷ "pronze" ∷ [])
    ∷ ("kernel" ∷ [])
    ∷ ("runtime" ∷ "profiles" ∷ [])
    ∷ ("usr" ∷ "lib" ∷ [])
    ∷ []

-- A build target that goes into the image: its path below the workspace, and its directory there.
pub record Item : Type 0 where
  pub src : List String
  pub dest : List String

unfoldable pub image_items : List Item
image_items =
    record {
      src = "daemon" ∷ "target" ∷ "x86_64-unknown-linux-musl" ∷ "release" ∷ "pronzed" ∷ [];
      dest = "usr" ∷ "bin" ∷ [];
    }
    ∷ record { src = "sdk" ∷ "c" ∷ "src" ∷ "libpronze.so" ∷ []; dest = "usr" ∷ "lib" ∷ [] }
    ∷ record { src = "test" ∷ "test_alloc" ∷ []; dest = "usr" ∷ "bin" ∷ [] }
    ∷ record { src = "test" ∷ "test_bounds" ∷ []; dest = "usr" ∷ "bin" ∷ [] }
    ∷ record { src = "test" ∷ "test_zig" ∷ []; dest = "usr" ∷ "bin" ∷ [] }
    ∷ record {
      src =
          "test" ∷ "test_rust" ∷ "target" ∷ "x86_64-unknown-linux-musl" ∷ "release" ∷ "test_rust"
          ∷ [];
      dest = "usr" ∷ "bin" ∷ [];
    }
    ∷ record { src = "profiles" ∷ "default.mfs" ∷ []; dest = "runtime" ∷ "profiles" ∷ [] }
    ∷ record { src = "kernel" ∷ "pronze.ko" ∷ []; dest = "kernel" ∷ [] }
    ∷ []

-- the stage that makes a target, by parts of its path
unfoldable pub stage_of : String → Option String
unfolding has_part
stage_of src =
    if has_part src "daemon/"
    then some "CompileDaemon"
    else if has_part src "sdk/" || has_part src "test/test_"
    then some "CompileSDK"
    else if has_part src "kernel/"
    then some "CompileKernelModule"
    else none

abbrev is_failed : Option NodeState → Bool
is_failed none = false
is_failed (some s) = elim s.status [ failed ↦ true | _ ↦ false ]

-- whether the stage of a missing target has failed and was allowed to
unfoldable pub may_be_missing : List String → Option String → World → Bool
may_be_missing allowed none w = false
may_be_missing allowed (some stage) w =
    is_failed (lookup stage w.node_states) && contains stage allowed

-- one round of the loop over the build targets
unfoldable pub copy_target_in : List String → Item → Action ⊤
copy_target_in allowed item = do
  c ← context
  let src_path = join_path c.workspace_dir item.src
  there ← exists src_path
  stage_failed ← gets (may_be_missing allowed (stage_of (join "/" item.src)))
  if there
      then copy_file_or_symlink src_path (join_path c.rootfs_dir item.dest)
      else if stage_failed
      then pure tt
      else raise (file_not_found src_path)

-- `lib/ld-musl-x86_64.so.1`, a link to the C library beside it
unfoldable pub link_loader : FilePath → Action ⊤
link_loader ld_link = do
  there ← exists ld_link
  link ← islink ld_link
  if there || link then remove ld_link else pure tt
  make_symlink (relative ("libc.so" ∷ [])) ld_link

-- `AssembleRootfsStage.run`
unfoldable pub assemble_rootfs : Action ⊤
assemble_rootfs = do
  c ← context
  old ← exists c.rootfs_dir
  if old then rmtree c.rootfs_dir else pure tt
  makedirs c.rootfs_dir
  for_each root_dirs (λ d. makedirs (join_path c.rootfs_dir d))
  busybox_ver ← config_at "BUSYBOX_VERSION"
  copy_dir_contents (c.src_dir / ("busybox-" <> busybox_ver) / "_install") c.rootfs_dir
  let s6_bin = root / "tmp" / "s6_install" / "usr" / "bin"
  names ← listdir s6_bin
  for_each names (λ n. copy_file_or_symlink (s6_bin / n) (c.rootfs_dir / "usr" / "bin"))
  let run_script_dest = c.rootfs_dir / "etc" / "s6-services" / "pronze" / "run"
  copy_file_or_symlink (c.workspace_dir / "s6" / "pronze" / "run") run_script_dest
  chmod run_script_dest 0o755
  for_each image_items (copy_target_in (allowed_failures c.config))
  copy_file_or_symlink (root / "usr" / "lib" / "x86_64-linux-musl" / "libc.so")
      (c.rootfs_dir / "lib" / "libc.so")
  link_loader (c.rootfs_dir / "lib" / "ld-musl-x86_64.so.1")
  write_text_file (c.rootfs_dir / "init") init_script
  chmod (c.rootfs_dir / "init") 0o755

-- the nested `copy_recursive(src, dst)`, to a depth of directories
unfoldable pub copy_recursive : ℕ → FilePath → FilePath → Action ⊤
copy_recursive zero src dst = raise (os_error "too deep" src)
copy_recursive (suc fuel) src dst = do
  let deeper = λ (item : String). copy_recursive fuel (src / item) (dst / item)
  directory ← isdir src
  link ← islink src
  if directory && not link
      then (do makedirs dst; items ← listdir src; for_each items deeper)
      else copy_file_or_symlink src dst

-- Python gives up at a recursion of about this depth.
abbrev max_depth : ℕ
max_depth = 1000

abbrev pub copy_setup_item : FilePath → FilePath → String → Action ⊤
copy_setup_item src dst item =
    if item == "README.md" then pure tt else copy_recursive max_depth (src / item) (dst / item)

-- `CopyConfigurationSetupStage.run`
unfoldable pub copy_configuration_setup : Action ⊤
copy_configuration_setup = do
  c ← context
  let src_dir = c.workspace_dir / "configuration_setup"
  there ← isdir src_dir
  if there
      then (do items ← listdir src_dir; for_each items (copy_setup_item src_dir c.rootfs_dir))
      else pure tt
