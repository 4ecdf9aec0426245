-- ===== src/Modules.antt =====
-- `archive_modules_separately` and the archive of a finished build, in build-pipeline/common.py.
pub mod Frame
pub mod Numbers
use pronze.Prelude.{
  ℕ, ◌+◌, String, Bool, true, false, Option, none, some, List, [], ◌∷◌, ◌==◌, string_eq,
  if◌then◌else◌,
}
use text.Mathlib.Text.{starts_with}
use pronze.Prelude.Texts.{show_nat}
use pronze.Prelude.Dict.{Dict, lookup}
use pronze.World.{Env, FilePath, ◌/◌, join_path, Context, StageBuild, meta}
use pronze.Action.{⊤, Action, pure, gets, modify, ◌>>=◌, ◌>>◌, try_except, try_pass, for_each}
use pronze.Os.{exists, makedirs, write, write_text, copy2, time}
use pronze.Archive.{load_stage_builds}
use pronze.Config.{read_number}
use pronze.Status.{config_or}

pub record Module : Type 0 where
  pub name : String
  pub version : String
  pub stage : String
  pub files : List String

unfoldable pub modules_config : Dict String String → List Module
modules_config config =
    record {
      name = "kernel";
      version = config_or "LINUX_VERSION" config "6.6.21";
      stage = "CompileKernel";
      files = "bzImage" ∷ [];
    }
    ∷ record {
      name = "busybox";
      version = config_or "BUSYBOX_VERSION" config "1.36.1";
      stage = "CompileBusybox";
      files = "busybox_install.tar.gz" ∷ [];
    }
    ∷ record {
      name = "s6";
      version = config_or "S6_VERSION" config "2.11.3.2";
      stage = "CompileS6";
      files = "s6_install.tar.gz" ∷ [];
    }
    ∷ record {
      name = "kernel_module";
      version = config_or "KERNEL_MODULE_VERSION" config "0.1";
      stage = "CompileKernelModule";
      files = "pronze.ko" ∷ [];
    }
    ∷ record {
      name = "sdk";
      version = config_or "SDK_VERSION" config "0.1.0";
      stage = "CompileSDK";
      files = "libpronze.so" ∷ "test_alloc" ∷ "test_bounds" ∷ "test_zig" ∷ "test_rust" ∷ [];
    }
    ∷ record {
      name = "daemon";
      version = config_or "DAEMON_VERSION" config "0.1.0";
      stage = "CompileDaemon";
      files = "pronzed" ∷ [];
    }
    ∷ record {
      name = "userspace";
      version = config_or "USERSPACE_VERSION" config "0.1.0";
      stage = "AssembleGPTImage";
      files = "pronzeos.img" ∷ [];
    }
    ∷ []

abbrev pub musl_release : List String
musl_release = "target" ∷ "x86_64-unknown-linux-musl" ∷ "release" ∷ []

-- where a file is looked for that is in neither output directory
unfoldable pub workspace_path : Context → String → FilePath
workspace_path c src_name =
    if src_name == "pronze.ko"
    then c.workspace_dir / "kernel" / "pronze.ko"
    else if src_name == "libpronze.so"
    then c.workspace_dir / "sdk" / "c" / "src" / "libpronze.so"
    else if src_name == "pronzed"
    then join_path (c.workspace_dir / "daemon") musl_release / "pronzed"
    else if src_name == "test_rust"
    then join_path (c.workspace_dir / "test" / "test_rust") musl_release / "test_rust"
    else if starts_with src_name "test_"
    then c.workspace_dir / "test" / src_name
    else c.nochanges_dir / src_name

unfoldable pub find_module_file : Context → String → Action FilePath
find_module_file c src_name = do
  in_output ← exists (c.output_dir / src_name)
  in_nochanges ← exists (c.nochanges_dir / src_name)
  pure (
      if in_output
      then c.output_dir / src_name
      else if in_nochanges
      then c.nochanges_dir / src_name
      else workspace_path c src_name)

-- the files of a module that could be copied to its archive directory
unfoldable pub copy_module_files : Context → FilePath → List String → Action (List String)
copy_module_files c mod_dest_dir [] = pure []
copy_module_files c mod_dest_dir (src_name ∷ names) = do
  let rest = copy_module_files c mod_dest_dir names
  src_path ← find_module_file c src_name
  there ← exists src_path
  if there
      then (do
        makedirs mod_dest_dir
        copy2 src_path (mod_dest_dir / src_name)
        copied ← rest
        pure (src_name ∷ copied))
      else rest

abbrev pub component_versions : Dict String String → Dict String String
component_versions config =
    ("kernel_module", config_or "KERNEL_MODULE_VERSION" config "0.1")
    ∷ ("sdk", config_or "SDK_VERSION" config "0.1.0")
    ∷ ("framework", "Currently In Progress")
    ∷ ("daemon", config_or "DAEMON_VERSION" config "0.1.0")
    ∷ ("userspace", config_or "USERSPACE_VERSION" config "0.1.0")
    ∷ []

abbrev uuid_of : Option StageBuild → String
uuid_of none = "N/A"
uuid_of (some b) = b.uuid

abbrev number_of : Option StageBuild → ℕ → ℕ
number_of none n = n
number_of (some b) n = b.build_number

-- `build_num`, or `d` where the file is missing or is no number
abbrev pub number_or : ℕ → FilePath → Action ℕ
number_or d p = do
  there ← exists p
  if there then try_except (read_number p) (λ _. pure d) else pure d

abbrev pub target_file : String → Option String
target_file target =
    if target == "distro"
    then some "pronzeos.img"
    else if target == "module"
    then some "pronze.ko"
    else none

unfoldable pub copy_target : Context → FilePath → Option String → Action (List String)
copy_target c dest_dir none = pure []
copy_target c dest_dir (some name) = do
  there ← exists (c.output_dir / name)
  if there then (do copy2 (c.output_dir / name) (dest_dir / name); pure (name ∷ [])) else pure []

abbrev pub next_number : FilePath → Action ℕ
next_number p = do
  there ← exists p
  if there then try_except (do n ← read_number p; pure (n + 1)) (λ _. pure 1) else pure 1

abbrev pub none_copied : List String → Bool
none_copied [] = true
none_copied (_ ∷ _) = false

module _ ⦃env : Env⦄ where
  unfoldable pub archive_module : Context → ℕ → Dict String StageBuild → Module → Action ⊤
  archive_module c build_num stage_builds item = do
    let mod_dest_dir = c.workspace_dir / ".archive" / item.name / item.version
    copied_files ← copy_module_files c mod_dest_dir item.files
    if none_copied copied_files then pure tt else (do
      now ← time
      write (mod_dest_dir / "meta.json") (
          meta (record {
            uuid = uuid_of (lookup item.stage stage_builds);
            build_number = number_of (lookup item.stage stage_builds) build_num;
            subject = item.name;
            version = item.version;
            timestamp = now;
            files = copied_files;
            versions = component_versions c.config;
          })))

  -- `archive_modules_separately(context)`
  unfoldable pub archive_modules_separately : Action ⊤
  archive_modules_separately = try_pass (do
    c ← gets (λ w. w.context)
    makedirs (c.workspace_dir / ".archive")
    build_num ← number_or 1 (c.workspace_dir / ".archive" / "build_number")
    stage_builds ← load_stage_builds c.workspace_dir
    for_each (modules_config c.config) (archive_module c build_num stage_builds))

  -- The end of `Pipeline.execute`: count the build, and archive the image or the module.
  unfoldable pub archive_build : Action ⊤
  archive_build = try_pass (do
    c ← gets (λ w. w.context)
    let archive_dir = c.workspace_dir / ".archive"
    makedirs archive_dir
    n ← next_number (archive_dir / "build_number")
    modify (λ w. record w { build_number = n })
    write_text (archive_dir / "build_number") (show_nat n)
    let version = if c.target == "distro" then "0.1.0" else "0.1"
    let dest_dir = archive_dir / c.target / version
    makedirs dest_dir
    copied_files ← copy_target c dest_dir (target_file c.target)
    uuid ← gets (λ w. w.build_uuid)
    now ← time
    write (dest_dir / "meta.json") (
        meta (record {
          uuid = uuid;
          build_number = n;
          subject = c.target;
          version = version;
          timestamp = now;
          files = copied_files;
          versions =
              ("kernel_module", "0.1")
              ∷ ("sdk", "0.1.0")
              ∷ ("framework", "Currently In Progress")
              ∷ ("daemon", "0.1.0")
              ∷ ("userspace", "0.1.0")
              ∷ [];
        })))
