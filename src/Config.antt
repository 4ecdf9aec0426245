-- ===== src/Config.antt =====
-- `PipelineContext`, pipeline.conf and .env, and the runtime flags, of build-pipeline/common.py.
mod Legacy
pub mod Settings
use pronze.Prelude.{
  ℕ, String, Bool, true, false, not, ◌||◌, Option, none, some, List, [], ◌∷◌, ◌==◌, string_eq,
  if◌then◌else◌,
}
use text.Mathlib.Text.{starts_with}
use pronze.Prelude.Texts.{concat, strip, strip_quotes, split_once, lines, parse_nat}
use pronze.Prelude.Dict.{Dict, insert}
use pronze.World.{World, FilePath, root, ◌/◌, Context}
use pronze.Action.{
  Exn, value_error, ⊤, Action, pure, raise, gets, modify, ◌>>=◌, ◌>>◌, try_except, try_pass,
  for_each,
}
use pronze.Config.Legacy.{migrate_workspace, migrate_container}
use pronze.Os.{exists, read_text, write_text, makedirs}

-- A line that is neither empty nor a comment, as its two sides of the first `=`.
unfoldable pub setting : String → Option (String × String)
setting raw =
    let line = strip raw in
    if line == "" || starts_with line "#" then none else elim (split_once b'=' line) [
      | none ↦ none
      | some (k, v) ↦ some (strip k, strip_quotes (strip v))
    ]

abbrev pub apply_setting : Option (String × String) → Dict String String → Dict String String
apply_setting none config = config
apply_setting (some (k, v)) config = insert k v config

-- `_load_config`: a later line wins over an earlier one
unfoldable pub read_settings : List String → Dict String String → Dict String String
read_settings [] config = config
read_settings (l ∷ ls) config = read_settings ls (apply_setting (setting l) config)

unfoldable pub load_config : FilePath → Action (Dict String String)
load_config workspace_dir = do
  there ← exists (workspace_dir / "pipeline.conf")
  if there
      then (do t ← read_text (workspace_dir / "pipeline.conf"); pure (read_settings (lines t) []))
      else pure []

abbrev pub default_pw : String
default_pw = "root"

abbrev pub password_or : Option (String × String) → String → String
password_or none rest = rest
password_or (some (k, v)) rest = if k == "PORTAL_PASSWORD" then v else rest

-- the loop of `load_portal_password`, which stops at the first line that sets the password
unfoldable pub find_password : List String → String
find_password [] = default_pw
find_password (l ∷ ls) = let rest = find_password ls in password_or (setting l) rest

abbrev set_password : String → World → World
set_password p w = record w { portal_password = p }

-- `load_portal_password(workspace_dir)`
unfoldable pub load_portal_password : FilePath → Action ⊤
load_portal_password workspace_dir = do
  there ← exists (workspace_dir / ".env")
  if there
      then (do
        password ←
            try_except (do t ← read_text (workspace_dir / ".env"); pure (find_password (lines t)))
              (λ _. pure default_pw)
        modify (set_password password))
      else (do
        try_pass (
            write_text (workspace_dir / ".env")
              "# PronzeOS Portal Authentication Settings\nPORTAL_PASSWORD=root\n")
        modify (set_password default_pw))

-- `int(f.read().strip())`
unfoldable pub read_number : FilePath → Action ℕ
read_number p = do
  t ← read_text p
  elim (parse_nat (strip t)) [ none ↦ raise (value_error t) | some n ↦ pure n ]

-- `init_build_info(workspace_dir)`
unfoldable pub init_build_info : FilePath → Action ⊤
init_build_info workspace_dir = do
  there ← exists (workspace_dir / ".archive" / "build_number")
  if there
      then try_pass (do
        n ← read_number (workspace_dir / ".archive" / "build_number")
        modify (λ w. record w { build_number = n }))
      else pure tt

-- `set_runtime_flags`
unfoldable pub set_runtime_flags : Bool → Bool → Bool → World → World
set_runtime_flags no_logs no_logs_terminal no_view w = record w {
  no_logs = no_logs;
  no_logs_terminal = no_logs_terminal;
  no_view = no_view;
}

-- The attributes of a new context, its configuration still empty.
unfoldable pub new_context : String → FilePath → FilePath → Context
new_context target workspace_dir opt_dir = record {
  target = target;
  workspace_dir = workspace_dir;
  opt_dir = opt_dir;
  download_dir = opt_dir / "downloads";
  src_dir = opt_dir / "src";
  output_dir = workspace_dir / "output";
  work_dir = root / "tmp" / "pronze_build";
  rootfs_dir = root / "tmp" / "pronze_build" / "rootfs";
  nochanges_dir = workspace_dir / ".output-nochanges";
  config = [];
  master_hash = "";
  skip_remaining = false;
  repackage_only_active = false;
}

-- the directories that a context needs
unfoldable pub context_dirs : Context → List FilePath
context_dirs c =
    c.opt_dir ∷ c.download_dir ∷ c.src_dir ∷ c.output_dir ∷ c.work_dir ∷ c.rootfs_dir
    ∷ c.nochanges_dir ∷ []

-- `PipelineContext(target, workspace_dir, opt_dir)`
unfoldable pub init_context : String → FilePath → FilePath → Action ⊤
init_context target workspace_dir opt_dir = do
  let c = new_context target workspace_dir opt_dir
  for_each (context_dirs c) makedirs
  migrate_workspace (workspace_dir / ".builthash") c.nochanges_dir
  migrate_container
  modify (λ w. record w { context = c })
  load_portal_password workspace_dir
  init_build_info workspace_dir
  config ← load_config workspace_dir
  modify (λ w. record w { context = record w.context { config = config }; context_ready = true })
