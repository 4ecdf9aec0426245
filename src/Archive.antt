-- ===== src/Archive.antt =====
-- The records of finished builds in build-pipeline/common.py: .archive/stage_builds.json,
-- .archive/stats.json and .archive/build_number.
pub mod Frame
pub mod Counts
pub mod Stages
use pronze.Prelude.{
  ℕ, ◌+◌, String, Bool, true, false, Option, none, some, List, [], ◌∷◌, ◌==◌, string_eq,
  if◌then◌else◌, get_or_else,
}
use pronze.Prelude.Int.{ℤ, pos}
use pronze.Prelude.Dict.{Dict, lookup, insert}
use pronze.World.{
  World, Env, FilePath, ◌/◌, Content, stage_builds, build_stats, StageBuild, BuildStats, Status,
  running, success, failed, skipped, pending,
}
use pronze.Action.{
  Exn, value_error, ⊤, Action, pure, raise, gets, modify, ◌>>=◌, ◌>>◌, try_except, try_pass,
}
use pronze.Os.{exists, read, write, makedirs, time, uuid4}

-- The text of a status, as the code spells it.
abbrev pub show_status : Status → String
show_status pending = "Pending"
show_status running = "Running"
show_status success = "Success"
show_status failed = "Failed"
show_status skipped = "Skipped"

unfoldable pub get_stage_builds_file : FilePath → Action FilePath
get_stage_builds_file workspace_dir = do
  makedirs (workspace_dir / ".archive")
  pure (workspace_dir / ".archive" / "stage_builds.json")

-- `json.load` where a dict of stage builds is expected
abbrev pub parse_stage_builds : Content → Action (Dict String StageBuild)
parse_stage_builds (stage_builds d) = pure d
parse_stage_builds _ = raise (value_error "stage_builds.json")

unfoldable pub load_stage_builds : FilePath → Action (Dict String StageBuild)
load_stage_builds workspace_dir = do
  fpath ← get_stage_builds_file workspace_dir
  there ← exists fpath
  if there then try_except (do c ← read fpath; parse_stage_builds c) (λ _. pure []) else pure []

unfoldable pub save_stage_builds : FilePath → Dict String StageBuild → Action ⊤
save_stage_builds workspace_dir d = do
  fpath ← get_stage_builds_file workspace_dir
  try_pass (write fpath (stage_builds d))

abbrev pub no_build : StageBuild
no_build = record { build_number = 0; uuid = "N/A"; status = "Pending"; timestamp = pos 0 }

module _ ⦃env : Env⦄ where
  -- `update_stage_build_info(workspace_dir, stage_name, status, compiled)`
  unfoldable pub update_stage_build_info : FilePath → String → String → Bool → Action ⊤
  update_stage_build_info workspace_dir stage_name status compiled = do
    d ← load_stage_builds workspace_dir
    let old = get_or_else (lookup stage_name d) no_build
    counted ←
        (if compiled
          then (do u ← uuid4; pure (record old { build_number = old.build_number + 1; uuid = u }))
          else pure old)
    now ← time
    save_stage_builds workspace_dir
        (insert stage_name (record counted { status = status; timestamp = now }) d)

unfoldable pub get_stats_file : FilePath → Action FilePath
get_stats_file workspace_dir = do
  makedirs (workspace_dir / ".archive")
  pure (workspace_dir / ".archive" / "stats.json")

abbrev pub parse_stats : Content → Action BuildStats
parse_stats (build_stats s) = pure s
parse_stats _ = raise (value_error "stats.json")

abbrev pub no_stats : BuildStats
no_stats = record { total_builds = 0; successful_builds = 0; failed_builds = 0 }

unfoldable pub load_build_stats : FilePath → Action BuildStats
load_build_stats workspace_dir = do
  fpath ← get_stats_file workspace_dir
  there ← exists fpath
  if there
      then try_except (do c ← read fpath; parse_stats c) (λ _. pure no_stats)
      else pure no_stats

unfoldable pub save_build_stats : FilePath → BuildStats → Action ⊤
save_build_stats workspace_dir stats = do
  fpath ← get_stats_file workspace_dir
  try_pass (write fpath (build_stats stats))

-- the counting in `update_build_stats`
unfoldable pub count_build : String → BuildStats → BuildStats
count_build status s =
    let counted = record s { total_builds = s.total_builds + 1 } in
    if status == "Complete"
    then record counted { successful_builds = s.successful_builds + 1 }
    else if status == "Failed"
    then record counted { failed_builds = s.failed_builds + 1 }
    else counted

unfoldable pub update_build_stats : FilePath → String → Action ⊤
update_build_stats workspace_dir status = do
  stats ← load_build_stats workspace_dir
  save_build_stats workspace_dir (count_build status stats)
