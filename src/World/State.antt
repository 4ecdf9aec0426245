-- ===== src/World/State.antt =====
-- The global variables of common.py, and the attributes of `PipelineContext`.
use pronze.Prelude.{ℕ, String, Bool, Option, List}
use pronze.Prelude.Int.{ℤ}
use pronze.Prelude.Dict.{Dict}
use pronze.World.Paths.{FilePath}
use pronze.World.Files.{Fs, StageBuild, BuildStats}

pub data Status : Type 0 where
  pending running success failed skipped : Status

-- An entry of `node_states`.
pub record NodeState : Type 0 where
  pub status : Status
  pub details : String
  pub elapsed : Option ℤ
  pub start_time : Option ℤ
  pub end_time : Option ℤ

-- An entry of `detected_changes`.
pub record Change : Type 0 where
  pub component : String
  pub old : String
  pub new : String

-- An entry of `compilation_analyzer_data`.
pub record StageFiles : Type 0 where
  pub files : ℕ
  pub status : String

-- A row of the final report.
pub record Row : Type 0 where
  pub name : String
  pub status : Option Status
  pub elapsed : String

pub record StatePayload : Type 0 where
  pub nodes : Dict String NodeState
  pub build_start_time : Option ℤ
  pub server_current_time : ℤ
  pub build_completed : Bool
  pub build_active : Bool
  pub qemu_active : Bool
  pub qemu_display_mode : String
  pub qemu_pull_rate : ℕ
  pub elapsed_time : ℤ
  pub build_number : ℕ
  pub build_uuid : String
  pub stats : BuildStats
  pub stage_builds : Dict String StageBuild
  pub versions : Dict String String
  pub allowed_failures : List String

pub record UpdatePayload : Type 0 where
  pub name : String
  pub status : Status
  pub details : String
  pub elapsed : Option ℤ
  pub start_time : Option ℤ
  pub end_time : Option ℤ
  pub logs : String
  pub build_start_time : Option ℤ
  pub server_current_time : ℤ
  pub stage_builds : Dict String StageBuild
  pub versions : Dict String String

-- A server-sent event, by its name.
pub data Event : Type 0 where
  update : UpdatePayload → Event
  state : StatePayload → Event
  total_report : ℤ → String → List Row → Event
  initial_logs : Dict String String → Event
  qemu_initial_logs : String → Event
  hashes_report : List Change → Dict String String → Event
  analyzer_report : Dict String StageFiles → ℕ → Event
  qemu_log : String → Event
  qemu_started qemu_stopped : Event

-- The QEMU process: `none` as its exit code while it runs.
pub record Process : Type 0 where
  pub command : List String
  pub written : String
  pub exit_code : Option ℕ

pub record Context : Type 0 where
  pub target : String
  pub workspace_dir : FilePath
  pub opt_dir : FilePath
  pub download_dir : FilePath
  pub src_dir : FilePath
  pub output_dir : FilePath
  pub work_dir : FilePath
  pub rootfs_dir : FilePath
  pub nochanges_dir : FilePath
  pub config : Dict String String
  pub master_hash : String
  pub skip_remaining : Bool
  pub repackage_only_active : Bool

pub record World : Type 0 where
  pub fs : Fs
  pub modes : Dict FilePath ℕ
  -- how often the clock was read, a UUID was drawn and a command was run
  pub readings : ℕ
  pub drawn : ℕ
  pub commands : List String
  -- set_runtime_flags
  pub no_logs : Bool
  pub no_logs_terminal : Bool
  pub no_view : Bool
  -- progress
  pub current_stage_name : Option String
  pub node_states : Dict String NodeState
  pub log_buffers : Dict String String
  pub clients : List (List Event)
  pub detected_changes : List Change
  pub current_hashes_prefix : Dict String String
  pub analyzer_stages : Dict String StageFiles
  pub analyzer_total : ℕ
  -- the build
  pub build_queue : ℕ
  pub build_active : Bool
  pub build_completed : Bool
  pub build_start_time : Option ℤ
  pub total_build_time : ℤ
  pub final_status_text : String
  pub build_number : ℕ
  pub build_uuid : String
  pub portal_password : String
  -- the guest
  pub qemu_process : Option Process
  -- the guests that run on although the program has forgotten them
  pub left_running : List Process
  pub qemu_log_buffer : String
  pub qemu_batch_buffer : String
  pub qemu_display_mode : String
  pub qemu_pull_rate : ℕ
  -- global_context
  pub context_ready : Bool
  pub pipeline_ready : Bool
  pub context : Context
