-- ===== src/Tests/Sample.antt =====
-- A host, a workspace and a state for the examples.
use pronze.Prelude.{String, true, false, none, some, [], ◌∷◌}
use pronze.Prelude.Int.{pos}
use pronze.World.{Env, World, FilePath, root, ◌/◌, Fs, file, dir, Content, text}
use pronze.Config.{new_context}
use pronze.Portal.{Request, malformed}

abbrev bytes_of : Content → String
bytes_of (text s) = s
bytes_of _ = "{}"

-- A host whose commands all succeed and leave the files as they are.
abbrev pub host : Env
host = record {
  shell = λ n c fs. record { output = []; returncode = pos 0; refusal = none; files = fs };
  retrieve = λ url fs. none;
  which = λ name fs. false;
  sha256 = λ s. s;
  bytes = bytes_of;
  time = λ n. pos n;
  uuid4 = λ n. "uuid";
  seconds = λ t. "0.00";
  members = λ c. none;
  system = "Linux";
  machine = none;
  kvm = false;
  stops = λ args. true;
  cwd = root;
  starts = λ args fs. true;
  takes_input = λ args s. true;
}

abbrev pub workspace : FilePath
workspace = root / "workspace"

abbrev pub cache : FilePath
cache = workspace / ".output-nochanges"

-- The directories of a workspace that has been built once.
abbrev pub files : Fs
files =
    (workspace, dir)
    ∷ (workspace / "kernel", dir)
    ∷ (workspace / "kernel" / "pronze.c", file (text "module"))
    ∷ (cache, dir)
    ∷ (cache / "bzImage", file (text "image"))
    ∷ []

abbrev pub sample : World
sample = record {
  fs = files;
  modes = [];
  readings = 0;
  drawn = 0;
  commands = [];
  no_logs = false;
  no_logs_terminal = false;
  no_view = false;
  current_stage_name = none;
  node_states = [];
  log_buffers = [];
  clients = [];
  detected_changes = [];
  current_hashes_prefix = [];
  analyzer_stages = [];
  analyzer_total = 0;
  build_queue = 0;
  build_active = false;
  build_completed = false;
  build_start_time = none;
  total_build_time = pos 0;
  final_status_text = "";
  build_number = 0;
  build_uuid = "N/A";
  portal_password = "secret";
  qemu_process = none;
  left_running = [];
  qemu_log_buffer = "";
  qemu_batch_buffer = "";
  qemu_display_mode = "serial";
  qemu_pull_rate = 100;
  context_ready = true;
  pipeline_ready = true;
  context = new_context "distro" workspace (root / "opt" / "pronze");
}

-- A request by path and password.
abbrev pub request : String → String → Request
request path password = record {
  path = path;
  url_path = path;
  query_password = none;
  password_header = some password;
  body = malformed;
}
