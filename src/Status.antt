-- ===== src/Status.antt =====
-- The progress of the stages in build-pipeline/common.py: `update_node_status`, the payloads of the
-- events, and what goes to the clients of /events.
pub mod Frame
pub mod Update
use pronze.Prelude.{
  nat_eq, ℕ, String, ◌<>◌, Bool, true, false, not, ◌&&◌, ◌||◌, Option, none, some, List, [], ◌∷◌,
  ◌++◌, ◌==◌, string_eq, map, if◌then◌else◌, is_some, get_or_else, keep_if,
}
use pronze.Prelude.Int.{ℤ, pos, negsuc, ◌+ℤ◌, ◌-ℤ◌}
use pronze.Prelude.Texts.{strip, split}
use pronze.Prelude.Dict.{Dict, lookup, insert}
use pronze.World.{
  World, Env, FilePath, Status, pending, running, success, failed, skipped, NodeState, Change,
  StageFiles, Row, StatePayload, UpdatePayload, Event, update, state, total_report, hashes_report,
  analyzer_report, Process, Context,
}
use pronze.Action.{Exn, exception, ⊤, Action, pure, raise, gets, modify, ◌>>=◌, ◌>>◌, when}
use pronze.Os.{time}
use pronze.Archive.{show_status, load_stage_builds, load_build_stats, update_stage_build_info}

abbrev pub waiting : NodeState
waiting = record {
  status = pending;
  details = "Waiting in queue...";
  elapsed = none;
  start_time = none;
  end_time = none;
}

-- `q.put(msg)` for every client
abbrev pub broadcast : Event → World → World
broadcast e w = record w { clients = map (λ q. q ++ (e ∷ [])) w.clients }

-- `[x.strip() for x in raw.split(",") if x.strip()]`
unfoldable pub allowed_failures : Dict String String → List String
allowed_failures config =
    keep_if (λ x. not (x == ""))
      (map strip (split b',' (get_or_else (lookup "ALLOWED_FAILURES" config) "")))

abbrev pub config_or : String → Dict String String → String → String
config_or key config d = get_or_else (lookup key config) d

abbrev versions_of : Bool → Dict String String → Dict String String
versions_of true config =
    ("kernel", config_or "LINUX_VERSION" config "N/A")
    ∷ ("busybox", config_or "BUSYBOX_VERSION" config "N/A")
    ∷ ("s6", config_or "S6_VERSION" config "N/A")
    ∷ ("kernel_module", config_or "KERNEL_MODULE_VERSION" config "0.1")
    ∷ ("sdk", config_or "SDK_VERSION" config "0.1.0")
    ∷ ("daemon", config_or "DAEMON_VERSION" config "0.1.0")
    ∷ ("userspace", config_or "USERSPACE_VERSION" config "0.1.0")
    ∷ []
versions_of false config =
    ("kernel", "N/A")
    ∷ ("busybox", "N/A")
    ∷ ("s6", "N/A")
    ∷ ("kernel_module", "0.1")
    ∷ ("sdk", "0.1.0")
    ∷ ("daemon", "0.1.0")
    ∷ ("userspace", "0.1.0")
    ∷ []

-- `qemu_process is not None and qemu_process.poll() is None`
abbrev pub is_alive : Option Process → Bool
is_alive none = false
is_alive (some p) = not (is_some p.exit_code)

abbrev positive : ℤ → Bool
positive (pos n) = not (n == 0)
positive (negsuc n) = false

-- How the times of a stage follow from its new status.
module _ ⦃env : Env⦄ where
  abbrev pub begin_time : Option ℤ → Option ℤ → Action ℤ
  begin_time (some start) elapsed = pure start
  begin_time none (some elapsed) = do now ← time; pure (now -ℤ elapsed)
  begin_time none none = time

  abbrev pub finish_time : ℤ → Option ℤ → Action ℤ
  finish_time start (some elapsed) = pure (start +ℤ elapsed)
  finish_time start none = time

  unfoldable pub stamp : Status → NodeState → Action NodeState
  stamp running s = do now ← time; pure (record s { start_time = some now; end_time = none })
  stamp skipped s = pure (record s { start_time = none; end_time = none })
  stamp pending s = pure s
  stamp _ s = do
    start ← begin_time s.start_time s.elapsed
    end ← finish_time start s.elapsed
    pure (record s { start_time = some start; end_time = some end })

  -- the directory of the records: the workspace, once there is a context
  abbrev pub records_dir : Action FilePath
  records_dir = gets (λ w. if w.context_ready then w.context.workspace_dir else env.cwd)

  abbrev pub elapsed_now : World → Option ℤ → Action ℤ
  elapsed_now w start =
      if w.build_active
      then elim start [
        | none ↦ raise (exception "TypeError")
        | some t ↦
            (if positive t
              then (do now ← time; pure (now -ℤ t))
              else pure (if w.build_completed then w.total_build_time else pos 0))
      ]
      else pure (if w.build_completed then w.total_build_time else pos 0)

  -- `get_state_payload()`
  unfoldable pub get_state_payload : Action StatePayload
  get_state_payload = do
    w ← gets (λ w. w)
    elapsed_time ← elapsed_now w w.build_start_time
    ws_dir ← records_dir
    stats ← load_build_stats ws_dir
    stage_builds ← load_stage_builds ws_dir
    now ← time
    pure (record {
      nodes = w.node_states;
      build_start_time = w.build_start_time;
      server_current_time = now;
      build_completed = w.build_completed;
      build_active = w.build_active;
      qemu_active = is_alive w.qemu_process;
      qemu_display_mode = w.qemu_display_mode;
      qemu_pull_rate = w.qemu_pull_rate;
      elapsed_time = elapsed_time;
      build_number = w.build_number;
      build_uuid = w.build_uuid;
      stats = stats;
      stage_builds = stage_builds;
      versions = versions_of w.context_ready w.context.config;
      allowed_failures = if w.context_ready then allowed_failures w.context.config else [];
    })

  -- a finished stage counts as one more compiled build of it, a skipped one does not
  abbrev pub record_build : FilePath → String → Status → Action ⊤
  record_build ws_dir name success = update_stage_build_info ws_dir name "Success" true
  record_build ws_dir name failed = update_stage_build_info ws_dir name "Failed" true
  record_build ws_dir name other = update_stage_build_info ws_dir name (show_status other) false

  -- `update_node_status(name, status, details, elapsed)`
  unfoldable pub update_node_status : String → Status → String → Option ℤ → Action ⊤
  update_node_status name status details elapsed = do
    logs ← gets (λ w. get_or_else (lookup name w.log_buffers) "")
    old ← gets (λ w. get_or_else (lookup name w.node_states) waiting)
    new ← stamp status (record old { status = status; details = details; elapsed = elapsed })
    modify (λ w. record w { node_states = insert name new w.node_states })
    ws_dir ← records_dir
    record_build ws_dir name status
    stage_builds ← load_stage_builds ws_dir
    no_view ← gets (λ w. w.no_view)
    if no_view then pure tt else (do
      start ← gets (λ w. w.build_start_time)
      now ← time
      payload ← get_state_payload
      modify (
          broadcast (
            update (record {
              name = name;
              status = status;
              details = details;
              elapsed = elapsed;
              start_time = new.start_time;
              end_time = new.end_time;
              logs = logs;
              build_start_time = start;
              server_current_time = now;
              stage_builds = stage_builds;
              versions = payload.versions;
            }))))

  abbrev elapsed_text : Option ℤ → Status → String
  elapsed_text (some t) status = env.seconds t <> "s"
  elapsed_text none skipped = "skipped"
  elapsed_text none _ = "0.00s"

  -- the rows of the report, in the order of `node_states`
  unfoldable pub report_rows : Dict String NodeState → List Row
  report_rows [] = []
  report_rows ((name, s) ∷ rest) =
      record { name = name; status = some s.status; elapsed = elapsed_text s.elapsed s.status }
      ∷ report_rows rest

  -- `send_total_report(total_time, status_text)`
  unfoldable pub send_total_report : ℤ → String → Action ⊤
  send_total_report total_time status_text = do
    rows ← gets (λ w. report_rows w.node_states)
    no_view ← gets (λ w. w.no_view)
    if no_view then pure tt else modify (broadcast (total_report total_time status_text rows))

  -- `broadcast_status(context)`
  unfoldable pub broadcast_status : Action ⊤
  broadcast_status = do
    no_view ← gets (λ w. w.no_view)
    if no_view then pure tt else (do
      payload ← get_state_payload
      modify (λ w. broadcast (analyzer_report w.analyzer_stages w.analyzer_total) (
          broadcast (hashes_report w.detected_changes w.current_hashes_prefix)
            (broadcast (state payload) w))))
