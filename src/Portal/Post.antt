-- ===== src/Portal/Post.antt =====
-- `do_POST`.
use pronze.Prelude.{
  ◌+◌, String, ◌<>◌, Bool, true, false, not, ◌&&◌, ◌||◌, Option, none, some, ◌==◌, string_eq,
  if◌then◌else◌, get_or_else,
}
use pronze.Prelude.Texts.{ends_with}
use pronze.World.{World, Env, FilePath, ◌/◌, show_path, Process}
use pronze.Action.{⊤, Action, pure, gets, modify, ◌>>=◌, ◌>>◌, try_except, try_pass, for_each}
use pronze.Os.{exists, isdir, remove, listdir}
use pronze.Commands.{execute_shell}
use pronze.Status.{broadcast_status, is_alive}
use pronze.Report.{generate_diff_report, analyze_compilation_files}
use pronze.Execute.{set_context}
use pronze.Qemu.{start_qemu_guest, stop_qemu_guest}
use pronze.Portal.Requests.{
  Fields, Body, malformed, object, Request, Answer, reply, error_page, is_password,
}

abbrev pub enqueue : World → World
enqueue w = record w { build_queue = w.build_queue + 1 }

abbrev pub ok_reply : Answer
ok_reply = reply 200 "{\"status\": \"ok\"}"

-- A file of the cache that a rebuild deletes.
unfoldable pub is_cache_flag : String → Bool
is_cache_flag f = ends_with f ".done" || ends_with f ".hash" || f == "hashes.json"

abbrev pub clear_flag : FilePath → String → Action ⊤
clear_flag nochanges_dir f =
    if is_cache_flag f then try_pass (remove (nochanges_dir / f)) else pure tt

unfoldable pub clear_cache : Action ⊤
clear_cache = do
  c ← gets (λ w. w.context)
  there ← isdir c.nochanges_dir
  if there
      then (do names ← listdir c.nochanges_dir; for_each names (clear_flag c.nochanges_dir))
      else pure tt

abbrev try_remove : FilePath → Action ⊤
try_remove p = do there ← exists p; if there then try_pass (remove p) else pure tt

unfoldable pub prepare_repackage : Action ⊤
prepare_repackage = do
  c ← gets (λ w. w.context)
  try_remove (c.nochanges_dir / "master.done")
  try_remove (c.nochanges_dir / "master.hash")
  try_remove (c.nochanges_dir / "CheckEarlyExit.done")
  modify (set_context (λ c. record c { repackage_only_active = true }))

-- The three requests for a build, by what each does before it is queued.
unfoldable pub request_build : Action ⊤ → Action Answer
request_build prepare = do
  ready ← gets (λ w. w.context_ready && w.pipeline_ready)
  active ← gets (λ w. w.build_active)
  if not ready
      then pure (error_page 500)
      else if active
      then pure (reply 400 "{\"error\": \"Build already active\"}")
      else (do prepare; modify enqueue; pure ok_reply)

abbrev pub body_password : Body → Option String
body_password malformed = none
body_password (object f) = f.password

abbrev asks_kill : Body → Bool
asks_kill malformed = false
asks_kill (object f) = get_or_else f.kill_tars false

-- /api/auth, which no header guards
unfoldable pub authenticate : Body → Action Answer
authenticate body = do
  good ← gets (λ w. is_password w (body_password body))
  pure (if good then ok_reply else reply 401 "{\"error\": \"Invalid password\"}")

abbrev pub apply_settings : Fields → World → World
apply_settings f w = record w {
  qemu_display_mode = get_or_else f.display w.qemu_display_mode;
  qemu_pull_rate = get_or_else f.pull_rate w.qemu_pull_rate;
}

abbrev type_keys : String → Process → Process
type_keys s p = record p { written = p.written <> s }

abbrev write_input : String → World → World
write_input s w = record w {
  qemu_process = elim w.qemu_process [ none ↦ none | some p ↦ some (type_keys s p) ];
}

abbrev guest_reply : Bool × String → Answer
guest_reply (done, message) = reply (if done then 200 else 400) message

module _ ⦃env : Env⦄ where
  -- /api/clean and /api/fclean: a script, and then the reports anew
  unfoldable pub clean_workspace : String → Action Answer
  clean_workspace script = do
    ready ← gets (λ w. w.context_ready)
    if not ready then pure (error_page 500) else (do
      c ← gets (λ w. w.context)
      execute_shell (record {
        line = show_path (c.workspace_dir / "scripts") <> script;
        cwd = none;
        input = none;
      })
      analyze_compilation_files
      generate_diff_report
      broadcast_status
      pure ok_reply)

  -- /api/qemu/settings
  unfoldable pub change_settings : Body → Action Answer
  change_settings malformed = pure (reply 400 "{\"error\": \"Invalid settings input\"}")
  change_settings (object f) = do
    modify (apply_settings f)
    ready ← gets (λ w. w.context_ready)
    try_except (do (if ready then broadcast_status else pure tt); pure ok_reply)
        (λ _. pure (reply 400 "{\"error\": \"Invalid settings input\"}"))

  -- whether `stdin.write` and `flush` do not raise
  abbrev takes : String → Option Process → Bool
  takes s none = false
  takes s (some p) = env.takes_input p.command s

  -- /api/qemu/input
  unfoldable pub send_input : Body → Action Answer
  send_input malformed = pure (reply 400 "{\"error\": \"QEMU not running or invalid input\"}")
  send_input (object f) = do
    alive ← gets (λ w. is_alive w.qemu_process)
    taken ← gets (λ w. takes (get_or_else f.input "") w.qemu_process)
    if alive && taken
        then (do modify (write_input (get_or_else f.input "")); pure ok_reply)
        else pure (reply 400 "{\"error\": \"QEMU not running or invalid input\"}")

  unfoldable pub start_guest : Action Answer
  start_guest = do
    ready ← gets (λ w. w.context_ready)
    ws ← gets (λ w. w.context.workspace_dir)
    if ready then (do r ← start_qemu_guest ws; pure (guest_reply r)) else pure (error_page 500)

  unfoldable pub stop_guest : Action Answer
  stop_guest = do r ← stop_qemu_guest; pure (guest_reply r)

  -- the endpoints behind the password
  unfoldable pub dispatch : Request → Action Answer
  dispatch r =
      if r.path == "/api/clean"
      then clean_workspace "/clean.sh"
      else if r.path == "/api/fclean"
      then clean_workspace (if asks_kill r.body then "/fclean.sh -k" else "/fclean.sh")
      else if r.path == "/api/rebuild"
      then request_build clear_cache
      else if r.path == "/api/build"
      then request_build (pure tt)
      else if r.path == "/api/repackage"
      then request_build prepare_repackage
      else if r.path == "/api/qemu/settings"
      then change_settings r.body
      else if r.path == "/api/qemu/start"
      then start_guest
      else if r.path == "/api/qemu/stop"
      then stop_guest
      else if r.path == "/api/qemu/input"
      then send_input r.body
      else pure (error_page 404)

  -- `do_POST`
  unfoldable pub do_post : Request → Action Answer
  do_post r = do
    let behind = dispatch r
    good ← gets (λ w. is_password w r.password_header)
    if r.path == "/api/auth"
        then authenticate r.body
        else if good
        then behind
        else pure (reply 401 "{\"error\": \"Unauthorized\"}")
