-- ===== src/Portal/Get.antt =====
-- `do_GET`.
use pronze.Prelude.{not, ◌&&◌, List, [], ◌∷◌, ◌++◌, ◌==◌, string_eq, if◌then◌else◌}
use pronze.World.{
  World, Env, ◌/◌, Event, state, initial_logs, qemu_initial_logs, hashes_report, analyzer_report,
  total_report,
}
use pronze.Action.{Action, pure, gets, modify, ◌>>=◌, ◌>>◌, try_except}
use pronze.Os.{exists, read}
use pronze.Status.{get_state_payload, report_rows}
use pronze.Portal.Requests.{
  Request, Answer, reply, error_page, html, stream, download, broken_off, is_password,
}

module _ ⦃env : Env⦄ where
  -- the report of a finished build, for a client that connects after it
  abbrev late_report : World → List Event
  late_report w =
      if w.build_completed
      then total_report w.total_build_time w.final_status_text (report_rows w.node_states) ∷ []
      else []

  -- /events: the client is registered, and is sent all that has happened so far
  unfoldable pub open_stream : Action Answer
  open_stream = do
    modify (λ w. record w { clients = w.clients ++ ([] ∷ []) })
    payload ← get_state_payload
    w ← gets (λ w. w)
    pure (
        stream (
          state payload
          ∷ initial_logs w.log_buffers
          ∷ qemu_initial_logs w.qemu_log_buffer
          ∷ hashes_report w.detected_changes w.current_hashes_prefix
          ∷ analyzer_report w.analyzer_stages w.analyzer_total
          ∷ late_report w))

  -- /api/download
  unfoldable pub download_image : Request → Action Answer
  download_image r = do
    w ← gets (λ w. w)
    there ← exists (w.context.workspace_dir / "output" / "pronzeos.img")
    if not (is_password w r.query_password) && not (is_password w r.password_header)
        then pure (reply 401 "Unauthorized")
        else if not w.context_ready
        then pure (error_page 500)
        else if not there
        then pure (reply 404 "File not found. Please build the pipeline first!")
        else try_except
            (do c ← read (w.context.workspace_dir / "output" / "pronzeos.img"); pure (download c))
            (λ _. pure broken_off)

  -- `do_GET`
  unfoldable pub do_get : Request → Action Answer
  do_get r =
      if r.url_path == "/"
      then pure html
      else if r.url_path == "/events"
      then open_stream
      else if r.url_path == "/api/download"
      then download_image r
      else pure (error_page 404)
