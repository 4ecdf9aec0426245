-- ===== src/Portal/Frame.antt =====
-- What the endpoints that ask for no build leave as it is: the queue, and whether a build is active.
use pronze.Prelude.{ℕ, String, Bool, ◌&&◌, string_eq}
use pronze.World.{World, Env, FilePath}
use pronze.Action.{modify, Keeps, keeps_rules, Keeps-gets, Keeps-pure, Keeps-if, Keeps-try, ◌⨾◌}
use pronze.Os.Flags.{exists-Keeps, isdir-Keeps, read-Keeps}
use pronze.Os.Frame.{remove-Keeps, listdir-Keeps}
use pronze.Status.Frame.{broadcast_status-Keeps, get_state_payload-Keeps}
use pronze.Commands.Frame.{execute_shell-Keeps}
use pronze.Report.Frame.{IsUnreported, generate_diff_report-Keeps, analyze_compilation_files-Keeps}
use pronze.Execute.Frame.{set_context-Keeps}
use pronze.Worker.Frame.{IsUnbuilt}
use pronze.Worker.{broadcast_round}
use pronze.Qemu.{flush_qemu_logs, flush_round, launched, start_qemu_guest, stop_qemu_guest}
use pronze.Portal.Requests.{Body, malformed, object, Request}
use pronze.Portal.Post.{
  clear_cache, prepare_repackage, authenticate, apply_settings, send_input, clean_workspace,
  change_settings, start_guest, stop_guest,
}
use pronze.Portal.Get.{open_stream, download_image, do_get}

-- A fact about the queue and about whether a build is active.
abbrev pub Sees : (ℕ → Bool → Type 0) → World → Type 0
Sees V w = V w.build_queue w.build_active

module _ (V : ℕ → Bool → Type 0) where
  pub Sees-IsUnbuilt : IsUnbuilt (Sees V)
  Sees-IsUnbuilt = record {
    outside = record {
      apart = record {
        quiet = record {
          framed = record { files = λ f w h. h; clock = λ n w h. h; ids = λ n w h. h };
          progress = λ d w h. h;
          queues = λ qs w h. h;
        };
        modes = λ m w h. h;
        ran = λ cs w h. h;
        logs = λ d w h. h;
        context = λ c w h. h;
      };
      stage = λ s w h. h;
      start = λ t w h. h;
      result = λ t s b w h. h;
      number = λ n w h. h;
    };
    reset = λ u b t s w h. h;
  }

  Sees-IsUnreported : IsUnreported (Sees V)
  Sees-IsUnreported = record { changed = λ cs w h. h; hashed = λ d w h. h; analyzed = λ d n w h. h }

  settings-Keeps :
      (f : World → World) → ((w : World) → Sees V w → Sees V (f w)) → Keeps (Sees V) (modify f)
  unfolding modify
  settings-Keeps f k = record { at = k }

  open Sees-IsUnbuilt use {outside}

  pub clear_cache-Keeps : Keeps (Sees V) clear_cache
  unfolding clear_cache
  clear_cache-Keeps =
      search
        (
          keeps_rules,
          isdir-Keeps,
          remove-Keeps outside.apart.quiet.framed,
          listdir-Keeps outside.apart.quiet.framed,
        )
        depth 20

  pub prepare_repackage-Keeps : Keeps (Sees V) prepare_repackage
  unfolding prepare_repackage
  prepare_repackage-Keeps =
      search
        (
          keeps_rules,
          exists-Keeps,
          remove-Keeps outside.apart.quiet.framed,
          set_context-Keeps outside.apart,
        )
        depth 20

  pub flush_round-Keeps : Keeps (Sees V) flush_round
  unfolding flush_round flush_qemu_logs
  flush_round-Keeps = Keeps-gets _ ⨾ λ alive.
      (Keeps-gets _ ⨾ λ to_send. Keeps-if _ _ _ (Keeps-pure tt) (settings-Keeps _ (λ w h. h)))
      ⨾ λ _. Keeps-pure alive

  pub authenticate-Keeps : (b : Body) → Keeps (Sees V) (authenticate b)
  unfolding authenticate
  authenticate-Keeps b = search keeps_rules

  pub send_input-Keeps : ⦃env : Env⦄ (b : Body) → Keeps (Sees V) (send_input b)
  unfolding send_input
  send_input-Keeps malformed = Keeps-pure _
  send_input-Keeps (object f) = Keeps-gets _ ⨾ λ alive. Keeps-gets _ ⨾ λ taken.
      Keeps-if (alive && taken) _ _ (settings-Keeps _ (λ w h. h) ⨾ λ _. Keeps-pure _) (Keeps-pure _)

  stop_qemu_guest-Keeps : ⦃env : Env⦄ → Keeps (Sees V) stop_qemu_guest
  unfolding stop_qemu_guest
  stop_qemu_guest-Keeps = Keeps-gets _ ⨾ λ p.
      Keeps-if _ _ _ (Keeps-pure _) (settings-Keeps _ (λ w h. h) ⨾ λ _. Keeps-pure _)

  start_qemu_guest-Keeps : ⦃env : Env⦄ (ws : FilePath) → Keeps (Sees V) (start_qemu_guest ws)
  unfolding start_qemu_guest
  start_qemu_guest-Keeps ws = Keeps-gets _ ⨾ λ alive. exists-Keeps _ ⨾ λ there.
      Keeps-if alive _ _ (Keeps-pure _) (
        Keeps-if _ _ _ (Keeps-pure _) (
          Keeps-gets _ ⨾ λ command. settings-Keeps _ (λ w h. h) ⨾ λ _. Keeps-gets _ ⨾ λ up.
          Keeps-if up _ _ (settings-Keeps (launched command) (λ w h. h) ⨾ λ _. Keeps-pure _)
            (Keeps-pure _)))

  module _ ⦃env : Env⦄ where
    pub clean_workspace-Keeps : (script : String) → Keeps (Sees V) (clean_workspace script)
    unfolding clean_workspace
    clean_workspace-Keeps script = Keeps-gets _ ⨾ λ ready. Keeps-if _ _ _ (Keeps-pure _) (
        Keeps-gets _ ⨾ λ c. execute_shell-Keeps outside.apart _ ⨾ λ _.
        analyze_compilation_files-Keeps Sees-IsUnreported ⨾ λ _.
        generate_diff_report-Keeps Sees-IsUnreported ⨾ λ _.
        broadcast_status-Keeps outside.apart.quiet ⨾ λ _. Keeps-pure _)

    pub change_settings-Keeps : (b : Body) → Keeps (Sees V) (change_settings b)
    unfolding change_settings
    change_settings-Keeps malformed = Keeps-pure _
    change_settings-Keeps (object f) = settings-Keeps (apply_settings f) (λ w h. h) ⨾ λ _.
        Keeps-gets _ ⨾ λ ready.
        Keeps-try _ _
          (Keeps-if ready _ _ (broadcast_status-Keeps outside.apart.quiet) (Keeps-pure tt) ⨾ λ _.
            Keeps-pure _)
          (λ _. Keeps-pure _)

    pub start_guest-Keeps : Keeps (Sees V) start_guest
    unfolding start_guest
    start_guest-Keeps = search (keeps_rules, start_qemu_guest-Keeps) depth 12

    pub stop_guest-Keeps : Keeps (Sees V) stop_guest
    unfolding stop_guest
    stop_guest-Keeps = search (keeps_rules, stop_qemu_guest-Keeps) depth 12

    pub broadcast_round-Keeps : Keeps (Sees V) broadcast_round
    unfolding broadcast_round
    broadcast_round-Keeps = search (keeps_rules, broadcast_status-Keeps outside.apart.quiet)

    open_stream-Keeps : Keeps (Sees V) open_stream
    unfolding open_stream
    open_stream-Keeps = settings-Keeps _ (λ w h. h) ⨾ λ _.
        get_state_payload-Keeps outside.apart.quiet.framed ⨾ λ _. Keeps-gets _ ⨾ λ _. Keeps-pure _

    download_image-Keeps : (r : Request) → Keeps (Sees V) (download_image r)
    unfolding download_image
    download_image-Keeps r = search (keeps_rules, exists-Keeps, read-Keeps) depth 12

    -- A GET keeps the queue.
    pub do_get-Keeps : (r : Request) → Keeps (Sees V) (do_get r)
    unfolding do_get
    do_get-Keeps r = search (keeps_rules, open_stream-Keeps, download_image-Keeps)
