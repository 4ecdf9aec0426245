-- ===== src/Execute/Complete.antt =====
-- The result of a run of `Pipeline.execute`.
use pronze.Prelude.{◌≡◌, refl, true, false, ◌⊎◌, inl, inr, List, string_eq}
use pronze.Prelude.Int.{ℤ, ◌-ℤ◌}
use pronze.World.{World, Env, Context, hashes, ◌/◌}
use pronze.Action.{
  modify, Keeps, Triple, Triple-bind, Triple-pure, Triple-weaken, Ends, Keeps-gets, Keeps-if,
  Keeps-pure, Keeps-bind, Keeps-try, try_pass, ◌>>=◌,
}
use pronze.Os.{write}
use pronze.Report.{compute_all_hashes}
use pronze.Os.Frame.{write-Keeps}
use pronze.Archive.Frame.{update_build_stats-Keeps}
use pronze.Status.Frame.{IsQuiet, send_total_report-Keeps}
use pronze.Report.Reads.{compute_all_hashes-Keeps}
use pronze.Modules.Frame.{archive_modules_separately-Keeps, archive_build-Keeps}
use pronze.Graph.{PipelineNode}
use pronze.Execute.{
  Step, go_on, halt, set_context, record_success, complete_build, finish_build, execute,
}
use pronze.Execute.Mode.{StopsFailed, any-Triple, execute_nodes-stops}

-- The build is over, as complete or as failed.
abbrev pub IsOver : World → Type 0
IsOver w =
    (w.build_completed ≡ true)
    × ((w.final_status_text ≡ "Complete") ⊎ (w.final_status_text ≡ "Failed"))

IsOver-IsQuiet : IsQuiet IsOver
IsOver-IsQuiet = record {
  framed = record { files = λ f w h. h; clock = λ n w h. h; ids = λ n w h. h };
  progress = λ d w h. h;
  queues = λ qs w h. h;
}

set_complete :
    (total : ℤ)
    → Triple
        (λ _. Unit)
        (modify (λ w. record w {
          total_build_time = total;
          final_status_text = "Complete";
          build_completed = true;
        }))
        (λ _. IsOver)
        (λ _. Unit)
unfolding modify
set_complete total = record { at = λ w h. (refl, inl refl) }

module _ ⦃env : Env⦄ where
  mode-Keeps : Keeps IsOver (modify (set_context (λ c. record c { repackage_only_active = false })))
  unfolding modify
  mode-Keeps = record { at = λ w h. h }

  record_success-Keeps : Keeps IsOver record_success
  unfolding record_success
  record_success-Keeps = Keeps-bind _ _ (Keeps-gets (λ w. w.context)) (λ c.
      Keeps-if c.skip_remaining _ _ (Keeps-pure tt) (
        Keeps-bind _ _ (update_build_stats-Keeps IsOver-IsQuiet.framed c.workspace_dir "Complete")
          (λ _.
            Keeps-bind _ _ (archive_modules_separately-Keeps IsOver-IsQuiet.framed)
              (λ _. archive_build-Keeps IsOver-IsQuiet.framed (λ n w h. h)))))

  save-Keeps :
      (c : Context)
      → Keeps IsOver (
          try_pass (
            compute_all_hashes >>= λ current.
            write (c.nochanges_dir / "hashes.json") (hashes current)))
  save-Keeps c =
      Keeps-try _ _
        (Keeps-bind _ _ compute_all_hashes-Keeps (λ current.
          write-Keeps IsOver-IsQuiet.framed (c.nochanges_dir / "hashes.json") (hashes current)))
        (λ e. Keeps-pure tt)

  complete_build-IsOver : (t : ℤ) → Triple (λ _. Unit) (complete_build t) (λ _. IsOver) (λ _. Unit)
  unfolding complete_build
  complete_build-IsOver t = Triple-bind _ _ (any-Triple _) (λ now.
      Triple-bind _ _ (set_complete (now -ℤ t)) (λ _.
        Triple-weaken {E = IsOver} _ (λ w h. tt)
          (Keeps-bind _ _ (Keeps-gets (λ w. w.context)) (λ c. Keeps-bind _ _ (save-Keeps c) (λ _.
            Keeps-bind _ _ (send_total_report-Keeps IsOver-IsQuiet (now -ℤ t) "Complete")
              (λ _. Keeps-bind _ _ record_success-Keeps (λ _. mode-Keeps)))))))

  finish_build-IsOver :
      (t : ℤ) (s : Step) → Triple (StopsFailed s) (finish_build t s) (λ _. IsOver) (λ _. Unit)
  finish_build-IsOver t go_on = complete_build-IsOver t
  finish_build-IsOver t halt = Triple-pure tt (λ w h. (h.1, inr h.0))

  -- A run that returns has completed the build, as "Complete" or as "Failed"; in particular a run
  -- that was stopped by a stage is completed too.
  pub execute-IsOver :
      (execution_order : List PipelineNode) (w : World)
      → Ends (λ _. IsOver) (λ _. Unit) (execute execution_order w)
  unfolding execute
  execute-IsOver order w =
      (Triple-bind _ _ (any-Triple _) (λ t. Triple-bind _ _ (any-Triple _) (λ _.
          Triple-bind _ _ (any-Triple _) (λ _. Triple-bind _ _ (any-Triple _) (λ repackage.
            Triple-bind _ _ (execute_nodes-stops repackage t order)
              (λ s. finish_build-IsOver t s)))))).at
        w tt
