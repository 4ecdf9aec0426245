-- ===== src/Tests/Runs.antt =====
-- Runs of builds and of the worker.
use pronze.Prelude.{
  Bool, none, some, String, ◌≡◌, refl, true, false, [], ◌∷◌, map, string_eq, contains, inl,
}
use pronze.Prelude.Int.{pos}
use pronze.World.{Command, World, ◌/◌}
use pronze.Action.{Result, ok, err, ⊤, Action, exception, pure, raise, ◌>>=◌, Ends}
use pronze.Config.{new_context}
use pronze.Status.{allowed_failures}
use pronze.Graph.{PipelineNode}
use pronze.Status.{update_node_status, stamp, get_state_payload, send_total_report, report_rows}
use pronze.Archive.{
  update_stage_build_info, load_stage_builds, save_stage_builds, get_stage_builds_file,
  load_build_stats, save_build_stats, get_stats_file, update_build_stats, count_build,
}
use pronze.Os.{makedirs, isdir, exists, read, write, time, uuid4}
use pronze.World.{is_dir, path_exists, follow, real_path}
use pronze.Prelude.Dict.{lookup, insert}
use pronze.Prelude.Int.{◌+ℤ◌, ◌-ℤ◌}
use pronze.Prelude.Texts.{split, strip, strip_by, lstrip_by, rstrip_by}
use pronze.Action.{gets, modify, try_except}
use pronze.Report.{compute_all_hashes, config_at}
use pronze.Modules.{
  archive_modules_separately, archive_module, copy_module_files, find_module_file, modules_config,
  workspace_path, archive_build, copy_target,
}
use pronze.Config.{read_number}
use pronze.Os.{read_text, write_text, copy2}
use pronze.Prelude.Texts.{show_nat, parse_nat}
use pronze.Action.{for_each}
use pronze.Execute.{after_run, complete_build, record_success}
use pronze.Execute.{
  run_stage, attempt, execute_node, execute_nodes, execute, fail_build, after_raise, set_context,
}
use pronze.Execute.Skips.{rerun, rerun_building, execute_nodes-skips, execute_nodes-repackage}
use pronze.Execute.Halts.{AfterRaise, Unreported, after_raise-Ends}
use pronze.Execute.Mode.{IsReset, execute-resets}
use pronze.Execute.Complete.{IsOver, execute-IsOver}
use pronze.Commands.{run_command}
use pronze.Commands.Outcome.{Succeeds, Fails, run_command-Ends}
use pronze.Stages.EarlyExit.{check_early_exit}
use pronze.Stages.EarlyExit.Blocked.{check_early_exit-runs}
use pronze.Tests.Sample.{host, sample, workspace}

abbrev make : Command
make = record { line = "make"; cwd = some (workspace / "kernel"); input = none }

abbrev stage : String → Action ⊤ → PipelineNode
stage name run = record { name = name; dependencies = []; run = run }

abbrev breaks : Action ⊤
breaks = raise (exception "no compiler")

abbrev kernel : PipelineNode
kernel = stage "CompileKernel" breaks

abbrev image : PipelineNode
image = stage "AssembleRootfs" (pure tt)

abbrev skipping : World
skipping = set_context (λ c. record c { skip_remaining = true }) sample

abbrev repackaging : World
repackaging = set_context (λ c. record c { repackage_only_active = true }) sample

skipping_on : skipping.context.skip_remaining ≡ true
skipping_on = refl

execute_nodes-skips_example :
    execute_nodes ⦃env = host⦄ false
      (pos 0)
      (map (rerun (λ n. breaks)) (kernel ∷ image ∷ []))
      skipping
    ≡ execute_nodes ⦃env = host⦄ false (pos 0) (kernel ∷ image ∷ []) skipping
execute_nodes-skips_example =
    execute_nodes-skips ⦃env = host⦄ (λ n. breaks) false (pos 0) (kernel ∷ image ∷ []) skipping
      skipping_on

execute_nodes-repackage_example :
    execute_nodes ⦃env = host⦄ true
      (pos 0)
      (map (rerun_building (λ n. pure tt)) (kernel ∷ image ∷ []))
      repackaging
    ≡ execute_nodes ⦃env = host⦄ true (pos 0) (kernel ∷ image ∷ []) repackaging
execute_nodes-repackage_example =
    execute_nodes-repackage ⦃env = host⦄ (λ n. pure tt) (pos 0) (kernel ∷ image ∷ []) repackaging

-- A stage that raises, in front of one that would run.
abbrev broken : PipelineNode
broken = stage "PackageBtrfsImage" (raise (exception "no space left"))

after_raise-Ends_example :
    Ends
      (AfterRaise (contains kernel.name (allowed_failures sample.context.config)) sample)
      (Unreported (contains kernel.name (allowed_failures sample.context.config)) sample)
      (after_raise ⦃env = host⦄ kernel (pos 0) (pos 1) sample)
after_raise-Ends_example = after_raise-Ends ⦃env = host⦄ kernel (pos 0) (pos 1) sample

execute-resets_example :
    Ends (λ _. IsReset) (λ _. Unit) (execute ⦃env = host⦄ (kernel ∷ image ∷ []) repackaging)
execute-resets_example = execute-resets ⦃env = host⦄ (kernel ∷ image ∷ []) repackaging

check_early_exit-runs_example :
    Ends
      (λ _ v. v.context.skip_remaining ≡ false)
      (λ v. v.context.skip_remaining ≡ false)
      (check_early_exit ⦃env = host⦄ repackaging)
unfolding new_context
check_early_exit-runs_example = check_early_exit-runs ⦃env = host⦄ repackaging refl (inl refl)

execute-IsOver_example :
    Ends (λ _. IsOver) (λ _. Unit) (execute ⦃env = host⦄ (kernel ∷ image ∷ []) sample)
execute-IsOver_example = execute-IsOver ⦃env = host⦄ (kernel ∷ image ∷ []) sample

run_command-Ends_example :
    Ends
      (λ _. Succeeds ⦃env = host⦄ make sample)
      (Fails ⦃env = host⦄ make sample)
      (run_command ⦃env = host⦄ make sample)
run_command-Ends_example = run_command-Ends ⦃env = host⦄ make sample

-- What a run comes to.
abbrev outcome : Result ⊤ × World → String × Bool
outcome (ok _, w) = (w.final_status_text, w.build_completed)
outcome (err _, w) = ("raised", w.build_completed)

run_fails : outcome (execute ⦃env = host⦄ (kernel ∷ []) sample) ≡ ("Failed", true)
unfolding execute execute_nodes execute_node run_stage attempt after_raise fail_build
    update_node_status stamp allowed_failures update_stage_build_info load_stage_builds
    save_stage_builds get_stage_builds_file get_state_payload load_build_stats save_build_stats
    get_stats_file update_build_stats count_build send_total_report report_rows makedirs isdir
    exists read write time uuid4 is_dir path_exists follow real_path lookup insert pure raise gets
    modify ◌>>=◌ try_except new_context split strip strip_by lstrip_by rstrip_by ◌+ℤ◌ ◌-ℤ◌
run_fails = refl

run_completes : outcome (execute ⦃env = host⦄ (image ∷ []) sample) ≡ ("Complete", true)
unfolding execute execute_nodes execute_node run_stage attempt after_raise fail_build
    update_node_status stamp allowed_failures update_stage_build_info load_stage_builds
    save_stage_builds get_stage_builds_file get_state_payload load_build_stats save_build_stats
    get_stats_file update_build_stats count_build send_total_report report_rows makedirs isdir
    exists read write time uuid4 is_dir path_exists follow real_path lookup insert pure raise gets
    modify ◌>>=◌ try_except new_context split strip strip_by lstrip_by rstrip_by ◌+ℤ◌ ◌-ℤ◌ after_run
    complete_build record_success compute_all_hashes config_at archive_modules_separately
    archive_module copy_module_files find_module_file modules_config workspace_path archive_build
    copy_target read_number read_text write_text copy2 show_nat for_each parse_nat
run_completes = refl
