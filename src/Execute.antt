-- ===== src/Execute.antt =====
-- `Pipeline.execute` of build-pipeline/common.py: the run of the stages in order, what is reported of
-- it, and the records that it leaves. The report on the terminal is left out.
pub mod Skips
pub mod Halts
pub mod Stops
pub mod Mode
pub mod Complete
pub mod Frame
use pronze.Prelude.{
  ℕ, String, ◌<>◌, Bool, true, false, not, ◌&&◌, Option, none, some, List, [], ◌∷◌, ◌==◌, string_eq,
  if◌then◌else◌, contains, is_some, get_or_else,
}
use pronze.Prelude.Int.{ℤ, ◌-ℤ◌}
use pronze.Prelude.Texts.{concat}
use pronze.Prelude.Dict.{Dict, lookup}
use pronze.World.{
  World, Env, FilePath, ◌/◌, Status, pending, running, success, failed, skipped, NodeState, Context,
  hashes,
}
use pronze.Action.{
  Exn, Result, ok, err, ⊤, Action, pure, raise, gets, modify, ◌>>=◌, ◌>>◌, try_except, try_pass,
  when,
}
use pronze.Os.{write, time}
use pronze.Archive.{update_build_stats}
use pronze.Status.{waiting, update_node_status, send_total_report, allowed_failures}
use pronze.Report.{compute_all_hashes}
use pronze.Modules.{archive_modules_separately, archive_build}
use pronze.Graph.{PipelineNode}

abbrev pub building_stages : List String
building_stages =
    "CompileKernel" ∷ "CompileBusybox" ∷ "CompileS6" ∷ "CompileKernelModule" ∷ "CompileSDK"
    ∷ "CompileDaemon" ∷ []

-- Whether the loop goes on after a stage.
pub data Step : Type 0 where
  go_on halt : Step

-- A call with its exception handed over as a value.
unfoldable pub attempt : Action ⊤ → Action (Result ⊤)
attempt m w = let (r, v) = m w in (ok r, v)

abbrev pub set_context : (Context → Context) → World → World
set_context f w = record w { context = f w.context }

abbrev pub took : Env → String → ℤ → String → String
took env what elapsed rest = concat (what ∷ " (" ∷ env.seconds elapsed ∷ "s)" ∷ rest ∷ [])

abbrev pub go_if : Step → Action Step → Action Step
go_if go_on m = m
go_if halt m = pure halt

module _ ⦃env : Env⦄ where
  -- After `node.run` has returned: a stage that set its own final status keeps it.
  abbrev pub after_status : PipelineNode → ℤ → NodeState → Status → Action ⊤
  after_status node elapsed s running =
      update_node_status node.name success (took env "Complete" elapsed "") (some elapsed)
  after_status node elapsed s success =
      if is_some s.elapsed
      then pure tt
      else update_node_status node.name success s.details (some elapsed)
  after_status node elapsed s _ = pure tt

  unfoldable pub after_run : PipelineNode → ℤ → Action ⊤
  after_run node elapsed = do
    s ← gets (λ w. get_or_else (lookup node.name w.node_states) waiting)
    after_status node elapsed s s.status

  -- the end of a build whose stage `node` raised and may not fail
  unfoldable pub fail_build : PipelineNode → ℤ → ℤ → Action Step
  fail_build node overall_start elapsed = do
    update_node_status node.name failed (took env "Error" elapsed "") (some elapsed)
    now ← time
    modify (λ w. record w {
      total_build_time = now -ℤ overall_start;
      final_status_text = "Failed";
      build_completed = true;
    })
    send_total_report (now -ℤ overall_start) "Failed"
    ws ← gets (λ w. w.context.workspace_dir)
    update_build_stats ws "Failed"
    pure halt

  unfoldable pub after_raise : PipelineNode → ℤ → ℤ → Action Step
  after_raise node overall_start elapsed = do
    allowed ← gets (λ w. contains node.name (allowed_failures w.context.config))
    if allowed
        then (do
          update_node_status node.name failed (took env "Error" elapsed " [Allowed]") (some elapsed)
          pure go_on)
        else fail_build node overall_start elapsed

  abbrev pub after_attempt : PipelineNode → ℤ → ℤ → Result ⊤ → Action Step
  after_attempt node overall_start start (ok _) = pure go_on
  after_attempt node overall_start start (err e) = do
    now ← time
    after_raise node overall_start (now -ℤ start)

  -- `try: node.run(context) …` with its `except`; a raise in `after_run` is caught there too
  unfoldable pub run_stage : PipelineNode → ℤ → Action Step
  run_stage node overall_start = do
    modify (λ w. record w { current_stage_name = some node.name })
    start ← time
    update_node_status node.name running "Compiling/Processing" none
    r ← attempt (do node.run; now ← time; after_run node (now -ℤ start))
    after_attempt node overall_start start r

  -- the body of the loop over `execution_order`
  unfoldable pub execute_node : Bool → ℤ → PipelineNode → Action Step
  execute_node repackage overall_start node = do
    skip ← gets (λ w. w.context.skip_remaining)
    if repackage && contains node.name building_stages
        then (do update_node_status node.name skipped "Skipped (Repackage Only)" none; pure go_on)
        else if skip
        then (do update_node_status node.name skipped "Cached (Early Exit)" none; pure go_on)
        else run_stage node overall_start

  unfoldable pub execute_nodes : Bool → ℤ → List PipelineNode → Action Step
  execute_nodes repackage overall_start [] = pure go_on
  execute_nodes repackage overall_start (node ∷ nodes) = do
    let rest = execute_nodes repackage overall_start nodes
    s ← execute_node repackage overall_start node
    go_if s rest

  -- what is written after the last stage, unless the build was cut short as unchanged
  unfoldable pub record_success : Action ⊤
  record_success = do
    c ← gets (λ w. w.context)
    if c.skip_remaining then pure tt else (do
      update_build_stats c.workspace_dir "Complete"
      archive_modules_separately
      archive_build)

  unfoldable pub complete_build : ℤ → Action ⊤
  complete_build overall_start = do
    now ← time
    let total = now -ℤ overall_start
    modify (λ w. record w {
      total_build_time = total;
      final_status_text = "Complete";
      build_completed = true;
    })
    c ← gets (λ w. w.context)
    try_pass
        (do current ← compute_all_hashes; write (c.nochanges_dir / "hashes.json") (hashes current))
    send_total_report total "Complete"
    record_success
    modify (set_context (λ c. record c { repackage_only_active = false }))

  abbrev pub finish_build : ℤ → Step → Action ⊤
  finish_build overall_start go_on = complete_build overall_start
  finish_build overall_start halt = pure tt

  -- `execute(context)`
  unfoldable pub execute : List PipelineNode → Action ⊤
  execute execution_order = do
    overall_start ← time
    modify (λ w. record w { build_start_time = some overall_start })
    modify (set_context (λ c. record c { skip_remaining = false }))
    repackage ← gets (λ w. w.context.repackage_only_active)
    s ← execute_nodes repackage overall_start execution_order
    finish_build overall_start s
