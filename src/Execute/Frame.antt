-- ===== src/Execute/Frame.antt =====
-- What a run of the stages leaves as it is, where each stage does.
use pronze.Prelude.{ℕ, String, Bool, true, Option, none, some, List, [], ◌∷◌, string_eq}
use pronze.Prelude.Int.{ℤ, ◌-ℤ◌}
use pronze.World.{
  World, Env, FilePath, Context, Status, pending, running, success, failed, skipped, NodeState,
  hashes,
}
use pronze.Action.{
  Result, ok, err, ⊤, Action, modify, ◌>>=◌, Keeps, keeps_rules, Keeps-bind, Keeps-if, Keeps-pure,
  Keeps-gets, Ends, try_pass,
}
use pronze.Os.Frame.{time-Keeps, write-Keeps}
use pronze.Archive.Frame.{update_build_stats-Keeps}
use pronze.Modules.Frame.{archive_modules_separately-Keeps, archive_build-Keeps}
use pronze.Status.Frame.{update_node_status-Keeps, send_total_report-Keeps}
use pronze.Commands.Frame.{IsApart}
use pronze.Report.Reads.{compute_all_hashes-Keeps}
use pronze.Report.{compute_all_hashes}
use pronze.Os.{write}
use pronze.Graph.{PipelineNode}
use pronze.Execute.{
  Step, go_on, halt, attempt, set_context, go_if, after_run, fail_build, after_raise, run_stage,
  execute_node, execute_nodes, after_status, after_attempt, record_success, complete_build,
  finish_build, execute,
}

-- `Q` reads nothing that a build changes, its result and its times included.
pub record IsOutside (Q : World → Type 0) : Type 0 where
  pub apart : IsApart Q
  pub stage : (s : Option String) (w : World) → Q w → Q (record w { current_stage_name = s })
  pub start : (t : Option ℤ) (w : World) → Q w → Q (record w { build_start_time = t })
  pub result :
      (t : ℤ) (s : String) (b : Bool) (w : World)
      → Q w
      → Q (record w { total_build_time = t; final_status_text = s; build_completed = b })
  pub number : (n : ℕ) (w : World) → Q w → Q (record w { build_number = n })

-- Each of some stages keeps `Q`.
abbrev pub AllKeep : (World → Type 0) → List PipelineNode → Type 0
AllKeep Q [] = Unit
AllKeep Q (node ∷ nodes) = Keeps Q node.run × AllKeep Q nodes

module _ {Q : World → Type 0} (apart : IsApart Q) where
  pub set_context-Keeps : (f : Context → Context) → Keeps Q (modify (set_context f))
  unfolding modify
  set_context-Keeps f = record { at = λ w h. apart.context (f w.context) w h }

module _ {Q : World → Type 0} (outside : IsOutside Q) ⦃env : Env⦄ where
  after_status-Keeps :
      (node : PipelineNode) (elapsed : ℤ) (s : NodeState) (status : Status)
      → Keeps Q (after_status node elapsed s status)
  after_status-Keeps node elapsed s running = update_node_status-Keeps outside.apart.quiet _ _ _ _
  after_status-Keeps node elapsed s success =
      search (keeps_rules, update_node_status-Keeps outside.apart.quiet)
  after_status-Keeps node elapsed s pending = search keeps_rules
  after_status-Keeps node elapsed s failed = search keeps_rules
  after_status-Keeps node elapsed s skipped = search keeps_rules

  after_run-Keeps : (node : PipelineNode) (elapsed : ℤ) → Keeps Q (after_run node elapsed)
  unfolding after_run
  after_run-Keeps node elapsed =
      Keeps-bind _ _ (Keeps-gets _) (λ s. after_status-Keeps node elapsed s s.status)

  result-Keeps :
      (t : ℤ) (s : String)
      → Keeps Q (
          modify
            (λ w. record w { total_build_time = t; final_status_text = s; build_completed = true }))
  unfolding modify
  result-Keeps t s = record { at = λ w h. outside.result t s true w h }

  fail_build-Keeps :
      (node : PipelineNode) (start elapsed : ℤ) → Keeps Q (fail_build node start elapsed)
  unfolding fail_build
  fail_build-Keeps node start elapsed =
      search
        (
          keeps_rules,
          update_node_status-Keeps outside.apart.quiet,
          time-Keeps outside.apart.quiet.framed,
          result-Keeps,
          send_total_report-Keeps outside.apart.quiet,
          update_build_stats-Keeps outside.apart.quiet.framed,
        )
        depth 20

  after_raise-Keeps :
      (node : PipelineNode) (start elapsed : ℤ) → Keeps Q (after_raise node start elapsed)
  unfolding after_raise
  after_raise-Keeps node start elapsed =
      search (keeps_rules, update_node_status-Keeps outside.apart.quiet, fail_build-Keeps) depth 12

  attempt-Keeps : (m : Action ⊤) → Keeps Q m → Keeps Q (attempt m)
  unfolding attempt
  attempt-Keeps m k = record { at = λ w h. same (m w) (k.at w h) }
    where
      same : (o : Result ⊤ × World) → Ends (λ _. Q) Q o → Q o.1
      same (ok a, v) h = h
      same (err e, v) h = h

  stage-Keeps : (s : String) → Keeps Q (modify (λ w. record w { current_stage_name = some s }))
  unfolding modify
  stage-Keeps s = record { at = λ w h. outside.stage (some s) w h }

  ended-Keeps :
      (node : PipelineNode) (start t : ℤ) (r : Result ⊤) → Keeps Q (after_attempt node start t r)
  ended-Keeps node start t (ok _) = search keeps_rules
  ended-Keeps node start t (err e) =
      search (keeps_rules, time-Keeps outside.apart.quiet.framed, after_raise-Keeps)

  run_stage-Keeps : (node : PipelineNode) (t : ℤ) → Keeps Q node.run → Keeps Q (run_stage node t)
  unfolding run_stage
  run_stage-Keeps node t k = Keeps-bind _ _ (stage-Keeps node.name) (λ _.
      Keeps-bind _ _ (time-Keeps outside.apart.quiet.framed) (λ start.
        Keeps-bind _ _ (update_node_status-Keeps outside.apart.quiet _ _ _ _) (λ _.
          Keeps-bind _ _
            (attempt-Keeps _ (
              Keeps-bind _ _ k (λ _.
                Keeps-bind _ _ (time-Keeps outside.apart.quiet.framed)
                  (λ now. after_run-Keeps node (now -ℤ start)))))
            (λ r. ended-Keeps node t start r))))

  execute_node-Keeps :
      (repackage : Bool) (t : ℤ) (node : PipelineNode)
      → Keeps Q node.run
      → Keeps Q (execute_node repackage t node)
  unfolding execute_node
  execute_node-Keeps repackage t node k =
      let skip = λ (details : String).
        Keeps-bind _ _ (update_node_status-Keeps outside.apart.quiet node.name skipped details none)
          (λ _. Keeps-pure go_on) in
      Keeps-bind _ _ (Keeps-gets _)
        (λ s. Keeps-if _ _ _ (skip _) (Keeps-if s _ _ (skip _) (run_stage-Keeps node t k)))

  go_if-Keeps : (s : Step) (m : Action Step) → Keeps Q m → Keeps Q (go_if s m)
  go_if-Keeps go_on m k = k
  go_if-Keeps halt m k = Keeps-pure halt

  execute_nodes-Keeps :
      (repackage : Bool) (t : ℤ) (nodes : List PipelineNode)
      → AllKeep Q nodes
      → Keeps Q (execute_nodes repackage t nodes)
  unfolding execute_nodes
  execute_nodes-Keeps repackage t [] k = Keeps-pure go_on
  execute_nodes-Keeps repackage t (node ∷ nodes) k =
      Keeps-bind _ _ (execute_node-Keeps repackage t node k.0)
        (λ s. go_if-Keeps s _ (execute_nodes-Keeps repackage t nodes k.1))

  record_success-Keeps : Keeps Q record_success
  unfolding record_success
  record_success-Keeps = Keeps-bind _ _ (Keeps-gets (λ w. w.context)) (λ c.
      Keeps-if c.skip_remaining _ _ (Keeps-pure tt) (
        Keeps-bind _ _
          (update_build_stats-Keeps outside.apart.quiet.framed c.workspace_dir "Complete")
          (λ _.
            Keeps-bind _ _ (archive_modules_separately-Keeps outside.apart.quiet.framed)
              (λ _. archive_build-Keeps outside.apart.quiet.framed outside.number))))

  save-Keeps :
      (p : FilePath)
      → Keeps Q (try_pass (compute_all_hashes >>= λ current. write p (hashes current)))
  save-Keeps p =
      search (keeps_rules, compute_all_hashes-Keeps, write-Keeps outside.apart.quiet.framed) depth
        12

  complete_build-Keeps : (t : ℤ) → Keeps Q (complete_build t)
  unfolding complete_build
  complete_build-Keeps t =
      search
        (
          keeps_rules,
          time-Keeps outside.apart.quiet.framed,
          result-Keeps,
          save-Keeps,
          send_total_report-Keeps outside.apart.quiet,
          record_success-Keeps,
          set_context-Keeps outside.apart,
        )
        depth 20

  finish_build-Keeps : (t : ℤ) (s : Step) → Keeps Q (finish_build t s)
  finish_build-Keeps t go_on = complete_build-Keeps t
  finish_build-Keeps t halt = Keeps-pure tt

  pub start-Keeps : (t : ℤ) → Keeps Q (modify (λ w. record w { build_start_time = some t }))
  unfolding modify
  start-Keeps t = record { at = λ w h. outside.start (some t) w h }

  -- A run of stages that keep `Q` keeps it, whatever becomes of the build.
  pub execute-Keeps : (order : List PipelineNode) → AllKeep Q order → Keeps Q (execute order)
  unfolding execute
  execute-Keeps order k = Keeps-bind _ _ (time-Keeps outside.apart.quiet.framed) (λ t.
      Keeps-bind _ _ (start-Keeps t) (λ _. Keeps-bind _ _ (set_context-Keeps outside.apart _) (λ _.
        Keeps-bind _ _ (Keeps-gets _) (λ repackage.
          Keeps-bind _ _ (execute_nodes-Keeps repackage t order k) (λ s. finish_build-Keeps t s)))))
