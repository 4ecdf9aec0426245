-- ===== src/Execute/Mode.antt =====
-- The repackage-only mode at the end of `Pipeline.execute`.
use pronze.Prelude.{
  String, ◌≡◌, refl, Bool, true, false, ◌&&◌, List, [], ◌∷◌, ◌⊎◌, inl, inr, contains, if◌then◌else◌,
  none, some, string_eq,
}
use pronze.Prelude.Int.{ℤ, ◌-ℤ◌}
use pronze.World.{World, Env, failed, skipped}
use pronze.Action.{
  Result, ok, err, ⊤, Action, pure, modify, ◌>>=◌, ◌>>◌, Ends, Keeps, Triple, Triple-bind,
  Triple-pure, Ends-map,
}
use pronze.Os.{time}
use pronze.Status.{update_node_status}
use pronze.Status.Frame.{IsQuiet}
use pronze.Graph.{PipelineNode}
use pronze.Execute.{
  Step, go_on, halt, building_stages, set_context, fail_build, after_raise, took, run_stage,
  execute_node, execute_nodes, go_if, complete_build, finish_build, execute,
}
use pronze.Execute.Halts.{fail_build-HasFailed}

mode-IsQuiet : (b : Bool) → IsQuiet (λ w. w.context.repackage_only_active ≡ b)
mode-IsQuiet b = record {
  framed = record { files = λ f w h. h; clock = λ n w h. h; ids = λ n w h. h };
  progress = λ d w h. h;
  queues = λ qs w h. h;
}

pub any-Triple : {A : Type 0} (m : Action A) → Triple (λ _. Unit) m (λ _ _. Unit) (λ _. Unit)
any-Triple m = record { at = λ w h. any_end (m w) }
  where
    any_end : {B : Type 0} (o : Result B × World) → Ends (λ _ _. Unit) (λ _. Unit) o
    any_end (ok a, w) = tt
    any_end (err e, w) = tt

-- A run that was stopped has failed.
abbrev pub StopsFailed : Step → World → Type 0
StopsFailed go_on v = Unit
StopsFailed halt v = (v.final_status_text ≡ "Failed") × (v.build_completed ≡ true)

stopped_failed :
    (s : Step) (v : World)
    → (v.final_status_text ≡ "Failed") × (v.build_completed ≡ true)
    → StopsFailed s v
stopped_failed go_on v h = tt
stopped_failed halt v h = h

-- The mode is off, or the build has failed.
abbrev pub IsReset : World → Type 0
IsReset v = (v.context.repackage_only_active ≡ false) ⊎ (v.final_status_text ≡ "Failed")

reset :
    Triple
      (λ _. Unit)
      (modify (set_context (λ c. record c { repackage_only_active = false })))
      (λ _. IsReset)
      (λ _. Unit)
unfolding modify
reset = record { at = λ w h. inl refl }

module _ ⦃env : Env⦄ where
  set_result-Keeps :
      (b : Bool) (total : ℤ)
      → Keeps
          (λ w. w.context.repackage_only_active ≡ b)
          (modify (λ w. record w {
            total_build_time = total;
            final_status_text = "Failed";
            build_completed = true;
          }))
  unfolding modify
  set_result-Keeps b total = record { at = λ w h. h }

  after_raise-stops :
      (node : PipelineNode) (t e : ℤ)
      → Triple (λ _. Unit) (after_raise node t e) StopsFailed (λ _. Unit)
  unfolding after_raise
  after_raise-stops node t e = Triple-bind _ _ (any-Triple _) (λ allowed. by_allowed allowed)
    where
      by_allowed :
          (b : Bool)
          → Triple
              (λ _. Unit)
              (if b
                then (update_node_status node.name failed (took env "Error" e " [Allowed]") (some e)
                    >> pure go_on)
                else fail_build node t e)
              StopsFailed
              (λ _. Unit)
      by_allowed true = Triple-bind _ _ (any-Triple _) (λ _. Triple-pure go_on (λ w h. tt))
      by_allowed false = record {
        at = λ w h.
            Ends-map _ StopsFailed (λ _. Unit) (fail_build node t e w)
              (λ s v q. stopped_failed s v q.1) ((fail_build-HasFailed node t e).at w h);
      }

  run_stage-stops :
      (node : PipelineNode) (t : ℤ) → Triple (λ _. Unit) (run_stage node t) StopsFailed (λ _. Unit)
  unfolding run_stage
  run_stage-stops node t = Triple-bind _ _ (any-Triple _) (λ _.
      Triple-bind _ _ (any-Triple time) (λ start.
        Triple-bind _ _ (any-Triple _)
          (λ _. Triple-bind _ _ (any-Triple _) (λ r. by_result start r))))
    where
      by_result :
          (start : ℤ) (r : Result ⊤)
          → Triple
              (λ _. Unit)
              (elim r [
                | ok _ ↦ pure go_on
                | err e ↦ (time >>= λ now. after_raise node t (now -ℤ start))
              ])
              StopsFailed
              (λ _. Unit)
      by_result start (ok _) = Triple-pure go_on (λ w h. tt)
      by_result start (err e) =
          Triple-bind _ _ (any-Triple time) (λ now. after_raise-stops node t (now -ℤ start))

  skip_with-stops :
      (name details : String)
      → Triple
          (λ _. Unit)
          (update_node_status name skipped details none >> pure go_on)
          StopsFailed
          (λ _. Unit)
  skip_with-stops name details = Triple-bind _ _ (any-Triple _) (λ _. Triple-pure go_on (λ w h. tt))

  execute_node-stops :
      (repackage : Bool) (t : ℤ) (node : PipelineNode)
      → Triple (λ _. Unit) (execute_node repackage t node) StopsFailed (λ _. Unit)
  unfolding execute_node
  execute_node-stops repackage t node = Triple-bind _ _ (any-Triple _) (λ skip.
      either (repackage && contains node.name building_stages) _ _
        (skip_with-stops node.name "Skipped (Repackage Only)")
        (either skip _ _ (skip_with-stops node.name "Cached (Early Exit)")
          (run_stage-stops node t)))
    where
      either :
          (b : Bool) (m n : Action Step)
          → Triple (λ _. Unit) m StopsFailed (λ _. Unit)
          → Triple (λ _. Unit) n StopsFailed (λ _. Unit)
          → Triple (λ _. Unit) (if b then m else n) StopsFailed (λ _. Unit)
      either true m n km kn = km
      either false m n km kn = kn

  go_if-stops :
      (s : Step) (m : Action Step)
      → Triple (λ _. Unit) m StopsFailed (λ _. Unit)
      → Triple (StopsFailed s) (go_if s m) StopsFailed (λ _. Unit)
  go_if-stops go_on m k = k
  go_if-stops halt m k = Triple-pure halt (λ w h. h)

  pub execute_nodes-stops :
      (repackage : Bool) (t : ℤ) (nodes : List PipelineNode)
      → Triple (λ _. Unit) (execute_nodes repackage t nodes) StopsFailed (λ _. Unit)
  unfolding execute_nodes
  execute_nodes-stops repackage t [] = Triple-pure go_on (λ w h. tt)
  execute_nodes-stops repackage t (node ∷ nodes) =
      Triple-bind _ _ (execute_node-stops repackage t node)
        (λ s. go_if-stops s _ (execute_nodes-stops repackage t nodes))

  complete_build-resets : (t : ℤ) → Triple (λ _. Unit) (complete_build t) (λ _. IsReset) (λ _. Unit)
  unfolding complete_build
  complete_build-resets t = Triple-bind _ _ (any-Triple time) (λ now.
      Triple-bind _ _ (any-Triple _) (λ _. Triple-bind _ _ (any-Triple _) (λ c.
        Triple-bind _ _ (any-Triple _) (λ _.
          Triple-bind _ _ (any-Triple _) (λ _. Triple-bind _ _ (any-Triple _) (λ _. reset))))))

  finish_build-resets :
      (t : ℤ) (s : Step) → Triple (StopsFailed s) (finish_build t s) (λ _. IsReset) (λ _. Unit)
  finish_build-resets t go_on = complete_build-resets t
  finish_build-resets t halt = Triple-pure tt (λ w h. inr h.0)

  -- A run that returns has turned the repackage-only mode off, or the build has failed.
  pub execute-resets :
      (execution_order : List PipelineNode) (w : World)
      → Ends (λ _. IsReset) (λ _. Unit) (execute execution_order w)
  unfolding execute
  execute-resets order w =
      (Triple-bind _ _ (any-Triple _) (λ t. Triple-bind _ _ (any-Triple _) (λ _.
          Triple-bind _ _ (any-Triple _) (λ _. Triple-bind _ _ (any-Triple _) (λ repackage.
            Triple-bind _ _ (execute_nodes-stops repackage t order)
              (λ s. finish_build-resets t s)))))).at
        w tt
