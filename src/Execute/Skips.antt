-- ===== src/Execute/Skips.antt =====
-- The stages that `Pipeline.execute` does not run.
use pronze.Prelude.{
  String, ◌≡◌, refl, ◌∙◌, ap, Bool, true, false, ◌&&◌, List, [], ◌∷◌, map, string_eq, contains,
  if◌then◌else◌, none, arith,
}
use pronze.Prelude.Int.{ℤ}
use pronze.World.{World, Env, skipped}
use pronze.Action.{
  Result, ok, err, ⊤, Action, pure, gets, ◌>>=◌, ◌>>◌, continue, Ends, Keeps, Triple-bind,
  Keeps-pure,
}
use pronze.Status.{update_node_status}
use pronze.Status.Frame.{IsQuiet, update_node_status-Keeps}
use pronze.Graph.{PipelineNode}
use pronze.Execute.{
  Step, go_on, halt, building_stages, run_stage, execute_node, execute_nodes, go_if,
}

-- The stage with another `run`.
abbrev pub rerun : (PipelineNode → Action ⊤) → PipelineNode → PipelineNode
rerun g node = record node { run = g node }

-- The stage with another `run`, if it is one of those that build.
abbrev pub rerun_building : (PipelineNode → Action ⊤) → PipelineNode → PipelineNode
rerun_building g node = if contains node.name building_stages then rerun g node else node

pub skip-IsQuiet : IsQuiet (λ w. w.context.skip_remaining ≡ true)
skip-IsQuiet = record {
  framed = record { files = λ f w h. h; clock = λ n w h. h; ids = λ n w h. h };
  progress = λ d w h. h;
  queues = λ qs w h. h;
}

-- Two ways to go on that agree wherever the first stage can have led.
go_if-cong :
    (P : World → Type 0) (m n : Action Step) (o : Result Step × World)
    → ((v : World) → P v → m v ≡ n v)
    → Ends (λ _. P) P o
    → continue o.0 (λ s. go_if s m) o.1 ≡ continue o.0 (λ s. go_if s n) o.1
go_if-cong P m n (ok go_on, v) agree h = agree v h
go_if-cong P m n (ok halt, v) agree h = refl
go_if-cong P m n (err e, v) agree h = refl

abbrev StaysSkipped : Result Step × World → Type 0
StaysSkipped = Ends (λ _ v. v.context.skip_remaining ≡ true) (λ v. v.context.skip_remaining ≡ true)

any_end : {A : Type 0} (o : Result A × World) → Ends (λ _ _. Unit) (λ _. Unit) o
any_end (ok a, v) = tt
any_end (err e, v) = tt

module _ ⦃env : Env⦄ (g : PipelineNode → Action ⊤) where
  execute_node-building :
      (b : Bool) (t : ℤ) (node : PipelineNode) (w : World)
      → contains node.name building_stages ≡ b
      → execute_node true t (if b then rerun g node else node) w ≡ execute_node true t node w
  unfolding execute_node gets ◌>>=◌
  execute_node-building true t node w builds = rw builds
  execute_node-building false t node w other = refl

  -- A repackage-only run of any list of stages, from any state, comes out the same whatever the
  -- stages that compile something would do: none of them is run.
  pub execute_nodes-repackage :
      (t : ℤ) (nodes : List PipelineNode) (w : World)
      → execute_nodes true t (map (rerun_building g) nodes) w ≡ execute_nodes true t nodes w
  unfolding execute_nodes ◌>>=◌
  execute_nodes-repackage t [] w = refl
  execute_nodes-repackage t (node ∷ nodes) w =
      ap
        (λ o. continue o.0 (λ s. go_if s (execute_nodes true t (map (rerun_building g) nodes))) o.1)
        (execute_node-building (contains node.name building_stages) t node w refl)
      ∙ go_if-cong (λ _. Unit) _ _ (execute_node true t node w)
          (λ v _. execute_nodes-repackage t nodes v) (any_end (execute_node true t node w))

  execute_node-skips :
      (repackage : Bool) (t : ℤ) (node : PipelineNode) (w : World)
      → w.context.skip_remaining ≡ true
      → execute_node repackage t (rerun g node) w ≡ execute_node repackage t node w
  unfolding execute_node gets ◌>>=◌
  execute_node-skips repackage t node w h = rw h

  choose :
      (b skip : Bool) (m n k : Action Step) (w : World)
      → skip ≡ true
      → StaysSkipped (m w)
      → StaysSkipped (n w)
      → StaysSkipped ((if b then m else if skip then n else k) w)
  choose true skip m n k w h qm qn = qm
  choose false true m n k w h qm qn = qn
  choose false false m n k w h qm qn = absurd (ground arith)

  skip_with-Keeps :
      (name details : String)
      → Keeps
          (λ v. v.context.skip_remaining ≡ true)
          (update_node_status name skipped details none >> pure go_on)
  skip_with-Keeps name details =
      Triple-bind (update_node_status name skipped details none) (λ _. pure go_on)
        (update_node_status-Keeps skip-IsQuiet name skipped details none) (λ _. Keeps-pure go_on)

  execute_node-still :
      (repackage : Bool) (t : ℤ) (node : PipelineNode) (w : World)
      → w.context.skip_remaining ≡ true
      → StaysSkipped (execute_node repackage t node w)
  unfolding execute_node gets ◌>>=◌
  execute_node-still repackage t node w h =
      choose (repackage && contains node.name building_stages) w.context.skip_remaining
        (update_node_status node.name skipped "Skipped (Repackage Only)" none >> pure go_on)
        (update_node_status node.name skipped "Cached (Early Exit)" none >> pure go_on)
        (run_stage node t) w h ((skip_with-Keeps node.name "Skipped (Repackage Only)").at w h)
        ((skip_with-Keeps node.name "Cached (Early Exit)").at w h)

  -- After an early exit, which sets `skip_remaining`, the rest of a run comes out the same whatever
  -- its stages would do: none of them is run.
  pub execute_nodes-skips :
      (repackage : Bool) (t : ℤ) (nodes : List PipelineNode) (w : World)
      → w.context.skip_remaining ≡ true
      → execute_nodes repackage t (map (rerun g) nodes) w ≡ execute_nodes repackage t nodes w
  unfolding execute_nodes ◌>>=◌
  execute_nodes-skips repackage t [] w h = refl
  execute_nodes-skips repackage t (node ∷ nodes) w h =
      ap (λ o. continue o.0 (λ s. go_if s (execute_nodes repackage t (map (rerun g) nodes))) o.1)
        (execute_node-skips repackage t node w h)
      ∙ go_if-cong (λ v. v.context.skip_remaining ≡ true) _ _ (execute_node repackage t node w)
          (λ v k. execute_nodes-skips repackage t nodes v k)
          (execute_node-still repackage t node w h)
