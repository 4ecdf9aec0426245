-- ===== src/Worker/Idle.antt =====
-- The end of a task of `build_worker`.
use pronze.Prelude.{◌-◌, true, false, List, ◌≡◌, refl, ap}
use pronze.World.{World, Env}
use pronze.Action.{modify, Ends, Triple, Triple-bind, Keeps-tried}
use pronze.Status.Frame.{broadcast_status-Keeps}
use pronze.Graph.{PipelineNode}
use pronze.Execute.Frame.{AllKeep}
use pronze.Worker.{start_build, run_task}
use pronze.Worker.Frame.{Shared, shared, shared-IsUnbuilt, start_build-Keeps}

-- What is shared while a build runs, and when it has ended.
abbrev pub during : World → Shared
during w = record (shared w) { queued = w.build_queue - 1; active = true }

abbrev pub afterwards : World → Shared
afterwards w = record (shared w) { queued = w.build_queue - 1; active = false }

module _ (w : World) where
  take_task-Triple :
      {E : World → Type 0}
      → Triple
          (λ v. shared v ≡ shared w)
          (modify (λ v. record v { build_queue = v.build_queue - 1; build_active = true }))
          (λ _ v. shared v ≡ during w)
          E
  unfolding modify
  take_task-Triple = record {
    at = λ v h.
        ap {A = Shared} {B = Shared} (λ s. record s { queued = s.queued - 1; active = true }) h;
  }

  set_idle-Triple :
      {E : World → Type 0}
      → Triple
          (λ v. shared v ≡ during w)
          (modify (λ v. record v { build_active = false }))
          (λ _ v. shared v ≡ afterwards w)
          E
  unfolding modify
  set_idle-Triple = record {
    at = λ v h. ap {A = Shared} {B = Shared} (λ s. record s { active = false }) h;
  }

  -- with stages that leave alone what is shared
  pub run_task-Ends :
      ⦃env : Env⦄ (execution_order : List PipelineNode)
      → AllKeep (λ v. shared v ≡ during w) execution_order
      → Ends
          (λ _ v. shared v ≡ afterwards w)
          (λ v. shared v ≡ afterwards w)
          (run_task execution_order w)
  unfolding run_task
  run_task-Ends order alone =
      (Triple-bind _ _ take_task-Triple (λ _.
          Triple-bind _ _
            (Keeps-tried (start_build order)
              (start_build-Keeps (shared-IsUnbuilt (during w)) order alone))
            (λ _. Triple-bind _ _ set_idle-Triple (λ _.
              broadcast_status-Keeps (shared-IsUnbuilt (afterwards w)).outside.apart.quiet)))).at
        w refl
