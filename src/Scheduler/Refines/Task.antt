-- ===== src/Scheduler/Refines/Task.antt =====
-- One task of `build_worker`, with stages that leave the queue alone.
use pronze.Prelude.{ℕ, ◌+◌, ◌-◌, ◌<◌, ◌≡◌, refl, Bool, true, false, List, arith}
use pronze.World.{World, Env}
use pronze.Action.{modify, Ends, Triple, Triple-bind, Keeps-tried}
use pronze.Status.Frame.{broadcast_status-Keeps}
use pronze.Graph.{PipelineNode}
use pronze.Execute.Frame.{AllKeep}
use pronze.Worker.{start_build, run_task}
use pronze.Worker.Frame.{start_build-Keeps}
use pronze.Portal.Frame.{Sees, Sees-IsUnbuilt}
use pronze.Scheduler.{Scheduler, take, begin, finish, next}
use pronze.Scheduler.Refines.{Along}

-- Since `s`, one build was started, and the worker has it or not.
abbrev pub Started : Scheduler → Bool → Scheduler → Type 0
Started s building t =
    (t.accepted ≡ s.accepted) × (t.started ≡ s.started + 1) × (t.building ≡ building)

-- Since `s`, no build was started or accepted, and the worker has none.
abbrev pub Untouched : Scheduler → Scheduler → Type 0
Untouched s t = (t.accepted ≡ s.accepted) × (t.started ≡ s.started) × (t.building ≡ false)

module _ (s : Scheduler) where
  takes :
      (n : ℕ) (b : Bool) → 0 < n → Along s (Untouched s) n b → Along s (Started s true) (n - 1) true
  takes n b waiting a = record {
    state = record a.state {
      queued = a.state.queued - 1;
      active = true;
      building = true;
      started = a.state.started + 1;
    };
    run = next (next a.run (take a.holds.2 (omega (arith, a.queued)))) (begin refl);
    queued = omega (arith, a.queued);
    shown = refl;
    holds = (a.holds.0, omega (arith, a.holds.1), refl);
  }

  finishes : (n : ℕ) (b : Bool) → Along s (Started s true) n b → Along s (Started s false) n false
  finishes n b a = record {
    state = record a.state { active = false; building = false };
    run = next a.run (finish a.holds.2);
    queued = a.queued;
    shown = refl;
    holds = (a.holds.0, a.holds.1, refl);
  }

  take-Triple :
      Triple
        (λ w. (0 < w.build_queue) × Sees (Along s (Untouched s)) w)
        (modify (λ w. record w { build_queue = w.build_queue - 1; build_active = true }))
        (λ _. Sees (Along s (Started s true)))
        (Sees (Along s (Started s false)))
  unfolding modify
  take-Triple = record { at = λ w h. takes w.build_queue w.build_active h.0 h.1 }

  finish-Triple :
      Triple
        (Sees (Along s (Started s true)))
        (modify (λ w. record w { build_active = false }))
        (λ _. Sees (Along s (Started s false)))
        (Sees (Along s (Started s false)))
  unfolding modify
  finish-Triple = record { at = λ w h. finishes w.build_queue w.build_active h }

  module _ ⦃env : Env⦄ (order : List PipelineNode)
      (alone : AllKeep (Sees (Along s (Started s true))) order) where
    -- A task of the worker, whatever becomes of the build, does to the queue what a run of the scheduler
    -- does, in which one build is taken from the queue and ended, and none is accepted.
    pub run_task-refines :
        (w : World)
        → 0 < w.build_queue
        → Sees (Along s (Untouched s)) w
        → Ends
            (λ _. Sees (Along s (Started s false)))
            (Sees (Along s (Started s false)))
            (run_task order w)
    unfolding run_task
    run_task-refines w waiting h =
        (Triple-bind _ _ take-Triple (λ _.
            Triple-bind _ _
              (Keeps-tried (start_build order)
                (start_build-Keeps (Sees-IsUnbuilt (Along s (Started s true))) order alone))
              (λ _. Triple-bind _ _ finish-Triple (λ _.
                broadcast_status-Keeps
                  (Sees-IsUnbuilt (Along s (Started s false))).outside.apart.quiet)))).at
          w (waiting, h)
