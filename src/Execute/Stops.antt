-- ===== src/Execute/Stops.antt =====
-- What stands behind a stage that fails the build, in `Pipeline.execute`, is never run.
use pronze.Prelude.{◌≡◌, false, contains, string_eq}
use pronze.Prelude.Int.{ℤ}
use pronze.World.{World, Env, Context}
use pronze.Action.{Exn, Result, ok, err, ⊤, Action, Ends}
use pronze.Status.{allowed_failures}
use pronze.Graph.{PipelineNode}
use pronze.Execute.{Step, halt}
use pronze.Execute.Halts.{HasFailed}

-- In every state of that context the stage raises, and is then not one of ALLOWED_FAILURES.
abbrev pub Refuses : Context → PipelineNode → Type 0
Refuses c node =
    (u : World)
    → u.context ≡ c
    → (e : Exn) × ((node.run u).0 ≡ err e)
      × (contains node.name (allowed_failures (node.run u).1.context.config) ≡ false)

abbrev pub Halted : Result Step × World → Type 0
Halted = Ends (λ s u. (s ≡ halt) × HasFailed u) (λ _. Unit)

module _ ⦃env : Env⦄ (c : Context) (node : PipelineNode) (refuses : Refuses c node) (t : ℤ) where
  abbrev Has : World → Type 0
  Has v = v.context ≡ c

  -- not one of ALLOWED_FAILURES
  abbrev IsDenied : World → Type 0
  IsDenied v = contains node.name (allowed_failures v.context.config) ≡ false

  abbrev Attempted : Result ⊤ → World → Type 0
  Attempted (ok _) v = ⊥
  Attempted (err e) v = IsDenied v
