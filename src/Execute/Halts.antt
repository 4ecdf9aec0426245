-- ===== src/Execute/Halts.antt =====
-- What becomes of a run of `Pipeline.execute` after a stage has raised.
use pronze.Prelude.{
  ◌≡◌, refl, ◌⊎◌, inl, inr, Bool, true, false, contains, if◌then◌else◌, some, string_eq,
}
use pronze.Prelude.Int.{ℤ, ◌-ℤ◌}
use pronze.World.{World, Env, failed}
use pronze.Action.{
  Action, pure, gets, modify, ◌>>=◌, ◌>>◌, Ends, Keeps, Triple, Ends-weaken, Triple-bind,
  Triple-pure, Triple-weaken, Keeps-gets,
}
use pronze.Os.Frame.{time-Keeps}
use pronze.Archive.Frame.{update_build_stats-Keeps}
use pronze.Status.{update_node_status, allowed_failures}
use pronze.Status.Frame.{IsQuiet, update_node_status-Keeps, send_total_report-Keeps}
use pronze.Graph.{PipelineNode}
use pronze.Execute.{Step, go_on, halt, fail_build, after_raise, took}

-- The result of the build is as open as in `w`; the build is completed as failed.
abbrev pub IsOpen : World → World → Type 0
IsOpen w v = (v.final_status_text ≡ w.final_status_text) × (v.build_completed ≡ w.build_completed)

abbrev pub HasFailed : World → Type 0
HasFailed v = (v.final_status_text ≡ "Failed") × (v.build_completed ≡ true)

-- What is known after a stage has raised, by whether it is one of those that may fail; and where the
-- report of it raises too.
unfoldable pub AfterRaise : Bool → World → Step → World → Type 0
AfterRaise true w s v = (s ≡ go_on) × IsOpen w v
AfterRaise false w s v = (s ≡ halt) × HasFailed v

unfoldable pub Unreported : Bool → World → World → Type 0
Unreported true w v = IsOpen w v
Unreported false w v = IsOpen w v ⊎ HasFailed v

pub open-IsQuiet : (w : World) → IsQuiet (IsOpen w)
open-IsQuiet w = record {
  framed = record { files = λ f v h. h; clock = λ n v h. h; ids = λ n v h. h };
  progress = λ d v h. h;
  queues = λ qs v h. h;
}

pub failed-IsQuiet : IsQuiet HasFailed
failed-IsQuiet = record {
  framed = record { files = λ f w h. h; clock = λ n w h. h; ids = λ n w h. h };
  progress = λ d w h. h;
  queues = λ qs w h. h;
}

module _ ⦃env : Env⦄ where
  set_failed :
      (w : World) (total : ℤ)
      → Triple
          (IsOpen w)
          (modify (λ w. record w {
            total_build_time = total;
            final_status_text = "Failed";
            build_completed = true;
          }))
          (λ _. HasFailed)
          (Unreported false w)
  unfolding modify
  set_failed w total = record { at = λ v h. (refl, refl) }

  opened :
      (w : World) {A : Type 0} {m : Action A}
      → Keeps (IsOpen w) m
      → Triple (IsOpen w) m (λ _. IsOpen w) (Unreported false w)
  unfolding Unreported
  opened w {A} {m} k = Triple-weaken m (λ v h. inl h) k

  settled :
      (w : World) {A : Type 0} {m : Action A}
      → Keeps HasFailed m
      → Triple HasFailed m (λ _. HasFailed) (Unreported false w)
  unfolding Unreported
  settled w {A} {m} k = Triple-weaken m (λ v h. inr h) k

  pub fail_build-Triple :
      (w : World) (node : PipelineNode) (t e : ℤ)
      → Triple
          (IsOpen w)
          (fail_build node t e)
          (λ s v. (s ≡ halt) × HasFailed v)
          (Unreported false w)
  unfolding fail_build
  fail_build-Triple w node t e =
      Triple-bind _ _
        (opened w (update_node_status-Keeps (open-IsQuiet w) node.name failed _ (some e)))
        (λ _. Triple-bind _ _ (opened w (time-Keeps (open-IsQuiet w).framed)) (λ now.
          Triple-bind _ _ (set_failed w (now -ℤ t)) (λ _.
            Triple-bind _ _ (settled w (send_total_report-Keeps failed-IsQuiet (now -ℤ t) "Failed"))
              (λ _. Triple-bind _ _ (settled w (Keeps-gets (λ w. w.context.workspace_dir))) (λ ws.
                Triple-bind _ _
                  (settled w (update_build_stats-Keeps failed-IsQuiet.framed ws "Failed"))
                  (λ _. Triple-pure halt (λ v h. (refl, h))))))))

  pub fail_build-HasFailed :
      (node : PipelineNode) (t e : ℤ)
      → Triple (λ _. Unit) (fail_build node t e) (λ s v. (s ≡ halt) × HasFailed v) (λ _. Unit)
  fail_build-HasFailed node t e = record {
    at = λ w h.
        Ends-weaken (λ s v. (s ≡ halt) × HasFailed v) (Unreported false w) (λ _. Unit)
          (fail_build node t e w) (λ v k. tt) ((fail_build-Triple w node t e).at w (refl, refl));
  }

  -- After a stage has raised, the run goes on if the stage is one of ALLOWED_FAILURES, with the
  -- result of the build as it was, text and completion; otherwise the run is over, and the build is
  -- completed as failed. Where the report of the failure raises too, the result is as it was, or the
  -- build is completed as failed, the latter only for a stage that is not one of ALLOWED_FAILURES.
  pub after_raise-Ends :
      (node : PipelineNode) (t e : ℤ) (w : World)
      → Ends
          (AfterRaise (contains node.name (allowed_failures w.context.config)) w)
          (Unreported (contains node.name (allowed_failures w.context.config)) w)
          (after_raise node t e w)
  unfolding after_raise AfterRaise Unreported gets ◌>>=◌
  after_raise-Ends node t e w = by_allowed (contains node.name (allowed_failures w.context.config))
    where
      by_allowed :
          (b : Bool)
          → Ends (AfterRaise b w) (Unreported b w) (
              (if b
                  then (update_node_status node.name failed
                        (took env "Error" e " [Allowed]")
                        (some e)
                      >> pure go_on)
                  else fail_build node t e)
                w)
      by_allowed true =
          (Triple-bind _ _ (update_node_status-Keeps (open-IsQuiet w) node.name failed _ (some e))
              (λ _. Triple-pure go_on (λ v h. (refl, h)))).at
            w (refl, refl)
      by_allowed false = (fail_build-Triple w node t e).at w (refl, refl)
