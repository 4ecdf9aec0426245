-- ===== src/Scheduler/Refines.antt =====
-- The handlers of the portal and the worker make the moves of the scheduler, and no others: what they
-- do to the queue, followed by a run of the specification.
pub mod Post
pub mod Task
pub mod Session
use pronze.Prelude.{
  ℕ, zero, suc, ◌+◌, ◌-◌, ◌<◌, ◌≡◌, refl, ap, sym, ◌∙◌, String, Bool, true, false, not, ◌&&◌, List,
  [], ◌∷◌, ◌==◌, nat_eq, string_eq, arith, if◌then◌else◌, contains,
}
use pronze.World.{World, Env}
use pronze.Action.{
  Result, ok, err, ⊤, Action, pure, gets, modify, ◌>>=◌, ◌>>◌, try_pass, Ends, Triple, Triple-bind,
  Triple-pure, Triple-weaken, Keeps, Keeps-pure, Keeps-if, Keeps-gets, ◌⨾◌,
}
use pronze.Status.Frame.{broadcast_status-Keeps}
use pronze.Graph.{PipelineNode}
use pronze.Execute.Frame.{AllKeep}
use pronze.Worker.{start_build, run_task}
use pronze.Worker.Frame.{IsUnbuilt, start_build-Keeps}
use pronze.Portal.{
  Request, Answer, reply, error_page, html, stream, download, is_password, ok_reply, enqueue,
  do_post, dispatch, request_build, clear_cache, prepare_repackage,
}
use pronze.Portal.Frame.{Sees, Sees-IsUnbuilt, clear_cache-Keeps, prepare_repackage-Keeps}
use pronze.Scheduler.{Scheduler, Move, pass, give_up, put, take, finish, Run, here, next}

-- The scheduler can come from `s` to a state that shows the queue `n` and whether a build is active,
-- and of which `P` holds.
pub record Along (s : Scheduler) (P : Scheduler → Type 0) (n : ℕ) (active : Bool) : Type 0 where
  pub state : Scheduler
  pub run : Run s state
  pub queued : state.queued ≡ n
  pub shown : state.active ≡ active
  pub holds : P state

module _ {s : Scheduler} {P Q : Scheduler → Type 0} where
  Along-map : {n : ℕ} {b : Bool} → ((t : Scheduler) → P t → Q t) → Along s P n b → Along s Q n b
  Along-map f a = record {
    state = a.state;
    run = a.run;
    queued = a.queued;
    shown = a.shown;
    holds = f a.state a.holds;
  }

-- How many builds were accepted, and whether the worker has one, since `s`.
abbrev pub Accepted : Scheduler → ℕ → Scheduler → Type 0
Accepted s n t = (t.accepted ≡ s.accepted + n) × (t.started ≡ s.started) × (t.building ≡ s.building)

module _ (s : Scheduler) where
  abbrev pub Waiting : Scheduler → Type 0
  Waiting t = Accepted s 0 t × (0 < t.passed)

  -- one handler more has passed the test
  passes : (n : ℕ) (b : Bool) → b ≡ false → Along s (Accepted s 0) n b → Along s Waiting n b
  passes n b free a = record {
    state = record a.state { passed = a.state.passed + 1 };
    run = next a.run (pass (a.shown ∙ free));
    queued = a.queued;
    shown = a.shown;
    holds = (a.holds, omega arith);
  }

  gives_up : (n : ℕ) (b : Bool) → Along s Waiting n b → Along s (Accepted s 0) n b
  gives_up n b a = record {
    state = record a.state { passed = a.state.passed - 1 };
    run = next a.run (give_up a.holds.1);
    queued = a.queued;
    shown = a.shown;
    holds = a.holds.0;
  }

  puts : (n : ℕ) (b : Bool) → Along s Waiting n b → Along s (Accepted s 1) (n + 1) b
  puts n b a = record {
    state = record a.state {
      passed = a.state.passed - 1;
      queued = a.state.queued + 1;
      accepted = a.state.accepted + 1;
    };
    run = next a.run (put a.holds.1);
    queued = omega (arith, a.queued);
    shown = a.shown;
    holds = (omega (arith, a.holds.0.0), a.holds.0.1, a.holds.0.2);
  }

-- The builds that an answer to a request for one has accepted.
abbrev pub accepted_by : Answer → ℕ
accepted_by (reply code message) = if code == 200 then 1 else 0
accepted_by _ = 0

module _ (s : Scheduler) where
  abbrev pub Settled : Answer → World → Type 0
  Settled a = Sees (Along s (Accepted s (accepted_by a)))

  abbrev pub Refused : World → Type 0
  Refused = Sees (Along s (Accepted s 0))

  module _ (prepare : Action ⊤) (keeps : Keeps (Sees (Along s (Waiting s))) prepare) where
    enqueue-Triple :
        Triple (Sees (Along s (Waiting s))) (modify enqueue) (λ _. Settled ok_reply) Refused
    unfolding modify
    enqueue-Triple = record { at = λ w h. puts s w.build_queue w.build_active h }

    -- what is done behind the test of `build_active`
    queue_build :
        Triple
          (Sees (Along s (Waiting s)))
          (prepare >> (modify enqueue >> pure ok_reply))
          Settled
          Refused
    queue_build =
        Triple-bind prepare _
          (Triple-weaken prepare (λ w h. gives_up s w.build_queue w.build_active h) keeps)
          (λ _.
            Triple-bind (modify enqueue) _ enqueue-Triple (λ _. Triple-pure ok_reply (λ w h. h)))

    gate :
        (ready active : Bool) (w : World)
        → w.build_active ≡ active
        → Refused w
        → Ends Settled Refused (
            (if not ready
                then pure (error_page 500)
                else if active
                then pure (reply 400 "{\"error\": \"Build already active\"}")
                else (prepare >> (modify enqueue >> pure ok_reply)))
              w)
    unfolding pure
    gate false active w e h = h
    gate true true w e h = h
    gate true false w e h = queue_build.at w (passes s w.build_queue w.build_active e h)

    pub request_build-Triple : Triple Refused (request_build prepare) Settled Refused
    unfolding request_build gets ◌>>=◌
    request_build-Triple = record {
      at = λ w h. gate (w.context_ready && w.pipeline_ready) w.build_active w refl h;
    }
