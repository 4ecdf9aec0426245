-- ===== src/Scheduler/Refines/Session.antt =====
-- The server over any sequence of requests, of turns of the worker, and of rounds of the other threads.
use pronze.Prelude.{
  String, ℕ, zero, suc, Bool, false, ◌&&◌, ◌+◌, ◌≡◌, refl, sym, ◌∙◌, true, false, List, [], ◌∷◌,
  ltb, if◌then◌else◌, arith, inl, inr, Bool-cases,
}
use pronze.World.{World, Env}
use pronze.Action.{Result, ok, err, ⊤, Ends}
use pronze.Worker.{run_task, broadcast_round}
use pronze.Qemu.{read_char, flush_round}
use pronze.Portal.{Request, Answer, do_post, do_get}
use pronze.Portal.Frame.{
  Sees, Sees-IsUnbuilt, do_get-Keeps, flush_round-Keeps, broadcast_round-Keeps,
}
use pronze.Main.{stages}
use pronze.Main.Stages.{stages-AllKeep}
use pronze.Scheduler.{Scheduler, here}
use pronze.Scheduler.Counts.{Run-trans, IsCounted, Run-IsCounted}
use pronze.Scheduler.Refines.{Along, Accepted, Refused}
use pronze.Scheduler.Refines.Post.{accepted_for, do_post-refines}
use pronze.Scheduler.Refines.Task.{Started, run_task-refines}

-- A request that is handled, a turn of the worker, which waits where the queue is empty, and is over once its thread has ended, a character
-- that the reader of the console has read, or a round of one of the two loops.
pub data Operation : Type 0 where
  post get : Request → Operation
  turn : Operation
  typed : String → Operation
  flush tick : Operation

-- A state of the server and of the worker's thread, with the builds that it has accepted and started so far.
pub record Tally : Type 0 where
  pub world : World
  -- whether the worker's thread has not been ended by a raise
  pub alive : Bool
  pub accepted : ℕ
  pub started : ℕ

abbrev outcome_accepted : Request → Result Answer → ℕ
outcome_accepted r (ok a) = accepted_for r a
outcome_accepted r (err e) = 0

abbrev after_post : Request → Tally → Result Answer × World → Tally
after_post r t (o, w) = record t { world = w; accepted = t.accepted + outcome_accepted r o }

abbrev has_returned : Result ⊤ → Bool
has_returned (ok _) = true
has_returned (err e) = false

-- What `broadcast_status` raises in the `finally` of `build_worker` ends its thread.
abbrev after_turn : Tally → Result ⊤ × World → Tally
after_turn t (o, w) = record t { world = w; alive = has_returned o; started = t.started + 1 }

module _ ⦃env : Env⦄ where
  unfoldable pub perform : Operation → Tally → Tally
  perform (post r) t = after_post r t (do_post r t.world)
  perform (get r) t = record t { world = (do_get r t.world).1 }
  perform turn t =
      if t.alive && ltb 0 t.world.build_queue then after_turn t (run_task stages t.world) else t
  perform (typed char) t = record t { world = read_char char t.world }
  perform flush t = record t { world = (flush_round t.world).1 }
  perform tick t = record t { world = (broadcast_round t.world).1 }

  unfoldable pub session : List Operation → Tally → Tally
  session [] t = t
  session (o ∷ os) t = session os (perform o t)

-- Since `s`, as many builds were accepted and started as the tally tells, and the worker has none.
abbrev Tallied : Scheduler → Tally → Scheduler → Type 0
Tallied s t u =
    (u.accepted ≡ s.accepted + t.accepted)
    × (u.started ≡ s.started + t.started)
    × (u.building ≡ false)

abbrev Follows : Scheduler → Tally → Type 0
Follows s t = Sees (Along s (Tallied s t)) t.world

module _ ⦃env : Env⦄ (s : Scheduler) where
  -- a run from where another has come to
  onward :
      (t t' : Tally) (P : Scheduler → Scheduler → Type 0) (a : Follows s t)
      → Sees (Along a.state (P a.state)) t'.world
      → ((u : Scheduler) → P a.state u → Tallied s t' u)
      → Follows s t'
  onward t t' P a b h = record {
    state = b.state;
    run = Run-trans a.run b.run;
    queued = b.queued;
    shown = b.shown;
    holds = h b.state b.holds;
  }

  after_post-Follows :
      (r : Request) (t : Tally) (a : Follows s t) (o : Result Answer × World)
      → Ends (λ x. Sees (Along a.state (Accepted a.state (accepted_for r x)))) (Refused a.state) o
      → Follows s (after_post r t o)
  after_post-Follows r t a (ok x, w) b =
      onward t (after_post r t (ok x, w)) (λ u. Accepted u (accepted_for r x)) a b
        (λ u h. (omega (arith, h.0, a.holds.0), h.1 ∙ a.holds.1, h.2 ∙ a.holds.2))
  after_post-Follows r t a (err e, w) b =
      onward t (after_post r t (err e, w)) (λ u. Accepted u 0) a b
        (λ u h. (omega (arith, h.0, a.holds.0), h.1 ∙ a.holds.1, h.2 ∙ a.holds.2))

  either_way : {A : Type 0} (Q : World → Type 0) (o : Result A × World) → Ends (λ _. Q) Q o → Q o.1
  either_way Q (ok x, w) h = h
  either_way Q (err e, w) h = h

  perform-Follows : (o : Operation) (t : Tally) → Follows s t → Follows s (perform o t)
  unfolding perform read_char
  perform-Follows (post r) t a = after_post-Follows r t a (do_post r t.world) (
      do_post-refines a.state r t.world (record {
        state = a.state;
        run = here;
        queued = a.queued;
        shown = a.shown;
        holds = (omega arith, refl, refl);
      }))
  perform-Follows (get r) t a =
      either_way (Sees (Along s (Tallied s t))) (do_get r t.world)
        ((do_get-Keeps (Along s (Tallied s t)) r).at t.world a)
  perform-Follows turn t a = elim (Bool-cases (t.alive && ltb 0 t.world.build_queue)) [
    | inl some_queued ↦ rw some_queued (
        onward t (after_turn t (run_task stages t.world)) (λ u. Started u false) a
          (either_way (Sees (Along a.state (Started a.state false))) (run_task stages t.world) (
            run_task-refines a.state stages
              (stages-AllKeep (Sees-IsUnbuilt (Along a.state (Started a.state true))).outside.apart)
              t.world (ground arith)
              (record {
                state = a.state;
                run = here;
                queued = a.queued;
                shown = a.shown;
                holds = (refl, refl, a.holds.2);
              })))
          (λ u h. (h.0 ∙ a.holds.0, omega (arith, h.1, a.holds.1), h.2)))
    | inr none_queued ↦ rw none_queued a
  ]
  perform-Follows (typed char) t a = a
  perform-Follows flush t a =
      either_way (Sees (Along s (Tallied s t))) (flush_round t.world)
        ((flush_round-Keeps (Along s (Tallied s t))).at t.world a)
  perform-Follows tick t a =
      either_way (Sees (Along s (Tallied s t))) (broadcast_round t.world)
        ((broadcast_round-Keeps (Along s (Tallied s t))).at t.world a)

  session-Follows : (os : List Operation) (t : Tally) → Follows s t → Follows s (session os t)
  unfolding session
  session-Follows [] t a = a
  session-Follows (o ∷ os) t a = session-Follows os (perform o t) (perform-Follows o t a)

-- Nothing has been counted yet.
abbrev pub fresh : World → Tally
fresh w = record { world = w; alive = true; accepted = 0; started = 0 }

module _ ⦃env : Env⦄ where
  -- Over any sequence of requests, turns of the worker and rounds of the other threads, from a state without an active build, no
  -- build is lost or made up: those that were queued at the start and those that were accepted are the
  -- ones that were started and those that are still queued; and no build is active at the end.
  pub session_conserves :
      (os : List Operation) (w : World)
      → w.build_active ≡ false
      → let t = session os (fresh w) in
        (w.build_queue + t.accepted ≡ t.started + t.world.build_queue)
        × (t.world.build_active ≡ false)
  session_conserves os w free = (
    omega (arith, counted.counted, a.queued, a.holds.0, a.holds.1),
    sym a.shown ∙ counted.honest a.holds.2,
  )
    where
      start : Scheduler
      start = record {
        queued = w.build_queue;
        active = false;
        passed = 0;
        building = false;
        accepted = w.build_queue;
        started = 0;
      }

      a : Follows start (session os (fresh w))
      a = session-Follows start os (fresh w) (record {
        state = start;
        run = here;
        queued = refl;
        shown = sym free;
        holds = (omega arith, refl, refl);
      })

      counted : IsCounted a.state
      counted = Run-IsCounted a.run (record { counted = omega arith; honest = λ _. refl })

-- so many turns of the worker
abbrev pub turns : ℕ → List Operation
turns zero = []
turns (suc n) = turn ∷ turns n

module _ ⦃env : Env⦄ where
  -- All builds that were queued have been started, with none accepted in between.
  abbrev pub Drained : Tally → ℕ → Tally → Type 0
  Drained t n u =
      (u.world.build_queue ≡ 0)
      × (u.started ≡ t.started + n)
      × (u.accepted ≡ t.accepted)
      × (u.world.build_active ≡ false)
