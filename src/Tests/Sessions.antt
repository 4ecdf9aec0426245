-- ===== src/Tests/Sessions.antt =====
-- The server and its worker over some requests.
use pronze.Prelude.{false, ◌+◌, ◌≡◌, refl, false, List, [], ◌∷◌, string_eq, arith}
use pronze.World.{World}
use pronze.Action.{Ends}
use pronze.Worker.{run_task}
use pronze.Worker.Frame.{shared}
use pronze.Worker.Idle.{afterwards}
use pronze.Portal.{do_post}
use pronze.Portal.Frame.{Sees}
use pronze.Main.{stages}
use pronze.Main.Stages.{run_task-stages-Ends}
use pronze.Scheduler.{idle, here}
use pronze.Scheduler.Refines.{Along, Accepted, Refused}
use pronze.Scheduler.Refines.Post.{accepted_for, do_post-refines}
use pronze.Scheduler.Refines.Session.{Operation, post, get, turn, session, fresh, session_conserves}
use pronze.Tests.Sample.{host, sample, request}

-- a rebuild and a build are asked for, then the worker has its turn, then the page is read
abbrev requests : List Operation
requests =
    post (request "/api/rebuild" "secret")
    ∷ post (request "/api/build" "secret")
    ∷ post (request "/api/build" "wrong")
    ∷ turn
    ∷ get (request "/" "")
    ∷ []

session_conserves_example :
    (sample.build_queue + (session ⦃env = host⦄ requests (fresh sample)).accepted
      ≡ (session ⦃env = host⦄ requests (fresh sample)).started
        + (session ⦃env = host⦄ requests (fresh sample)).world.build_queue)
    × ((session ⦃env = host⦄ requests (fresh sample)).world.build_active ≡ false)
session_conserves_example = session_conserves ⦃env = host⦄ requests sample refl

abbrev two_queued : World
two_queued = record sample { build_queue = 2 }

run_task-stages-Ends_example :
    Ends
      (λ _ v. shared v ≡ afterwards two_queued)
      (λ v. shared v ≡ afterwards two_queued)
      (run_task ⦃env = host⦄ (stages ⦃env = host⦄) two_queued)
run_task-stages-Ends_example = run_task-stages-Ends ⦃env = host⦄ two_queued

do_post-refines_example :
    Ends
      (λ a. Sees (Along idle (Accepted idle (accepted_for (request "/api/build" "secret") a))))
      (Refused idle)
      (do_post ⦃env = host⦄ (request "/api/build" "secret") sample)
do_post-refines_example =
    do_post-refines ⦃env = host⦄ idle (request "/api/build" "secret") sample (record {
      state = idle;
      run = here;
      queued = refl;
      shown = refl;
      holds = (omega arith, refl, refl);
    })
