-- ===== src/Scheduler/Counts.antt =====
-- What holds of the queue in every state that can be reached.
use pronze.Prelude.{◌+◌, ◌≡◌, refl, false, arith}
use pronze.Scheduler.{Scheduler, Move, pass, give_up, put, take, begin, finish, Run, here, next}

pub Run-trans : {s t u : Scheduler} → Run s t → Run t u → Run s u
Run-trans r here = r
Run-trans r (next q st) = next (Run-trans r q) st

-- No build is lost and none is run twice, and `build_active` is down while the worker has none.
pub record IsCounted (s : Scheduler) : Type 0 where
  pub counted : s.accepted ≡ s.started + s.queued
  pub honest : s.building ≡ false → s.active ≡ false

pub Move-IsCounted : {s t : Scheduler} → Move s t → IsCounted s → IsCounted t
Move-IsCounted (pass free) c = record { counted = c.counted; honest = c.honest }
Move-IsCounted (give_up some_passed) c = record { counted = c.counted; honest = c.honest }
Move-IsCounted (put some_passed) c = record {
  counted = omega (arith, c.counted);
  honest = c.honest;
}
Move-IsCounted (take free some_queued) c = record {
  counted = omega (arith, c.counted, some_queued);
  honest = λ e. absurd (ground (arith, e));
}
Move-IsCounted (begin busy) c = record {
  counted = c.counted;
  honest = λ e. absurd (ground (arith, busy, e));
}
Move-IsCounted (finish busy) c = record { counted = c.counted; honest = λ _. refl }

pub Run-IsCounted : {s t : Scheduler} → Run s t → IsCounted s → IsCounted t
Run-IsCounted here c = c
Run-IsCounted (next r st) c = Move-IsCounted st (Run-IsCounted r c)
