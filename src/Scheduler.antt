-- ===== src/Scheduler.antt =====
-- What the threads of build-pipeline/common.py promise each other about builds: the handlers of the
-- portal put builds into the queue, the worker takes them out. An abstract specification: one step is
-- one access to the queue or to `build_active`, and the threads' steps come in any order.
pub mod Counts
pub mod Refines
use pronze.Prelude.{ℕ, ◌+◌, ◌-◌, ◌<◌, ◌≡◌, Bool, true, false}

pub record Scheduler : Type 0 where
  -- `build_queue` and `build_active`
  pub queued : ℕ
  pub active : Bool
  -- What no variable of the program holds, but where its threads stand: the handlers that have read
  -- that no build is active, and have not yet put theirs into the queue; whether the worker is between
  -- taking a task and the end of its `try`; and how many builds were put and taken so far.
  pub passed : ℕ
  pub building : Bool
  pub accepted : ℕ
  pub started : ℕ

-- Nothing has been asked for yet.
abbrev pub idle : Scheduler
idle = record {
  queued = 0;
  active = false;
  passed = 0;
  building = false;
  accepted = 0;
  started = 0;
}

pub data Move : Scheduler → Scheduler → Type 0 where
  -- `if build_active: … return` is passed by
  pass : {s : Scheduler} → s.active ≡ false → Move s (record s { passed = s.passed + 1 })
  -- the preparation of the build raises
  give_up : {s : Scheduler} → 0 < s.passed → Move s (record s { passed = s.passed - 1 })
  -- `build_queue.put(…)`, of a handler or of `main`
  put :
      {s : Scheduler}
      → 0 < s.passed
      → Move s
          (record s { passed = s.passed - 1; queued = s.queued + 1; accepted = s.accepted + 1 })
  -- `task = build_queue.get()`
  take :
      {s : Scheduler}
      → s.building ≡ false
      → 0 < s.queued
      → Move s (record s { queued = s.queued - 1; building = true; started = s.started + 1 })
  -- `build_active = True`
  begin : {s : Scheduler} → s.building ≡ true → Move s (record s { active = true })
  -- `finally: build_active = False`
  finish :
      {s : Scheduler} → s.building ≡ true → Move s (record s { active = false; building = false })

-- Some steps, one after the other.
pub data Run (s : Scheduler) : Scheduler → Type 0 where
  here : Run s s
  next : {t u : Scheduler} → Run s t → Move t u → Run s u
