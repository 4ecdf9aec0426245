-- ===== src/Worker.antt =====
-- `build_worker` and `status_broadcast_loop` of build-pipeline/common.py: one task of the queue, and
-- one round of the loop.
pub mod Idle
pub mod Frame
use pronze.Prelude.{
  ℕ, ◌-◌, String, Bool, true, false, ◌&&◌, if◌then◌else◌, none, some, List, [], ◌∷◌, string_eq,
}
use pronze.Prelude.Int.{pos}
use pronze.Prelude.Dict.{insert}
use pronze.World.{World, Env, FilePath, Context}
use pronze.Action.{⊤, Action, pure, gets, modify, ◌>>=◌, ◌>>◌, try_pass, for_each}
use pronze.Os.{makedirs, time, uuid4}
use pronze.Config.{context_dirs}
use pronze.Status.{waiting, broadcast_status}
use pronze.Graph.{PipelineNode}
use pronze.Execute.{execute}

abbrev pub reset_node : PipelineNode → World → World
reset_node node w = record w {
  node_states = insert node.name waiting w.node_states;
  log_buffers = insert node.name "" w.log_buffers;
}

module _ ⦃env : Env⦄ where
  -- the body of the `try`
  unfoldable pub start_build : List PipelineNode → Action ⊤
  start_build execution_order = do
    c ← gets (λ w. w.context)
    for_each (context_dirs c) makedirs
    u ← uuid4
    modify (λ w. record w {
      build_uuid = u;
      build_completed = false;
      total_build_time = pos 0;
      final_status_text = "";
    })
    now ← time
    modify (λ w. record w { build_start_time = some now })
    for_each execution_order (λ node. modify (reset_node node))
    broadcast_status
    execute execution_order

  -- One task, taken from the queue and marked as done.
  unfoldable pub run_task : List PipelineNode → Action ⊤
  run_task execution_order = do
    modify (λ w. record w { build_queue = w.build_queue - 1; build_active = true })
    try_pass (start_build execution_order)
    modify (λ w. record w { build_active = false })
    broadcast_status

  -- A round of `status_broadcast_loop`, before it sleeps for a second.
  unfoldable pub broadcast_round : Action ⊤
  broadcast_round = do
    due ← gets (λ w. w.build_active && w.context_ready)
    if due then try_pass broadcast_status else pure tt
