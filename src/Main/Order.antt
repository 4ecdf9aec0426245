-- ===== src/Main/Order.antt =====
-- The order of the stages that `main` registers.
use pronze.Prelude.{◌≡◌, refl, List, [], ◌∷◌, string_eq, arith}
use pronze.Prelude.Dict.{lookup, insert}
use pronze.World.{Env}
use pronze.Graph.{
  PipelineNode, Pipeline, empty_pipeline, built, build_graph, visit_graph, visit, visit_all,
  add_node,
}
use pronze.Graph.Order.{IsOrder, IsKeyed, add_node-IsKeyed, build_graph-IsOrder}
use pronze.Main.{stages, pipeline, add_nodes}

add_nodes-IsKeyed :
    (p : Pipeline) (ns : List PipelineNode) → IsKeyed p.nodes → IsKeyed (add_nodes p ns).nodes
unfolding add_nodes
add_nodes-IsKeyed p [] h = h
add_nodes-IsKeyed p (n ∷ ns) h = add_nodes-IsKeyed (add_node p n) ns (add_node-IsKeyed p n h)

empty-IsKeyed : IsKeyed empty_pipeline.nodes
unfolding lookup
empty-IsKeyed k n e = absurd (ground arith)

module _ ⦃env : Env⦄ where
  pipeline-IsKeyed : IsKeyed pipeline.nodes
  unfolding pipeline
  pipeline-IsKeyed = add_nodes-IsKeyed empty_pipeline stages empty-IsKeyed

  abbrev ordered : Pipeline
  ordered = record pipeline { execution_order = stages }

  ordered-built : build_graph pipeline ≡ built ordered
  unfolding build_graph visit_graph visit visit_all add_node add_nodes pipeline stages lookup insert
  ordered-built = refl

  pipeline-unbuilt : pipeline.execution_order ≡ []
  unfolding pipeline stages add_nodes add_node
  pipeline-unbuilt = refl

  -- The stages that `main` registers are built without an error, into the order in which pipeline.py
  -- lists them; that order has every stage once, behind the stages that it waits for.
  pub pipeline-IsOrder :
      (q : Pipeline) × (build_graph pipeline ≡ built q)
      × (q.execution_order ≡ stages)
      × IsOrder pipeline q
  pipeline-IsOrder = (
    ordered,
    ordered-built,
    refl,
    build_graph-IsOrder pipeline ordered pipeline-IsKeyed pipeline-unbuilt ordered-built,
  )
