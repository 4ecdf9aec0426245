-- ===== src/Tests/Order.antt =====
-- The pipeline's order, and the errors of a table of stages.
use pronze.Prelude.{String, ◌≡◌, ◌≢◌, refl, List, [], ◌∷◌, string_eq, arith}
use pronze.Prelude.Dict.{lookup, insert}
use pronze.Action.{pure}
use pronze.Graph.{
  PipelineNode, Pipeline, empty_pipeline, built, refused, cyclic, out_of_fuel, build_graph,
  visit_graph, visit, visit_all, add_node,
}
use pronze.Graph.Order.{IsOrder, IsKeyed, add_node-IsKeyed, build_graph-IsOrder}
use pronze.Graph.Fuel.{build_graph-ends}
use pronze.Graph.Errors.{Explains, build_graph-Explains}
use pronze.Main.Order.{pipeline-IsOrder}
use pronze.Main.{stages, pipeline}
use pronze.Tests.Sample.{host}

abbrev stage : String → List String → PipelineNode
stage name dependencies = record { name = name; dependencies = dependencies; run = pure tt }

-- Registered in the wrong order.
abbrev fetch_and_build : Pipeline
fetch_and_build =
    add_node (add_node empty_pipeline (stage "build" ("fetch" ∷ []))) (stage "fetch" [])

abbrev fetched : Pipeline
fetched = record fetch_and_build {
  execution_order = stage "fetch" [] ∷ stage "build" ("fetch" ∷ []) ∷ [];
}

abbrev circle : Pipeline
circle = add_node (add_node empty_pipeline (stage "a" ("b" ∷ []))) (stage "b" ("a" ∷ []))

fetch_and_build-IsKeyed : IsKeyed fetch_and_build.nodes
unfolding lookup
fetch_and_build-IsKeyed =
    add_node-IsKeyed (add_node empty_pipeline (stage "build" ("fetch" ∷ []))) (stage "fetch" []) (
      add_node-IsKeyed empty_pipeline (stage "build" ("fetch" ∷ []))
        (λ k n e. absurd (ground arith)))

fetch_and_build-built : build_graph fetch_and_build ≡ built fetched
unfolding build_graph visit_graph visit visit_all lookup insert add_node
fetch_and_build-built = refl

circle-refused : build_graph circle ≡ refused (cyclic "a")
unfolding build_graph visit_graph visit visit_all lookup insert add_node
circle-refused = refl

build_graph-IsOrder_example : IsOrder fetch_and_build fetched
unfolding add_node
build_graph-IsOrder_example =
    build_graph-IsOrder fetch_and_build fetched fetch_and_build-IsKeyed refl fetch_and_build-built

build_graph-ends_example : build_graph circle ≢ refused out_of_fuel
build_graph-ends_example = build_graph-ends circle

build_graph-Explains_example : Explains circle.nodes (cyclic "a")
build_graph-Explains_example = build_graph-Explains circle (cyclic "a") circle-refused

pipeline-IsOrder_example :
    (q : Pipeline) × (build_graph (pipeline ⦃env = host⦄) ≡ built q)
    × (q.execution_order ≡ stages ⦃env = host⦄)
    × IsOrder (pipeline ⦃env = host⦄) q
pipeline-IsOrder_example = pipeline-IsOrder ⦃env = host⦄
