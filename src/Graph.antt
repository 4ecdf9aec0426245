-- ===== src/Graph.antt =====
-- `PipelineNode`, `Pipeline.add_node` and `Pipeline.build_graph` of build-pipeline/common.py.
pub mod Order
pub mod Fuel
pub mod Errors
use pronze.Prelude.{
  ℕ, zero, suc, String, Bool, true, false, Option, none, some, List, [], ◌∷◌, ◌++◌, map, ◌==◌,
  string_eq, if◌then◌else◌, contains, length, remove_first,
}
use pronze.Prelude.Dict.{Dict, lookup, insert}
use pronze.Action.{⊤, Action}

-- A stage: its name, the names of the stages that it waits for, and its `run`.
pub record PipelineNode : Type 0 where
  pub name : String
  pub dependencies : List String
  pub run : Action ⊤

pub record Pipeline : Type 0 where
  pub nodes : Dict String PipelineNode
  pub execution_order : List PipelineNode

abbrev pub empty_pipeline : Pipeline
empty_pipeline = record { nodes = []; execution_order = [] }

unfoldable pub add_node : Pipeline → PipelineNode → Pipeline
add_node p node = record p { nodes = insert node.name node p.nodes }

pub data GraphError : Type 0 where
  cyclic not_found : String → GraphError
  out_of_fuel : GraphError

-- What `visit` shares: the finished names and the order so far. `temp_visited` is the chain of calls.
pub record Visit : Type 0 where
  pub visited : List String
  pub order : List PipelineNode

pub data Visiting : Type 0 where
  done : Visit → Visiting
  stopped : GraphError → Visiting

abbrev pub then_visit : Visiting → (Visit → Visiting) → Visiting
then_visit (done v) f = f v
then_visit (stopped e) f = stopped e

abbrev pub finish : PipelineNode → String → Visit → Visiting
finish node node_name v =
    done (record { visited = node_name ∷ v.visited; order = v.order ++ (node ∷ []) })

unfoldable pub visit_all : (String → Visit → Visiting) → List String → Visit → Visiting
visit_all f [] v = done v
visit_all f (d ∷ ds) v = then_visit (f d v) (visit_all f ds)

-- A call of `visit(node_name)`, by what the table holds under that name.
abbrev pub enter :
    (List String → String → Visit → Visiting)
    → Option PipelineNode
    → List String
    → String
    → Visit
    → Visiting
enter f none temp node_name v = stopped (not_found node_name)
enter f (some node) temp node_name v =
    then_visit (visit_all (f (node_name ∷ temp)) node.dependencies v) (finish node node_name)

unfoldable pub visit : ℕ → Dict String PipelineNode → List String → String → Visit → Visiting
visit zero nodes temp node_name v = stopped out_of_fuel
visit (suc fuel) nodes temp node_name v =
    if contains node_name temp
    then stopped (cyclic node_name)
    else if contains node_name v.visited
    then done v
    else enter (visit fuel nodes) (lookup node_name nodes) temp node_name v

abbrev pub keys : Dict String PipelineNode → List String
keys [] = []
keys ((k, _) ∷ d) = k ∷ keys d

abbrev pub start_visit : List PipelineNode → Visit
start_visit order = record { visited = []; order = order }

-- No chain of calls is longer than the table: one call more than it has names.
abbrev pub enough_fuel : Pipeline → ℕ
enough_fuel p = suc (suc (length p.nodes))

unfoldable pub visit_graph : Pipeline → Visiting
visit_graph p =
    visit_all (visit (enough_fuel p) p.nodes []) (keys p.nodes) (start_visit p.execution_order)

pub data Built : Type 0 where
  built : Pipeline → Built
  refused : GraphError → Built

-- `build_graph`
unfoldable pub build_graph : Pipeline → Built
build_graph p = elim (visit_graph p) [
  | done v ↦ built (record p { execution_order = v.order })
  | stopped e ↦ refused e
]
