-- ===== src/Graph/Errors.antt =====
-- What the errors of `build_graph` tell of the table.
use pronze.Prelude.{
  ℕ, zero, suc, String, ◌≡◌, refl, true, Option, none, some, List, [], ◌∷◌, ◌==◌, string_eq, inl,
  inr, arith, eq_iff, eq_refl, contains, All, Bool-cases,
}
use pronze.Prelude.Dict.{Dict, lookup}
use pronze.Graph.{
  PipelineNode, Pipeline, Visit, Visiting, done, stopped, cyclic, not_found, out_of_fuel,
  GraphError, then_visit, finish, visit_all, enter, visit, keys, visit_graph, start_visit,
  enough_fuel, refused, build_graph,
}

-- `a` waits for `b`, directly or through other stages.
pub data WaitsFor (nodes : Dict String PipelineNode) : String → String → Type 0 where
  direct :
      {a b : String} (n : PipelineNode)
      → lookup a nodes ≡ some n
      → contains b n.dependencies ≡ true
      → WaitsFor nodes a b
  through :
      {a b c : String} (n : PipelineNode)
      → WaitsFor nodes a b
      → lookup b nodes ≡ some n
      → contains c n.dependencies ≡ true
      → WaitsFor nodes a c

-- What an error means.
abbrev pub Explains : Dict String PipelineNode → GraphError → Type 0
Explains nodes (cyclic x) = WaitsFor nodes x x
Explains nodes (not_found x) = lookup x nodes ≡ none
Explains nodes out_of_fuel = Unit

abbrev Explained : Dict String PipelineNode → Visiting → Type 0
Explained nodes (done v) = Unit
Explained nodes (stopped e) = Explains nodes e

module _ (nodes : Dict String PipelineNode) where
  Explained-then :
      (f : Visit → Visiting) (r : Visiting)
      → ((v : Visit) → Explained nodes (f v))
      → Explained nodes r
      → Explained nodes (then_visit r f)
  Explained-then f (done v) h e = h v
  Explained-then f (stopped x) h e = e

  Explained-visit_all :
      (f : String → Visit → Visiting) (ds : List String)
      → ((d : String) (v : Visit) → contains d ds ≡ true → Explained nodes (f d v))
      → (v : Visit) → Explained nodes (visit_all f ds v)
  unfolding visit_all
  Explained-visit_all f [] h v = tt
  Explained-visit_all f (d ∷ ds) h v =
      Explained-then (visit_all f ds) (f d v)
        (Explained-visit_all f ds (λ x u e. h x u (ground arith)))
        (h d v (ground (arith, eq_refl d)))

  WaitsFor-of_chain :
      (temp : List String) (name : String)
      → All (λ t. WaitsFor nodes t name) temp
      → contains name temp ≡ true
      → WaitsFor nodes name name
  WaitsFor-of_chain [] name a e = absurd (ground arith)
  WaitsFor-of_chain (t ∷ temp) name a e = elim (Bool-cases (name == t)) [
    | inl same ↦ rw ((eq_iff name t).0 same) (rw ((eq_iff name t).0 same) at a.0)
    | inr other ↦ WaitsFor-of_chain temp name a.1 (ground arith)
  ]

  extend_chain :
      (temp : List String) (name d : String) (n : PipelineNode)
      → lookup name nodes ≡ some n
      → contains d n.dependencies ≡ true
      → All (λ t. WaitsFor nodes t name) temp
      → All (λ t. WaitsFor nodes t d) temp
  extend_chain [] name d n e c a = tt
  extend_chain (t ∷ temp) name d n e c a = (through n a.0 e c, extend_chain temp name d n e c a.1)

  Explained-enter :
      (f : List String → String → Visit → Visiting)
      → ((temp : List String) (d : String) (v : Visit)
          → All (λ t. WaitsFor nodes t d) temp
          → Explained nodes (f temp d v))
      → (temp : List String) (name : String) (v : Visit) → All (λ t. WaitsFor nodes t name) temp
      → (o : Option PipelineNode) → lookup name nodes ≡ o
      → Explained nodes (enter f o temp name v)
  Explained-enter f step temp name v a none e = e
  Explained-enter f step temp name v a (some n) e =
      Explained-then (finish n name) (visit_all (f (name ∷ temp)) n.dependencies v) (λ u. tt)
        (Explained-visit_all (f (name ∷ temp)) n.dependencies
          (λ d u c. step (name ∷ temp) d u (direct n e c, extend_chain temp name d n e c a)) v)

  Explained-visit :
      (fuel : ℕ) (temp : List String) (name : String) (v : Visit)
      → All (λ t. WaitsFor nodes t name) temp
      → Explained nodes (visit fuel nodes temp name v)
  unfolding visit
  Explained-visit zero temp name v a = tt
  Explained-visit (suc fuel) temp name v a = elim (Bool-cases (contains name temp)) [
    | inl chained ↦ rw chained (WaitsFor-of_chain temp name a chained)
    | inr fresh ↦ rw fresh (elim (Bool-cases (contains name v.visited)) [
      | inl old ↦ rw old tt
      | inr new ↦ rw new (
          Explained-enter (visit fuel nodes) (Explained-visit fuel) temp name v a
            (lookup name nodes) refl)
    ])
  ]

-- Where `build_graph` reports a cycle at a stage, that stage waits for itself through the
-- dependencies; where it reports a missing stage, none is registered under that name.
pub build_graph-Explains :
    (p : Pipeline) (e : GraphError) → build_graph p ≡ refused e → Explains p.nodes e
unfolding build_graph visit_graph
build_graph-Explains p e h = conclude (visit_graph p) refl (
    Explained-visit_all p.nodes (visit (enough_fuel p) p.nodes []) (keys p.nodes)
      (λ d v c. Explained-visit p.nodes (enough_fuel p) [] d v tt) (start_visit p.execution_order))
  where
    conclude : (r : Visiting) → visit_graph p ≡ r → Explained p.nodes r → Explains p.nodes e
    conclude (done v) x a = absurd (ground (arith, x))
    conclude (stopped y) x a = let same : y ≡ e = ground (arith, x) in rw same at a
