-- ===== src/Graph/Order.antt =====
-- The order that `build_graph` gives: every stage once, behind the stages that it waits for.
use pronze.Prelude.{
  ℕ, zero, suc, String, ◌≡◌, refl, true, false, Option, none, some, List, [], ◌∷◌, ◌++◌, string_eq,
  inl, inr, arith, eq_iff, eq_refl, contains, All, Bool-cases,
}
use pronze.Prelude.Dict.{Dict, lookup, lookup-insert}
use pronze.Graph.{
  PipelineNode, Pipeline, add_node, Visit, Visiting, done, stopped, then_visit, finish, visit_all,
  enter, visit, keys, visit_graph, start_visit, enough_fuel, built, build_graph,
}

-- The names of an order, latest first.
abbrev pub names_of : List String → List PipelineNode → List String
names_of acc [] = acc
names_of acc (n ∷ ns) = names_of (n.name ∷ acc) ns

-- Each stage's dependencies are among `before` and the stages ahead of it.
abbrev pub IsTopological : List String → List PipelineNode → Type 0
IsTopological before [] = Unit
IsTopological before (n ∷ ns) =
    All (λ d. contains d before ≡ true) n.dependencies × IsTopological (n.name ∷ before) ns

abbrev pub IsDistinct : List String → Type 0
IsDistinct [] = Unit
IsDistinct (x ∷ xs) = (contains x xs ≡ false) × IsDistinct xs

-- Each entry of the table stands under its node's name, as `add_node` puts it.
abbrev pub IsKeyed : Dict String PipelineNode → Type 0
IsKeyed nodes = (k : String) (n : PipelineNode) → lookup k nodes ≡ some n → n.name ≡ k

pub record IsSound (v : Visit) : Type 0 where
  pub names : v.visited ≡ names_of [] v.order
  pub topological : IsTopological [] v.order
  pub distinct : IsDistinct v.visited

-- What a call does to the finished names: it forgets none, and adds none of those on the chain.
pub record Extends (temp : List String) (v v' : Visit) : Type 0 where
  pub grows : (x : String) → contains x v.visited ≡ true → contains x v'.visited ≡ true
  pub same : (x : String) → contains x temp ≡ true → contains x v'.visited ≡ contains x v.visited

abbrev pub Visits : List String → List String → Visit → Visiting → Type 0
Visits temp ds v (done v') =
    IsSound v' × Extends temp v v' × All (λ d. contains d v'.visited ≡ true) ds
Visits temp ds v (stopped e) = Unit

names_of-append :
    (acc : List String) (ns : List PipelineNode) (n : PipelineNode)
    → names_of acc (ns ++ (n ∷ [])) ≡ n.name ∷ names_of acc ns
names_of-append acc [] n = refl
names_of-append acc (m ∷ ns) n = names_of-append (m.name ∷ acc) ns n

IsTopological-append :
    (acc : List String) (ns : List PipelineNode) (n : PipelineNode)
    → IsTopological acc ns
    → All (λ d. contains d (names_of acc ns) ≡ true) n.dependencies
    → IsTopological acc (ns ++ (n ∷ []))
IsTopological-append acc [] n h a = (a, tt)
IsTopological-append acc (m ∷ ns) n h a = (h.0, IsTopological-append (m.name ∷ acc) ns n h.1 a)

All-grows :
    (ds : List String) (v v' : Visit)
    → ((x : String) → contains x v.visited ≡ true → contains x v'.visited ≡ true)
    → All (λ d. contains d v.visited ≡ true) ds
    → All (λ d. contains d v'.visited ≡ true) ds
All-grows [] v v' g a = tt
All-grows (d ∷ ds) v v' g a = (g d a.0, All-grows ds v v' g a.1)

Extends-refl : (temp : List String) (v : Visit) → Extends temp v v
Extends-refl temp v = record { grows = λ x h. h; same = λ x h. refl }

Extends-trans :
    (temp : List String) (u v w : Visit) → Extends temp u v → Extends temp v w → Extends temp u w
Extends-trans temp u v w a b = record {
  grows = λ x h. b.grows x (a.grows x h);
  same = λ x h. rw (b.same x h) (a.same x h);
}

module _ (temp : List String) (f : String → Visit → Visiting)
    (step : (d : String) (v : Visit) → IsSound v → Visits temp (d ∷ []) v (f d v)) where
  combine :
      (d : String) (ds : List String) (v u : Visit) (r : Visiting)
      → Visits temp (d ∷ []) v (done u)
      → Visits temp ds u r
      → Visits temp (d ∷ ds) v r
  combine d ds v u (stopped e) a b = tt
  combine d ds v u (done w) a b = (b.0, Extends-trans temp v u w a.1 b.1, (b.1.grows d a.2.0, b.2))

  after :
      (d : String) (ds : List String) (v : Visit) (r : Visiting)
      → ((u : Visit) → IsSound u → Visits temp ds u (visit_all f ds u))
      → Visits temp (d ∷ []) v r
      → Visits temp (d ∷ ds) v (then_visit r (visit_all f ds))
  after d ds v (stopped e) rest a = tt
  after d ds v (done u) rest a = combine d ds v u (visit_all f ds u) a (rest u a.0)

  visit_all-Visits :
      (ds : List String) (v : Visit) → IsSound v → Visits temp ds v (visit_all f ds v)
  unfolding visit_all
  visit_all-Visits [] v h = (h, Extends-refl temp v, tt)
  visit_all-Visits (d ∷ ds) v h = after d ds v (f d v) (visit_all-Visits ds) (step d v h)

module _ (temp : List String) (name : String) (n : PipelineNode) (keyed : n.name ≡ name) where
  -- the node is put behind its dependencies
  finish-Visits :
      (v u : Visit)
      → contains name temp ≡ false
      → contains name v.visited ≡ false
      → IsSound u
      → Extends (name ∷ temp) v u
      → All (λ d. contains d u.visited ≡ true) n.dependencies
      → Visits temp (name ∷ []) v (finish n name u)
  finish-Visits v u fresh new s e a =
      let unvisited : contains name u.visited ≡ false =
        rw (e.same name (ground (arith, eq_refl name))) new in
      (
        record {
          names = rw (names_of-append [] u.order n, keyed, s.names);
          topological = IsTopological-append [] u.order n s.topological (rw (← s.names) a);
          distinct = (unvisited, s.distinct);
        },
        record {
          grows = λ x h. ground (arith, e.grows x h);
          same = λ x h. ground (arith, e.same x, eq_iff x name, eq_iff name x);
        },
        ground (arith, eq_refl name),
      )

module _ (nodes : Dict String PipelineNode) (keyed : IsKeyed nodes) where
  enter-Visits :
      (f : List String → String → Visit → Visiting)
      → ((temp : List String) (d : String) (v : Visit)
          → IsSound v
          → Visits temp (d ∷ []) v (f temp d v))
      → (temp : List String) (name : String) (v : Visit) → contains name temp ≡ false
      → contains name v.visited ≡ false
      → IsSound v
      → (o : Option PipelineNode) → lookup name nodes ≡ o
      → Visits temp (name ∷ []) v (enter f o temp name v)
  enter-Visits f step temp name v fresh new s none e = tt
  enter-Visits f step temp name v fresh new s (some n) e =
      close (visit_all (f (name ∷ temp)) n.dependencies v)
        (visit_all-Visits (name ∷ temp) (f (name ∷ temp)) (step (name ∷ temp)) n.dependencies v s)
    where
      close :
          (r : Visiting)
          → Visits (name ∷ temp) n.dependencies v r
          → Visits temp (name ∷ []) v (then_visit r (finish n name))
      close (stopped x) h = tt
      close (done u) h = finish-Visits temp name n (keyed name n e) v u fresh new h.0 h.1 h.2

  visit-Visits :
      (fuel : ℕ) (temp : List String) (name : String) (v : Visit)
      → IsSound v
      → Visits temp (name ∷ []) v (visit fuel nodes temp name v)
  unfolding visit
  visit-Visits zero temp name v s = tt
  visit-Visits (suc fuel) temp name v s = elim (Bool-cases (contains name temp)) [
    | inl chained ↦ rw chained tt
    | inr fresh ↦ rw fresh (elim (Bool-cases (contains name v.visited)) [
      | inl old ↦ rw old (s, Extends-refl temp v, (old, tt))
      | inr new ↦ rw new (
          enter-Visits (visit fuel nodes) (visit-Visits fuel) temp name v fresh new s
            (lookup name nodes) refl)
    ])
  ]

IsSound-start : IsSound (start_visit [])
IsSound-start = record { names = refl; topological = tt; distinct = tt }

abbrev Finished : Pipeline → Visiting → Type 0
Finished p (done v) = IsSound v × All (λ k. contains k v.visited ≡ true) (keys p.nodes)
Finished p (stopped e) = Unit

abbrev pub names : Pipeline → List String
names p = names_of [] p.execution_order

visit_graph-Finished :
    (p : Pipeline) → IsKeyed p.nodes → p.execution_order ≡ [] → Finished p (visit_graph p)
unfolding visit_graph
visit_graph-Finished p keyed empty = rw empty (
    weaken (visit_all (visit (enough_fuel p) p.nodes []) (keys p.nodes) (start_visit [])) (
      visit_all-Visits [] (visit (enough_fuel p) p.nodes [])
        (visit-Visits p.nodes keyed (enough_fuel p) []) (keys p.nodes) (start_visit [])
        IsSound-start))
  where
    weaken : (r : Visiting) → Visits [] (keys p.nodes) (start_visit []) r → Finished p r
    weaken (done v) h = (h.0, h.2)
    weaken (stopped e) h = tt

-- What `build_graph` promises of the order that it builds.
pub record IsOrder (p q : Pipeline) : Type 0 where
  pub topological : IsTopological [] q.execution_order
  pub distinct : IsDistinct (names q)
  pub complete : All (λ k. contains k (names q) ≡ true) (keys p.nodes)
  pub nodes : q.nodes ≡ p.nodes

-- A table that was not built before and is built without an error gets an order in which every
-- registered stage stands, none stands twice, and each stands behind the stages that it waits for.
pub build_graph-IsOrder :
    (p q : Pipeline)
    → IsKeyed p.nodes
    → p.execution_order ≡ []
    → build_graph p ≡ built q
    → IsOrder p q
unfolding build_graph
build_graph-IsOrder p q keyed empty e =
    conclude (visit_graph p) refl (visit_graph-Finished p keyed empty)
  where
    conclude : (r : Visiting) → visit_graph p ≡ r → Finished p r → IsOrder p q
    conclude (done v) x h =
        let same : q ≡ record p { execution_order = v.order } = ground (arith, x) in
        rw same (record {
          topological = h.0.topological;
          distinct = rw (← h.0.names) h.0.distinct;
          complete = rw (← h.0.names) h.1;
          nodes = refl;
        })
    conclude (stopped s) x h = absurd (ground (arith, x))

-- Every stage that `add_node` registers stands under its own name.
pub add_node-IsKeyed :
    (p : Pipeline) (n : PipelineNode) → IsKeyed p.nodes → IsKeyed (add_node p n).nodes
unfolding add_node
add_node-IsKeyed p n h k m e =
    ground (arith, lookup-insert n.name k n p.nodes, eq_iff n.name k, h k m)
