-- ===== src/Graph/Fuel.antt =====
-- The recursion of `visit` ends: the fuel that `build_graph` gives it is enough for every table.
use pronze.Prelude.{
  ℕ, zero, suc, ◌+◌, ◌≤◌, ◌<◌, String, ◌≡◌, ◌≢◌, refl, true, false, Option, none, some, List, [],
  ◌∷◌, string_eq, inl, inr, arith, eq_iff, contains, length, Bool-cases, if◌then◌else◌,
}
use pronze.Prelude.Dict.{Dict, lookup}
use pronze.Graph.{
  PipelineNode, Pipeline, Visit, Visiting, done, stopped, cyclic, not_found, out_of_fuel,
  then_visit, finish, visit_all, enter, visit, keys, visit_graph, start_visit, enough_fuel, refused,
  build_graph,
}

-- How many of some names are not on the chain of calls.
abbrev free : List String → List String → ℕ
free temp [] = 0
free temp (k ∷ ks) = (if contains k temp then 0 else 1) + free temp ks

free-le-length : (temp ks : List String) → free temp ks ≤ length ks
free-le-length temp [] = omega arith
free-le-length temp (k ∷ ks) = ground (arith, free-le-length temp ks)

free-cons-le : (name : String) (temp ks : List String) → free (name ∷ temp) ks ≤ free temp ks
free-cons-le name temp [] = omega arith
free-cons-le name temp (k ∷ ks) = ground (arith, free-cons-le name temp ks)

-- One more name on the chain leaves fewer free.
free-cons-lt :
    (name : String) (temp ks : List String)
    → contains name temp ≡ false
    → contains name ks ≡ true
    → free (name ∷ temp) ks < free temp ks
free-cons-lt name temp [] fresh h = absurd (ground arith)
free-cons-lt name temp (k ∷ ks) fresh h =
    ground
      (arith, free-cons-le name temp ks, free-cons-lt name temp ks, eq_iff name k, eq_iff k name)

contains-keys :
    (name : String) (nodes : Dict String PipelineNode) (n : PipelineNode)
    → lookup name nodes ≡ some n
    → contains name (keys nodes) ≡ true
unfolding lookup
contains-keys name [] n e = absurd (ground arith)
contains-keys name ((k, m) ∷ nodes) n e =
    ground (arith, contains-keys name nodes n, eq_iff name k, eq_iff k name)

length-keys : (nodes : Dict String PipelineNode) → length (keys nodes) ≡ length nodes
length-keys [] = refl
length-keys ((k, m) ∷ nodes) = omega (arith, length-keys nodes)

-- The call did not end for want of fuel.
abbrev Ended : Visiting → Type 0
Ended (done v) = Unit
Ended (stopped (cyclic x)) = Unit
Ended (stopped (not_found x)) = Unit
Ended (stopped out_of_fuel) = ⊥

Ended-then :
    (f : Visit → Visiting) (r : Visiting)
    → ((v : Visit) → Ended (f v))
    → Ended r
    → Ended (then_visit r f)
Ended-then f (done v) h e = h v
Ended-then f (stopped (cyclic x)) h e = tt
Ended-then f (stopped (not_found x)) h e = tt
Ended-then f (stopped out_of_fuel) h e = e

Ended-visit_all :
    (f : String → Visit → Visiting)
    → ((d : String) (v : Visit) → Ended (f d v))
    → (ds : List String) (v : Visit) → Ended (visit_all f ds v)
unfolding visit_all
Ended-visit_all f h [] v = tt
Ended-visit_all f h (d ∷ ds) v =
    Ended-then (visit_all f ds) (f d v) (Ended-visit_all f h ds) (h d v)

module _ (nodes : Dict String PipelineNode) where
  Ended-enter :
      (fuel : ℕ)
      → ((temp : List String) (d : String) (v : Visit)
          → free temp (keys nodes) < fuel
          → Ended (visit fuel nodes temp d v))
      → (temp : List String) (name : String) (v : Visit) → free temp (keys nodes) < suc fuel
      → contains name temp ≡ false
      → (o : Option PipelineNode) → lookup name nodes ≡ o
      → Ended (enter (visit fuel nodes) o temp name v)
  Ended-enter fuel step temp name v room fresh none e = tt
  Ended-enter fuel step temp name v room fresh (some n) e =
      let less = free-cons-lt name temp (keys nodes) fresh (contains-keys name nodes n e) in
      Ended-then (finish n name) (visit_all (visit fuel nodes (name ∷ temp)) n.dependencies v)
        (λ u. tt)
        (Ended-visit_all (visit fuel nodes (name ∷ temp))
          (λ d u. step (name ∷ temp) d u (omega arith)) n.dependencies v)

  Ended-visit :
      (fuel : ℕ) (temp : List String) (name : String) (v : Visit)
      → free temp (keys nodes) < fuel
      → Ended (visit fuel nodes temp name v)
  unfolding visit
  Ended-visit zero temp name v room = absurd (omega arith)
  Ended-visit (suc fuel) temp name v room = elim (Bool-cases (contains name temp)) [
    | inl chained ↦ rw chained tt
    | inr fresh ↦ rw fresh (elim (Bool-cases (contains name v.visited)) [
      | inl old ↦ rw old tt
      | inr new ↦
          rw new
            (Ended-enter fuel (Ended-visit fuel) temp name v room fresh (lookup name nodes) refl)
    ])
  ]

visit_graph-Ended : (p : Pipeline) → Ended (visit_graph p)
unfolding visit_graph
visit_graph-Ended p =
    Ended-visit_all (visit (enough_fuel p) p.nodes [])
      (λ d v.
        Ended-visit p.nodes (enough_fuel p) [] d v
          (omega (arith, free-le-length [] (keys p.nodes), length-keys p.nodes)))
      (keys p.nodes) (start_visit p.execution_order)

-- Whatever the table, `build_graph` ends with an order or with an error of the table.
pub build_graph-ends : (p : Pipeline) → build_graph p ≢ refused out_of_fuel
unfolding build_graph
build_graph-ends p e = conclude (visit_graph p) refl (visit_graph-Ended p)
  where
    conclude : (r : Visiting) → visit_graph p ≡ r → Ended r → ⊥
    conclude (done v) x h = ground (arith, x)
    conclude (stopped (cyclic y)) x h = ground (arith, x)
    conclude (stopped (not_found y)) x h = ground (arith, x)
    conclude (stopped out_of_fuel) x h = h
