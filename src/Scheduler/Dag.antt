-- ===== src/Scheduler/Dag.antt =====
-- orchestrator/src/engine/mod.rs: `validate` and `topological_order` of a `Scheduler`.
use boruna.Prelude.{ℕ, String, List, [], ◌∷◌, Result, ok, err, length, ◌==◌, if◌then◌else◌}
use boruna.Kahn.Loop.{link, Degrees, Dependents, insert_zero, kahn}
use boruna.Scheduler.Graph.{WorkNode, Scheduler}

-- `*in_degree.entry(dep).or_insert(0) += 0` for each dependency
unfoldable pub zero_all : List String → Degrees → Degrees
zero_all [] deg = deg
zero_all (id ∷ rest) deg = zero_all rest (insert_zero id deg)

-- the first loop of `validate`
unfoldable pub zero_nodes : List WorkNode → Degrees → Degrees
zero_nodes [] deg = deg
zero_nodes (n ∷ rest) deg = zero_nodes rest (zero_all n.dependencies (insert_zero n.id deg))

-- the second loop of `validate`
unfoldable pub link_nodes : List WorkNode → Dependents → Degrees → Dependents × Degrees
link_nodes [] ds deg = (ds, deg)
link_nodes (n ∷ rest) ds deg =
    let (ds', deg') = link n.id n.dependencies ds deg in link_nodes rest ds' deg'

-- the loop of `topological_order`
unfoldable pub enter_nodes : List WorkNode → Dependents → Degrees → Dependents × Degrees
enter_nodes [] ds deg = (ds, deg)
enter_nodes (n ∷ rest) ds deg =
    let (ds', deg') = link n.id n.dependencies ds (insert_zero n.id deg) in
    enter_nodes rest ds' deg'

-- The error has the numbers of visited and of all nodes.
unfoldable pub visited : ℕ → ℕ → Result (Unit {0}) (ℕ × ℕ)
visited n total = if n == total then ok tt else err (n, total)

unfoldable pub validate : Scheduler → Result (Unit {0}) (ℕ × ℕ)
validate s =
    let (ds, deg) = link_nodes s.graph.nodes [] (zero_nodes s.graph.nodes []) in
    visited (length (kahn ds deg)) (length s.graph.nodes)

unfoldable pub ordered : List String → ℕ → Result (List String) String
ordered order total = if length order == total then ok order else err "cycle detected"

unfoldable pub topological_order : Scheduler → Result (List String) String
topological_order s =
    let (ds, deg) = enter_nodes s.graph.nodes [] [] in ordered (kahn ds deg) (length s.graph.nodes)
