-- ===== src/Kahn/Loop.antt =====
-- The loop of Kahn's algorithm in orchestrator/src/workflow/validator.rs (`topological_order`) and
-- orchestrator/src/engine/mod.rs (`validate`, `topological_order`).
use boruna.Prelude.{
  ℕ, zero, suc, ◌-◌, String, List, [], ◌∷◌, none, some, push, ◌==◌, if◌then◌else◌, unwrap_or, keep,
  map, length,
}
use boruna.Prelude.BTreeMap
use boruna.Prelude.BTreeMap.{BTreeMap}

-- a directed edge, from a node to one that depends on it
abbrev pub Edge : Type 0
Edge = String × String

abbrev pub Degrees : Type 0
Degrees = BTreeMap ℕ

abbrev pub Dependents : Type 0
Dependents = BTreeMap (List String)

-- `in_degree.entry(id).or_insert(0)`
unfoldable pub insert_zero : String → Degrees → Degrees
insert_zero id deg = elim (BTreeMap.get id deg) [ none ↦ BTreeMap.insert id 0 deg | some _ ↦ deg ]

-- `*in_degree.entry(id).or_insert(0) += 1`
unfoldable pub increment : String → Degrees → Degrees
increment id deg = BTreeMap.insert id (suc (unwrap_or 0 (BTreeMap.get id deg))) deg

-- `dependents.entry(from).or_default().push(to)`
unfoldable pub add_dependent : String → String → Dependents → Dependents
add_dependent from to ds = BTreeMap.insert from (push (unwrap_or [] (BTreeMap.get from ds)) to) ds

-- the loop over the dependencies of a node in orchestrator/src/engine/mod.rs
unfoldable pub link : String → List String → Dependents → Degrees → Dependents × Degrees
link id [] ds deg = (ds, deg)
link id (dep ∷ rest) ds deg = link id rest (add_dependent dep id ds) (increment id deg)

-- the nodes with no incoming edge, in the order of the map
unfoldable pub zero_degree : Degrees → List String
zero_degree deg = map (λ e. e.0) (keep (λ e. e.1 == 0) deg)

-- The inner loop, over the dependents of a node. A degree that is decremented is never 0, so `-` is
-- the `-= 1` of the code.
unfoldable pub relax : List String → Degrees → List String → Degrees × List String
relax [] deg queue = (deg, queue)
relax (dep ∷ rest) deg queue = elim (BTreeMap.get dep deg) [
  | none ↦ relax rest deg queue
  | some d ↦
      relax rest (BTreeMap.insert dep (d - 1) deg) (if d - 1 == 0 then push queue dep else queue)
]

-- the outer loop, on fuel
unfoldable pub drain : ℕ → Dependents → Degrees → List String → List String → List String
drain zero ds deg queue order = order
drain (suc k) ds deg [] order = order
drain (suc k) ds deg (id ∷ queue) order =
    let (deg', queue') = relax (unwrap_or [] (BTreeMap.get id ds)) deg queue in
    drain k ds deg' queue' (push order id)

-- The loop from its start. Every node is taken from the queue at most once.
unfoldable pub kahn : Dependents → Degrees → List String
unfolding zero_degree drain
kahn ds deg = drain (suc (length deg)) ds deg (zero_degree deg) []
