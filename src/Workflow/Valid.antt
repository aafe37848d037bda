-- ===== src/Workflow/Valid.antt =====
-- orchestrator/src/workflow/validator.rs: what a definition that validates is known to satisfy.
use boruna.Prelude.{
  ◌≡◌, refl, String, Bool, true, false, List, [], ◌∷◌, ◌++◌, ok, arith, eq_iff, Result-cases, inl,
  inr,
}
use boruna.Prelude.BTreeMap.{BTreeMap, contains_key}
use boruna.Prelude.BTreeSet.{contains}
use boruna.Kahn.Loop.{Edge}
use boruna.Kahn.Sound.{is_none-get}
use boruna.Kahn.Complete.{IsOrder}
use boruna.Workflow.Definition.{StepDef, WorkflowDef}
use boruna.Workflow.Edges.{
  AllEdges, AllEdges-insert_edge, AllEdges-insert_edges, insert_edge, insert_edges, insert_deps,
  insert_steps, all_edges,
}
use boruna.Workflow.Validator.{
  Problem, unless, edge_problems, depends_on_problems, dependency_problems, step_input_problems,
  source_problems, duplicate_problems, field_problems, check_acyclic, problems, validate,
  verdict_of, topological_order, cycle,
}
use boruna.Workflow.Degrees.{step_ids}
use boruna.Workflow.Order.{JoinsSteps, topological_order-IsOrder}

append_empty : (ps qs : List Problem) → ps ++ qs ≡ [] → (ps ≡ []) × (qs ≡ [])
append_empty [] qs h = (refl, h)
append_empty (p ∷ ps) qs h = cc

unless_empty : (b : Bool) (p : Problem) → unless b p ≡ [] → b ≡ true
unless_empty true p h = refl
unless_empty false p h = cc

module _ (steps : BTreeMap StepDef) where
  abbrev Joins : Edge → Type 0
  Joins e = (contains e.0 (step_ids steps) ≡ true) × (contains e.1 (step_ids steps) ≡ true)

  known_key :
      (v : String) (p : Problem)
      → unless (contains_key v steps) p ≡ []
      → contains v (step_ids steps) ≡ true
  known_key v p h = ground (arith, unless_empty (contains_key v steps) p h, is_none-get v steps)

  edges_known : (es : List Edge) → edge_problems steps es ≡ [] → AllEdges Joins es
  unfolding edge_problems
  edges_known [] h = tt
  edges_known ((from, to) ∷ es) h =
      let (a, h') = append_empty _ _ h in
      let (b, rest) = append_empty _ _ h' in
      ((known_key from _ a, known_key to _ b), edges_known es rest)

  deps_known :
      (id : String) (deps : List String) (s : List Edge)
      → contains id (step_ids steps) ≡ true
      → depends_on_problems steps id deps ≡ []
      → AllEdges Joins s
      → AllEdges Joins (insert_deps id deps s)
  unfolding depends_on_problems insert_deps
  deps_known id [] s k h a = a
  deps_known id (dep ∷ deps) s k h a =
      let (b, rest) = append_empty _ _ h in
      deps_known id deps (insert_edge (dep, id) s) k rest
        (AllEdges-insert_edge Joins (dep, id) s (known_key dep _ b, k) a)

  steps_known :
      (rest : BTreeMap StepDef) (s : List Edge)
      → ((v : String) → contains v (step_ids rest) ≡ true → contains v (step_ids steps) ≡ true)
      → dependency_problems steps rest ≡ []
      → AllEdges Joins s
      → AllEdges Joins (insert_steps rest s)
  unfolding dependency_problems insert_steps contains
  steps_known [] s k h a = a
  steps_known ((id, step) ∷ rest) s k h a =
      let (b, more) = append_empty _ _ h in
      steps_known rest (insert_deps id step.depends_on s) (λ v m. k v (ground (arith, m))) more
        (deps_known id step.depends_on s (k id (ground (arith, eq_iff id id))) b a)

  Joins-JoinsSteps : (es : List Edge) → AllEdges Joins es → JoinsSteps steps es
  Joins-JoinsSteps [] a = tt
  Joins-JoinsSteps (e ∷ es) a = (a.0, Joins-JoinsSteps es a.1)

no_problems : (ps : List Problem) → verdict_of ps ≡ ok tt → ps ≡ []
no_problems [] h = refl
no_problems (p ∷ ps) h = cc

acyclic_order :
    (def : WorkflowDef)
    → check_acyclic def ≡ []
    → (order : List String) × (topological_order def ≡ ok order)
unfolding check_acyclic
acyclic_order def h = elim (Result-cases (topological_order def)) [
  | inl found ↦ found
  | inr (e, failed) ↦
      let reported : check_acyclic def ≡ cycle e.0 e.1 ∷ [] = rw (failed, check_acyclic) refl in cc
]

-- A definition that validates has edges between its steps only, and an order of its steps is returned,
-- with every step once and after the steps that it depends on.
pub validate-IsOrder :
    (def : WorkflowDef)
    → validate def ≡ ok tt
    → JoinsSteps def.steps (all_edges def)
      × (order : List String) × (topological_order def ≡ ok order)
      × IsOrder (step_ids def.steps) (all_edges def) order
unfolding validate problems all_edges
validate-IsOrder def h =
    let (_, h1) = append_empty (field_problems def) _ (no_problems (problems def) h) in
    let (ends, h2) = append_empty (edge_problems def.steps def.edges) _ h1 in
    let (deps, h3) = append_empty (dependency_problems def.steps def.steps) _ h2 in
    let (_, h4) = append_empty (step_input_problems def.steps def.steps) _ h3 in
    let (_, h5) = append_empty (source_problems def.steps) _ h4 in
    let (_, acyclic) = append_empty (duplicate_problems [] def.edges) _ h5 in
    let set =
      AllEdges-insert_edges (Joins def.steps) def.edges [] (edges_known def.steps def.edges ends)
        tt in
    let joins =
      Joins-JoinsSteps def.steps (all_edges def)
        (steps_known def.steps def.steps (insert_edges def.edges []) (λ v m. m) deps set) in
    let (order, found) = acyclic_order def acyclic in
    (joins, order, found, topological_order-IsOrder def order joins found)
