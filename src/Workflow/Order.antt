-- ===== src/Workflow/Order.antt =====
-- orchestrator/src/workflow/validator.rs: what `topological_order` returns.
use mathlib.Core.Path.{subst}
use boruna.Prelude.{
  ℕ, suc, ◌≡◌, ◌↔◌, refl, sym, ap, ◌∙◌, String, true, List, [], ◌∷◌, ok, arith, length,
}
use boruna.Prelude.BTreeMap.{BTreeMap}
use boruna.Prelude.SortedMap.{IsSorted}
use boruna.Prelude.BTreeSet.{contains}
use boruna.Kahn.Loop.{Edge, Degrees, Dependents, kahn}
use boruna.Kahn.Sound.{IsGraph, is_key}
use boruna.Kahn.Complete.{IsOrder, IsRankedOn, kahn-IsOrder, length-kahn}
use boruna.Kahn.Rank.{EdgesWithin, place_of, IsOrder-IsRankedOn}
use boruna.Kahn.Building.{Grows-IsGraph, is_key-Grows}
use boruna.Workflow.Definition.{StepDef, WorkflowDef}
use boruna.Workflow.Edges.{AllEdges, all_edges}
use boruna.Workflow.Validator.{zeros, count_edges, resolved, topological_order}
use boruna.Workflow.Degrees.{
  step_ids, IsDistinct-step_ids, is_present-zeros, is_present-count_edges, Grows-steps,
}

-- every edge joins two steps
abbrev pub JoinsSteps : BTreeMap StepDef → List Edge → Type 0
JoinsSteps steps es = EdgesWithin (step_ids steps) es

joins_to :
    (steps : BTreeMap StepDef) (es : List Edge)
    → JoinsSteps steps es
    → AllEdges (λ e. contains e.1 (step_ids steps) ≡ true) es
joins_to steps [] j = tt
joins_to steps ((x, y) ∷ es) j = (j.0.1, joins_to steps es j.1)

pub length-step_ids : (steps : BTreeMap StepDef) → length (step_ids steps) ≡ length steps
length-step_ids [] = refl
length-step_ids (e ∷ steps) = ap suc (length-step_ids steps)

resolved-ok :
    (returned order : List String) (total : ℕ)
    → resolved returned total ≡ ok order
    → (length returned ≡ total) × (returned ≡ order)
unfolding resolved
resolved-ok returned order total h = ground arith

resolved_full :
    (returned : List String) (total : ℕ)
    → length returned ≡ total
    → resolved returned total ≡ ok returned
unfolding resolved
resolved_full returned total h = ground arith

module _ (steps : BTreeMap StepDef) (es : List Edge) (joins : JoinsSteps steps es) where
  abbrev pub ends_of : Dependents
  ends_of = (count_edges es [] (zeros steps [])).0

  abbrev pub degrees_of : Degrees
  degrees_of = (count_edges es [] (zeros steps [])).1

  pub graph : IsGraph es ends_of degrees_of
  graph =
      Grows-IsGraph (λ v. contains v (step_ids steps)) es ends_of degrees_of
        (Grows-steps steps es (joins_to steps es joins))

  pub keys_are : (v : String) → is_key degrees_of v ≡ contains v (step_ids steps)
  keys_are v =
      is_key-Grows (λ w. contains w (step_ids steps)) es ends_of degrees_of
        (Grows-steps steps es (joins_to steps es joins))
        (λ w h.
          is_present-count_edges w es [] (zeros steps [])
            (is_present-zeros w steps [] ∙ ground (arith, h)))
        v

  resolved-IsOrder :
      length (kahn ends_of degrees_of) ≡ length steps
      → IsOrder (step_ids steps) es (kahn ends_of degrees_of)
  resolved-IsOrder l =
      kahn-IsOrder (step_ids steps) es ends_of degrees_of graph keys_are
        (l ∙ sym (length-step_ids steps))

  all_resolved :
      (rank : String → ℕ)
      → IsSorted steps
      → IsRankedOn rank (step_ids steps) es
      → length (kahn ends_of degrees_of) ≡ length steps
  all_resolved rank s r =
      length-kahn (step_ids steps) es ends_of degrees_of graph keys_are rank
        (IsDistinct-step_ids steps s) r
      ∙ length-step_ids steps

-- Where the edges join steps, an order that is returned has every step once, after the sources of all
-- edges into it.
pub topological_order-IsOrder :
    (def : WorkflowDef) (order : List String)
    → JoinsSteps def.steps (all_edges def)
    → topological_order def ≡ ok order
    → IsOrder (step_ids def.steps) (all_edges def) order
unfolding topological_order
topological_order-IsOrder def order j h =
    let (full, same) =
      resolved-ok
        (kahn (ends_of def.steps (all_edges def) j) (degrees_of def.steps (all_edges def) j)) order
        (length def.steps) h in
    subst (IsOrder (step_ids def.steps) (all_edges def)) same
      (resolved-IsOrder def.steps (all_edges def) j full)

-- a rank of the steps that grows along every edge, which there is exactly if the edges have no cycle
abbrev pub HasRank : WorkflowDef → Type 0
HasRank def = (rank : String → ℕ) × IsRankedOn rank (step_ids def.steps) (all_edges def)

-- For steps in the order of their keys, where the edges join steps: an order is returned exactly if the
-- edges have no cycle, and it has every step once, after the sources of all edges into it.
pub topological_order_lem :
    (def : WorkflowDef)
    → IsSorted def.steps
    → JoinsSteps def.steps (all_edges def)
    → (((order : List String) × (topological_order def ≡ ok order)) ↔ HasRank def)
      × ((order : List String)
          → topological_order def ≡ ok order
          → IsOrder (step_ids def.steps) (all_edges def) order)
unfolding topological_order
topological_order_lem def s j = (
  (
    λ o. (
      place_of o.0,
      IsOrder-IsRankedOn (step_ids def.steps) (all_edges def) o.0 j
          (topological_order-IsOrder def o.0 j o.1),
    ),
    λ r. (
      kahn (ends_of def.steps (all_edges def) j) (degrees_of def.steps (all_edges def) j),
      resolved_full _ (length def.steps) (all_resolved def.steps (all_edges def) j r.0 s r.1),
    ),
  ),
  λ order h. topological_order-IsOrder def order j h,
)
