-- ===== src/Workflow/Levels.antt =====
-- orchestrator/src/workflow/validator.rs: what `topological_levels` returns.
use mathlib.Core.Path.{subst}
use boruna.Prelude.{
  ℕ, ◌<◌, ◌≡◌, ◌↔◌, refl, sym, ◌∙◌, String, true, List, [], ◌∷◌, ok, arith, length, length-append,
  All,
}
use boruna.Prelude.BTreeMap.{BTreeMap}
use boruna.Prelude.SortedMap.{IsSorted}
use boruna.Prelude.BTreeSet.{contains}
use boruna.Kahn.Loop.{Edge}
use boruna.Kahn.Counting.{IsDistinct, length-IsDistinct}
use boruna.Kahn.Sound.{is_key}
use boruna.Kahn.Complete.{IsRankedOn, distinct_full, ranked_done}
use boruna.Kahn.Waves.{kahn_levels}
use boruna.Kahn.Layers.{LayeredFrom, flatten, Layers, kahn_levels-Layers}
use boruna.Workflow.Definition.{StepDef, WorkflowDef}
use boruna.Workflow.Edges.{all_edges}
use boruna.Workflow.Validator.{total_of, resolved_levels, topological_levels}
use boruna.Workflow.Degrees.{step_ids, IsDistinct-step_ids}
use boruna.Workflow.Order.{
  JoinsSteps, HasRank, ends_of, degrees_of, graph, keys_are, length-step_ids,
}

-- every step in one level, and no edge into a level but from earlier levels
pub record IsLayering (ids : List String) (es : List Edge) (levels : List (List String))
    : Type 0 where
  pub distinct : IsDistinct (flatten levels)
  pub members : (v : String) → contains v (flatten levels) ≡ contains v ids
  pub layered : LayeredFrom es [] levels

total_of-flatten : (levels : List (List String)) → total_of levels ≡ length (flatten levels)
unfolding total_of
total_of-flatten [] = refl
total_of-flatten (level ∷ rest) =
    omega (arith, length-append level (flatten rest), total_of-flatten rest)

resolved_levels_iff :
    (returned levels : List (List String)) (total : ℕ)
    → (resolved_levels returned total ≡ ok levels)
      ↔ ((total_of returned ≡ total) × (returned ≡ levels))
unfolding resolved_levels
resolved_levels_iff returned levels total = ground arith

module _ (steps : BTreeMap StepDef) (es : List Edge) (joins : JoinsSteps steps es) where
  abbrev found : List (List String)
  found = kahn_levels (ends_of steps es joins) (degrees_of steps es joins)

  layers : Layers (is_key (degrees_of steps es joins)) es [] found
  layers =
      kahn_levels-Layers es (ends_of steps es joins) (degrees_of steps es joins)
        (graph steps es joins)

  in_steps : (v : String) → contains v (flatten found) ≡ true → contains v (step_ids steps) ≡ true
  in_steps v h = sym (keys_are steps es joins v) ∙ layers.inv.seen_known v (ground (arith, h))

  found-IsLayering :
      length (flatten found) ≡ length (step_ids steps) → IsLayering (step_ids steps) es found
  found-IsLayering l =
      let all_in =
        distinct_full (flatten found) (step_ids steps) layers.inv.done_distinct in_steps l in
      record {
        distinct = layers.inv.done_distinct;
        members = λ v. ground (arith, in_steps v, all_in v);
        layered = layers.layered;
      }

  ranked :
      (rank : String → ℕ) (fs : List Edge)
      → IsRankedOn rank (step_ids steps) fs
      → All
          (λ (e : Edge). (is_key (degrees_of steps es joins) e.0 ≡ true) × (rank e.0 < rank e.1))
          fs
  ranked rank [] r = tt
  ranked rank ((x, y) ∷ fs) r = ((keys_are steps es joins x ∙ r.0.0, r.0.1), ranked rank fs r.1)

  length-found :
      (rank : String → ℕ)
      → IsSorted steps
      → IsRankedOn rank (step_ids steps) es
      → length (flatten found) ≡ length (step_ids steps)
  length-found rank s r = omega (
    arith,
    length-IsDistinct (flatten found) (step_ids steps) layers.inv.done_distinct in_steps,
    length-IsDistinct (step_ids steps) (flatten found) (IsDistinct-step_ids steps s) (λ v k.
        ranked_done (is_key (degrees_of steps es joins)) es (flatten found) layers.deg rank
          layers.inv (ranked rank es r) v (keys_are steps es joins v ∙ k)),
  )

-- Where the edges join steps, levels that are returned have every step in one level, and every edge into
-- a level comes from an earlier one.
pub topological_levels-IsLayering :
    (def : WorkflowDef) (levels : List (List String))
    → JoinsSteps def.steps (all_edges def)
    → topological_levels def ≡ ok levels
    → IsLayering (step_ids def.steps) (all_edges def) levels
unfolding topological_levels
topological_levels-IsLayering def levels j h =
    let (full, same) =
      (resolved_levels_iff (found def.steps (all_edges def) j) levels (length def.steps)).0 h in
    subst (IsLayering (step_ids def.steps) (all_edges def)) same (
      found-IsLayering def.steps (all_edges def) j (
        sym (total_of-flatten (found def.steps (all_edges def) j))
        ∙ (full ∙ sym (length-step_ids def.steps))))

-- For steps in the order of their keys, where the edges join steps and have no cycle, levels are
-- returned.
topological_levels_ranked :
    (def : WorkflowDef)
    → IsSorted def.steps
    → JoinsSteps def.steps (all_edges def)
    → HasRank def
    → (levels : List (List String)) × (topological_levels def ≡ ok levels)
unfolding topological_levels
topological_levels_ranked def s j r = (
  found def.steps (all_edges def) j,
  (resolved_levels_iff _ _ (length def.steps)).1 (
    total_of-flatten (found def.steps (all_edges def) j)
        ∙ (length-found def.steps (all_edges def) j r.0 s r.1 ∙ length-step_ids def.steps),
    refl,
  ),
)
