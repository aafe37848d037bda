-- ===== src/Workflow/Degrees.antt =====
-- orchestrator/src/workflow/validator.rs: the maps that `topological_order` builds from the steps and
-- the edges of a definition.
use boruna.Prelude.{
  ◌≡◌, refl, sym, ◌∙◌, String, Bool, true, false, ◌||◌, List, [], ◌∷◌, ◌++◌, arith, push, eq_iff,
  map,
}
use mathlib.Core.Path.{subst}
use mathlib.Core.List.{append-nil, append_assoc}
use text.Mathlib.TextPositions.{compare_refl}
use boruna.Prelude.BTreeMap.{BTreeMap}
use boruna.Prelude.SortedMap.{IsSorted, Above}
use boruna.Prelude.BTreeSet.{contains}
use boruna.Kahn.Loop.{Edge, Degrees, Dependents, insert_zero, increment, add_dependent}
use boruna.Kahn.Counting.{IsDistinct}
use boruna.Kahn.Building.{
  Grows, Grows-edge, Grows-zero, Grows-empty, is_present, is_present-insert_zero,
  is_present-increment,
}
use boruna.Workflow.Definition.{StepDef}
use boruna.Workflow.Edges.{AllEdges}
use boruna.Workflow.Validator.{zeros, count_edges}

abbrev pub step_ids : BTreeMap StepDef → List String
step_ids steps = map (λ e. e.0) steps

contains-Above :
    {V : Type 0} (k : String) (m : BTreeMap V) → Above k m → contains k (map (λ e. e.0) m) ≡ false
unfolding contains
contains-Above k [] a = refl
contains-Above k ((j, v) ∷ m) a = ground (arith, eq_iff j k, compare_refl k, contains-Above k m a.1)

pub IsDistinct-step_ids : (steps : BTreeMap StepDef) → IsSorted steps → IsDistinct (step_ids steps)
IsDistinct-step_ids [] s = tt
IsDistinct-step_ids ((k, v) ∷ m) s = (contains-Above k m s.0, IsDistinct-step_ids m s.1)

module _ (ids : List String) where
  abbrev known : String → Bool
  known v = contains v ids

  Grows-zeros :
      (steps : BTreeMap StepDef) (deg : Degrees)
      → ((v : String) → contains v (step_ids steps) ≡ true → known v ≡ true)
      → Grows known [] [] deg
      → Grows known [] [] (zeros steps deg)
  unfolding zeros contains
  Grows-zeros [] deg h g = g
  Grows-zeros ((id, step) ∷ rest) deg h g =
      Grows-zeros rest (insert_zero id deg) (λ v k. h v (ground (arith, k)))
        (Grows-zero known [] [] deg id g (h id (ground (arith, eq_iff id id))))

  Grows-count_edges :
      (es fs : List Edge) (ds : Dependents) (deg : Degrees)
      → AllEdges (λ e. known e.1 ≡ true) fs
      → Grows known es ds deg
      → Grows known (es ++ fs) (count_edges fs ds deg).0 (count_edges fs ds deg).1
  unfolding count_edges
  Grows-count_edges es [] ds deg a g = subst (λ l. Grows known l ds deg) (sym (append-nil es)) g
  Grows-count_edges es ((from, to) ∷ fs) ds deg a g =
      subst
        (λ l.
          Grows known l (count_edges fs (add_dependent from to ds) (increment to deg)).0
            (count_edges fs (add_dependent from to ds) (increment to deg)).1)
        (append_assoc es ((from, to) ∷ []) fs)
        (Grows-count_edges (push es (from, to)) fs (add_dependent from to ds) (increment to deg) a.1
          (Grows-edge known es ds deg from to g a.0))

pub is_present-zeros :
    (v : String) (steps : BTreeMap StepDef) (deg : Degrees)
    → is_present v (zeros steps deg) ≡ (contains v (step_ids steps) || is_present v deg)
unfolding zeros contains
is_present-zeros v [] deg = refl
is_present-zeros v ((id, step) ∷ rest) deg =
    is_present-zeros v rest (insert_zero id deg) ∙ ground (arith, is_present-insert_zero v id deg)

pub is_present-count_edges :
    (v : String) (fs : List Edge) (ds : Dependents) (deg : Degrees)
    → is_present v deg ≡ true
    → is_present v (count_edges fs ds deg).1 ≡ true
unfolding count_edges
is_present-count_edges v [] ds deg h = h
is_present-count_edges v ((from, to) ∷ fs) ds deg h =
    is_present-count_edges v fs (add_dependent from to ds) (increment to deg)
      (is_present-increment v to deg h)

-- The maps of a definition are a graph on its steps, if its edges go to steps.
pub Grows-steps :
    (steps : BTreeMap StepDef) (es : List Edge)
    → AllEdges (λ e. contains e.1 (step_ids steps) ≡ true) es
    → Grows
        (λ v. contains v (step_ids steps))
        es
        (count_edges es [] (zeros steps [])).0
        (count_edges es [] (zeros steps [])).1
Grows-steps steps es a = Grows-count_edges (step_ids steps) [] es [] (zeros steps []) a (
    Grows-zeros (step_ids steps) steps [] (λ v h. h)
      (Grows-empty (λ v. contains v (step_ids steps))))
