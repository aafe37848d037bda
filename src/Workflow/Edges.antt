-- ===== src/Workflow/Edges.antt =====
-- orchestrator/src/workflow/validator.rs: `BTreeSet<(String, String)>`, and `all_edges`.
use Prim.Native.Nat.{Ordering}
use Prim.Native.String.{compare, then}
use boruna.Prelude.{String, Bool, false, ◌&&◌, ◌||◌, List, [], ◌∷◌, str_eq}
use boruna.Prelude.BTreeMap.{BTreeMap}
use boruna.Kahn.Loop.{Edge}
use boruna.Workflow.Definition.{StepDef, WorkflowDef}

abbrev pub compare_edge : Edge → Edge → Ordering
compare_edge (a, b) (c, d) = (then) (compare a c) (compare b d)

abbrev pub edge_eq : Edge → Edge → Bool
edge_eq (a, b) (c, d) = str_eq a c && str_eq b d

-- an edge and one that the set has, in their order; `later` is the set with the edge put in after it
abbrev pub place : Ordering → Edge → Edge → List Edge → List Edge → List Edge
place Ordering.lt e f s later = e ∷ f ∷ s
place Ordering.eq e f s later = f ∷ s
place Ordering.gt e f s later = f ∷ later

unfoldable pub insert_edge : Edge → List Edge → List Edge
insert_edge e [] = e ∷ []
insert_edge e (f ∷ s) = let later = insert_edge e s in place (compare_edge e f) e f s later

unfoldable pub contains_edge : Edge → List Edge → Bool
contains_edge e [] = false
contains_edge e (f ∷ s) = edge_eq f e || contains_edge e s

-- the loops of `all_edges`
unfoldable pub insert_edges : List Edge → List Edge → List Edge
insert_edges [] s = s
insert_edges (e ∷ rest) s = insert_edges rest (insert_edge e s)

unfoldable pub insert_deps : String → List String → List Edge → List Edge
insert_deps id [] s = s
insert_deps id (dep ∷ rest) s = insert_deps id rest (insert_edge (dep, id) s)

unfoldable pub insert_steps : BTreeMap StepDef → List Edge → List Edge
insert_steps [] s = s
insert_steps ((id, step) ∷ rest) s = insert_steps rest (insert_deps id step.depends_on s)

unfoldable pub all_edges : WorkflowDef → List Edge
all_edges def = insert_steps def.steps (insert_edges def.edges [])

-- a property of every edge of a set, kept by an insertion
module _ (P : Edge → Type 0) where
  abbrev pub AllEdges : List Edge → Type 0
  AllEdges [] = Unit
  AllEdges (e ∷ s) = P e × AllEdges s

  AllEdges-place :
      (o : Ordering) (e f : Edge) (s later : List Edge)
      → P e
      → AllEdges (f ∷ s)
      → AllEdges later
      → AllEdges (place o e f s later)
  AllEdges-place Ordering.lt e f s later h a b = (h, a)
  AllEdges-place Ordering.eq e f s later h a b = a
  AllEdges-place Ordering.gt e f s later h a b = (a.0, b)

  pub AllEdges-insert_edge :
      (e : Edge) (s : List Edge) → P e → AllEdges s → AllEdges (insert_edge e s)
  unfolding insert_edge
  AllEdges-insert_edge e [] h a = (h, tt)
  AllEdges-insert_edge e (f ∷ s) h a =
      AllEdges-place (compare_edge e f) e f s _ h a (AllEdges-insert_edge e s h a.1)

  pub AllEdges-insert_edges :
      (es s : List Edge) → AllEdges es → AllEdges s → AllEdges (insert_edges es s)
  unfolding insert_edges
  AllEdges-insert_edges [] s h a = a
  AllEdges-insert_edges (e ∷ es) s h a =
      AllEdges-insert_edges es (insert_edge e s) h.1 (AllEdges-insert_edge e s h.0 a)
