-- ===== src/Workflow/Members.antt =====
-- orchestrator/src/workflow/validator.rs: which edges `all_edges` collects; and
-- orchestrator/src/workflow/definition.rs: which documents `from_json` accepts.
use Prim.Native.Nat.{Ordering}
use boruna.Prelude.{
  ℕ, ◌≤◌, ◌≡◌, ◌↔◌, refl, sym, ◌∙◌, String, Bool, false, ◌&&◌, ◌||◌, List, [], ◌∷◌, Option, none,
  some, ok, err, arith, str_eq, Result-cases, inl, inr,
}
use text.Mathlib.TextEquality.{path_by_compare}
use boruna.Prelude.BTreeMap.{BTreeMap}
use boruna.Prelude.BTreeSet.{contains}
use boruna.Kahn.Loop.{Edge}
use boruna.Workflow.Definition.{
  StepDef, WorkflowDef, invalid_json, Serde, decode, read_version, from_json,
}
use boruna.Workflow.Edges.{
  compare_edge, edge_eq, place, insert_edge, contains_edge, insert_edges, insert_deps, insert_steps,
  all_edges,
}

same_edge : (e f : Edge) → compare_edge e f ≡ Ordering.eq → (e.0 ≡ f.0) × (e.1 ≡ f.1)
same_edge (a, b) (c, d) h = ground (arith, path_by_compare a c, path_by_compare b d)

contains-place :
    (o : Ordering) (g e f : Edge) (s later : List Edge)
    → (o ≡ Ordering.eq → edge_eq e g ≡ edge_eq f g)
    → contains_edge g later ≡ (edge_eq e g || contains_edge g s)
    → contains_edge g (place o e f s later) ≡ (edge_eq e g || (edge_eq f g || contains_edge g s))
unfolding contains_edge
contains-place Ordering.lt g e f s later same h = refl
contains-place Ordering.eq g e f s later same h = ground (arith, same refl)
contains-place Ordering.gt g e f s later same h = ground (arith, h)

contains-insert_edge :
    (g e : Edge) (s : List Edge)
    → contains_edge g (insert_edge e s) ≡ (edge_eq e g || contains_edge g s)
unfolding insert_edge contains_edge
contains-insert_edge g e [] = refl
contains-insert_edge g e (f ∷ s) =
    contains-place (compare_edge e f) g e f s (insert_edge e s)
      (λ h. let (p, q) = same_edge e f h in rw (p, q) refl) (contains-insert_edge g e s)

contains-insert_edges :
    (g : Edge) (es s : List Edge)
    → contains_edge g (insert_edges es s) ≡ (contains_edge g es || contains_edge g s)
unfolding insert_edges contains_edge
contains-insert_edges g [] s = refl
contains-insert_edges g (e ∷ es) s =
    ground (arith, contains-insert_edges g es (insert_edge e s), contains-insert_edge g e s)

contains-insert_deps :
    (a b id : String) (deps : List String) (s : List Edge)
    → contains_edge (a, b) (insert_deps id deps s)
      ≡ ((str_eq id b && contains a deps) || contains_edge (a, b) s)
unfolding insert_deps contains
contains-insert_deps a b id [] s = ground arith
contains-insert_deps a b id (dep ∷ deps) s = ground (
  arith,
  contains-insert_deps a b id deps (insert_edge (dep, id) s),
  contains-insert_edge (a, b) (dep, id) s,
)

-- a step of this name lists the other among its dependencies
abbrev pub depends : BTreeMap StepDef → String → String → Bool
depends [] a b = false
depends ((id, step) ∷ rest) a b = (str_eq id b && contains a step.depends_on) || depends rest a b

contains-insert_steps :
    (a b : String) (steps : BTreeMap StepDef) (s : List Edge)
    → contains_edge (a, b) (insert_steps steps s) ≡ (depends steps a b || contains_edge (a, b) s)
unfolding insert_steps
contains-insert_steps a b [] s = refl
contains-insert_steps a b ((id, step) ∷ rest) s = ground (
  arith,
  contains-insert_steps a b rest (insert_deps id step.depends_on s),
  contains-insert_deps a b id step.depends_on s,
)

-- The edges of a definition are those it lists and those from a step's dependencies to the step.
contains_edge-all_edges :
    (def : WorkflowDef) (a b : String)
    → contains_edge (a, b) (all_edges def)
      ≡ (depends def.steps a b || contains_edge (a, b) def.edges)
unfolding all_edges contains_edge
contains_edge-all_edges def a b =
    contains-insert_steps a b def.steps (insert_edges def.edges [])
    ∙ ground (arith, contains-insert_edges (a, b) def.edges [])

module _ (s : Serde) where
  decode_iff :
      (value : s.Json) (sv : ℕ) (def : WorkflowDef)
      → (decode s value sv ≡ ok def) ↔ ((sv ≤ 1) × (s.from_value value ≡ ok def))
  unfolding decode
  decode_iff value sv def = elim (Result-cases (s.from_value value)) [
    | inl (d, e) ↦ ground (arith, e)
    | inr (x, e) ↦ ground (arith, e)
  ]

  version_read :
      (o : Option s.Json) (sv : ℕ)
      → read_version s o ≡ ok sv
      → (v : s.Json) × (o ≡ some v) × (s.is_null v ≡ false) × (s.as_u64 v ≡ some sv)
  unfolding read_version
  version_read none sv h = cc
  version_read (some v) sv h = (v, refl, ground arith, ground arith)

-- A document is accepted exactly if it is JSON whose `schema_version` is a number of at most 1, which 0
-- is too, and whose fields decode; the definition is what they decode to.
pub from_json_iff :
    (s : Serde) (json : String) (def : WorkflowDef)
    → (from_json s json ≡ ok def) ↔ (
        (value : s.Json) × (v : s.Json) × (sv : ℕ) × (s.from_str json ≡ ok value)
        × (s.get "schema_version" value ≡ some v)
        × (s.is_null v ≡ false)
        × (s.as_u64 v ≡ some sv)
        × (sv ≤ 1)
        × (s.from_value value ≡ ok def))
unfolding from_json read_version
from_json_iff s json def = (
  λ h. elim (Result-cases (s.from_str json)) [
    | inr (e, bad) ↦
        let failed : from_json s json ≡ err (invalid_json e) = rw (bad, from_json) refl in cc
    | inl (value, parsed) ↦ elim (Result-cases (read_version s (s.get "schema_version" value))) [
      | inr (e, bad) ↦
          let failed : from_json s json ≡ err e = rw (parsed, bad, from_json) refl in cc
      | inl (sv, read) ↦
          let decoded : from_json s json ≡ decode s value sv = rw (parsed, read, from_json) refl in
          let (v, a, b, c) = version_read s (s.get "schema_version" value) sv read in
          let d = (decode_iff s value sv def).0 (sym decoded ∙ h) in
          (value, v, sv, parsed, a, b, c, d.0, d.1)
    ]
  ],
  λ (value, v, sv, parsed, a, b, c, d, e).
      let read : read_version s (s.get "schema_version" value) ≡ ok sv =
        rw (a, b, c, read_version) refl in
      let decoded : from_json s json ≡ decode s value sv = rw (parsed, read, from_json) refl in
      decoded ∙ (decode_iff s value sv def).1 (d, e),
)
