-- ===== src/Kahn/Waves.antt =====
-- The loop by levels of `topological_levels` in orchestrator/src/workflow/validator.rs, and its
-- invariant.
use Prim.Native.Nat.{Ordering}
use Prim.Native.String.{compare}
use boruna.Prelude.{
  ℕ, zero, suc, ◌≡◌, refl, ap, ◌∙◌, String, false, ◌||◌, List, [], ◌∷◌, arith, length, str_eq,
  eq_iff, unwrap_or,
}
use boruna.Prelude.BTreeMap
use boruna.Prelude.BTreeSet.{contains}
use boruna.Kahn.Loop.{Degrees, Dependents, relax, zero_degree}
use boruna.Kahn.Counting.{IsDistinct}

-- `sort` of a vector of texts
unfoldable pub insert_sorted : String → List String → List String
insert_sorted x [] = x ∷ []
insert_sorted x (y ∷ ys) =
    let later = insert_sorted x ys in
    elim (compare x y) [
      | Ordering.lt ↦ x ∷ y ∷ ys
      | Ordering.eq ↦ x ∷ y ∷ ys
      | Ordering.gt ↦ y ∷ later
    ]

unfoldable pub sort : List String → List String
sort [] = []
sort (x ∷ xs) = insert_sorted x (sort xs)

-- the loop over the nodes of a level
unfoldable pub relax_level :
    Dependents → List String → Degrees → List String → Degrees × List String
relax_level ds [] deg next = (deg, next)
relax_level ds (id ∷ rest) deg next =
    let (deg', next') = relax (unwrap_or [] (BTreeMap.get id ds)) deg next in
    relax_level ds rest deg' next'

-- the loop over the levels, on fuel
unfoldable pub levels_from : ℕ → Dependents → Degrees → List String → List (List String)
levels_from zero ds deg current = []
levels_from (suc k) ds deg [] = []
levels_from (suc k) ds deg (c ∷ cs) =
    let (deg', next) = relax_level ds (c ∷ cs) deg [] in
    (c ∷ cs) ∷ levels_from k ds deg' (sort next)

-- The loop from its start. No level is empty, so there are at most as many as there are nodes.
unfoldable pub kahn_levels : Dependents → Degrees → List (List String)
unfolding zero_degree sort levels_from
kahn_levels ds deg = levels_from (suc (length deg)) ds deg (sort (zero_degree deg))

contains-insert_sorted :
    (v x : String) (ys : List String)
    → contains v (insert_sorted x ys) ≡ (str_eq x v || contains v ys)
unfolding insert_sorted contains
contains-insert_sorted v x [] = refl
contains-insert_sorted v x (y ∷ ys) = ground (arith, contains-insert_sorted v x ys)

IsDistinct-insert_sorted :
    (x : String) (ys : List String)
    → contains x ys ≡ false
    → IsDistinct ys
    → IsDistinct (insert_sorted x ys)
unfolding insert_sorted contains
IsDistinct-insert_sorted x [] h d = (refl, tt)
IsDistinct-insert_sorted x (y ∷ ys) h d =
    ground
      (arith, eq_iff x y, eq_iff y x, contains-insert_sorted y x ys, IsDistinct-insert_sorted x ys)

pub contains-sort : (v : String) (xs : List String) → contains v (sort xs) ≡ contains v xs
unfolding sort contains
contains-sort v [] = refl
contains-sort v (x ∷ xs) =
    contains-insert_sorted v x (sort xs) ∙ ap (λ b. str_eq x v || b) (contains-sort v xs)

pub IsDistinct-sort : (xs : List String) → IsDistinct xs → IsDistinct (sort xs)
unfolding sort
IsDistinct-sort [] d = tt
IsDistinct-sort (x ∷ xs) d =
    IsDistinct-insert_sorted x (sort xs) (contains-sort x xs ∙ d.0) (IsDistinct-sort xs d.1)
