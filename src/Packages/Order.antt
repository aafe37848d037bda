-- ===== src/Packages/Order.antt =====
-- packages/src/resolver/mod.rs: what `topological_sort` decides and returns.
use mathlib.Core.Path.{subst}
use mathlib.Core.List.{append-nil, append_assoc}
use text.Mathlib.TextPositions.{compare_refl}
use boruna.Prelude.{
  ℕ, suc, ◌≡◌, ◌↔◌, refl, sym, ap, ◌∙◌, String, Bool, true, false, ◌||◌, List, [], ◌∷◌, ◌++◌, ok,
  arith, length, map, str_eq, eq_iff,
}
use boruna.Prelude.BTreeMap.{BTreeMap}
use boruna.Prelude.SortedMap.{IsSorted, Above}
use boruna.Prelude.BTreeSet.{contains}
use boruna.Kahn.Loop.{Edge, Degrees, Dependents, insert_zero, link}
use boruna.Kahn.Counting.{IsDistinct}
use boruna.Kahn.Sound.{is_key}
use boruna.Kahn.Complete.{IsOrder, IsRankedOn, Inv-IsOrder, length-Inv}
use boruna.Kahn.Rank.{EdgesWithin, place_of, IsOrder-IsRankedOn}
use boruna.Kahn.Building.{
  Grows, Grows-zero, Grows-empty, Grows-IsGraph, is_key-Grows, is_present, is_present-insert_zero,
  edges_to, Grows-link, is_present-link,
}
use boruna.Packages.Resolver.{
  PackageManifest, dep_ids, enter_packages, sorted_order, complete, topological_sort,
}
use boruna.Packages.Sorting.{sorted_order-Done}

abbrev pub package_ids {ℓ} : {V : Type ℓ} → BTreeMap V → List String
package_ids packages = map (λ e. e.0) packages

-- the edges from the dependencies of a package to the package
abbrev pub edges_of : BTreeMap PackageManifest → List Edge
edges_of [] = []
edges_of ((id, m) ∷ rest) = edges_to id (dep_ids m) ++ edges_of rest

contains-Above :
    {V : Type 0} (k : String) (m : BTreeMap V) → Above k m → contains k (package_ids m) ≡ false
unfolding contains
contains-Above k [] a = refl
contains-Above k ((j, v) ∷ m) a = ground (arith, eq_iff j k, compare_refl k, contains-Above k m a.1)

IsDistinct-package_ids : {V : Type 0} (m : BTreeMap V) → IsSorted m → IsDistinct (package_ids m)
IsDistinct-package_ids [] s = tt
IsDistinct-package_ids ((k, v) ∷ m) s = (contains-Above k m s.0, IsDistinct-package_ids m s.1)

length-package_ids : {V : Type 0} (m : BTreeMap V) → length (package_ids m) ≡ length m
length-package_ids [] = refl
length-package_ids (e ∷ m) = ap suc (length-package_ids m)

module _ (ids : List String) where
  abbrev known : String → Bool
  known v = contains v ids

  Grows-enter_packages :
      (packages : BTreeMap PackageManifest) (es : List Edge) (ds : Dependents) (deg : Degrees)
      → ((v : String) → contains v (package_ids packages) ≡ true → known v ≡ true)
      → Grows known es ds deg
      → Grows known
          (es ++ edges_of packages)
          (enter_packages packages ds deg).0
          (enter_packages packages ds deg).1
  unfolding enter_packages contains
  Grows-enter_packages [] es ds deg h g = subst (λ l. Grows known l ds deg) (sym (append-nil es)) g
  Grows-enter_packages ((id, m) ∷ rest) es ds deg h g =
      let k : known id ≡ true = h id (ground (arith, eq_iff id id)) in
      let mid = link id (dep_ids m) ds (insert_zero id deg) in
      let entered =
        Grows-link known id (dep_ids m) es ds (insert_zero id deg) k
          (Grows-zero known es ds deg id g k) in
      subst
        (λ l. Grows known l (enter_packages rest mid.0 mid.1).0 (enter_packages rest mid.0 mid.1).1)
        (append_assoc es (edges_to id (dep_ids m)) (edges_of rest))
        (Grows-enter_packages rest (es ++ edges_to id (dep_ids m)) mid.0 mid.1
          (λ v n. h v (ground (arith, n))) entered)

is_present-enter_packages :
    (v : String) (packages : BTreeMap PackageManifest) (ds : Dependents) (deg : Degrees)
    → (contains v (package_ids packages) || is_present v deg) ≡ true
    → is_present v (enter_packages packages ds deg).1 ≡ true
unfolding enter_packages contains
is_present-enter_packages v [] ds deg h = h
is_present-enter_packages v ((id, m) ∷ rest) ds deg h =
    let mid = link id (dep_ids m) ds (insert_zero id deg) in
    is_present-enter_packages v rest mid.0 mid.1 (ground (arith, here))
  where
    here :
        (str_eq id v || is_present v deg) ≡ true
        → is_present v (link id (dep_ids m) ds (insert_zero id deg)).1 ≡ true
    here k =
        is_present-link v id (dep_ids m) ds (insert_zero id deg)
          (is_present-insert_zero v id deg ∙ k)

complete_iff :
    (returned order : List String) (total : ℕ)
    → (complete returned total ≡ ok order) ↔ ((length returned ≡ total) × (returned ≡ order))
unfolding complete
complete_iff returned order total = ground arith

-- For packages in the order of their keys, where every dependency is among them: an order is
-- returned exactly if the dependencies have no cycle, and it has every package once, after its
-- dependencies.
pub topological_sort_lem :
    (packages : BTreeMap PackageManifest)
    → IsSorted packages
    → EdgesWithin (package_ids packages) (edges_of packages)
    → (((order : List String) × (topological_sort packages ≡ ok order))
        ↔ ((rank : String → ℕ) × IsRankedOn rank (package_ids packages) (edges_of packages)))
      × ((order : List String)
          → topological_sort packages ≡ ok order
          → IsOrder (package_ids packages) (edges_of packages) order)
unfolding topological_sort
topological_sort_lem packages s w =
    let ids = package_ids packages in
    let es = edges_of packages in
    let (ds, deg) = enter_packages packages [] [] in
    let returned = sorted_order ds deg in
    let grows =
      Grows-enter_packages ids packages [] [] [] (λ v h. h) (Grows-empty (λ v. contains v ids)) in
    let keys_are : (v : String) → is_key deg v ≡ contains v ids =
      is_key-Grows (λ v. contains v ids) es ds deg grows
        (λ v h. is_present-enter_packages v packages [] [] (ground (arith, h))) in
    let done = sorted_order-Done es ds deg (Grows-IsGraph (λ v. contains v ids) es ds deg grows) in
    let total = length-package_ids packages in
    let is_order : (order : List String)
        → topological_sort packages ≡ ok order
        → IsOrder ids es order =
      λ order h.
        let (full, same) = (complete_iff returned order (length packages)).0 h in
        subst (IsOrder ids es) same (
          Inv-IsOrder ids es returned (is_key deg) done.deg done.inv keys_are done.respects
            (full ∙ sym total)) in
    (
      (
        λ o. (place_of o.0, IsOrder-IsRankedOn ids es o.0 w (is_order o.0 o.1)),
        λ r. (
          returned,
          (complete_iff returned returned (length packages)).1 (
            length-Inv ids es returned (is_key deg) done.deg done.inv keys_are r.0
                  (IsDistinct-package_ids packages s) r.1
                ∙ total,
            refl,
          ),
        ),
      ),
      is_order,
    )
