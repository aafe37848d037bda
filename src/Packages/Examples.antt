-- ===== src/Packages/Examples.antt =====
-- The resolver at concrete packages: an application on a library.
use boruna.Prelude.{ℕ, ◌≡◌, ◌↔◌, refl, String, List, [], ◌∷◌, none, some, Result, ok}
use boruna.Prelude.BTreeMap
use boruna.Prelude.BTreeSet
use boruna.Prelude.BTreeSet.{contains}
use boruna.Kahn.Loop.{insert_zero, increment, add_dependent, link, zero_degree, relax}
use boruna.Kahn.Waves.{insert_sorted, sort}
use boruna.Kahn.Complete.{IsOrder, IsRankedOn}
use boruna.Packages.Resolver.{
  PackageManifest, Lockfile, ResolutionResult, enter_packages, drain_sorted, sorted_order, complete,
  topological_sort, generate_lockfile, insert_caps, aggregate_from, aggregate_capabilities,
}
use boruna.Packages.Order.{package_ids, edges_of, topological_sort_lem}
use boruna.Packages.Locked.{locked_deps, manifest_deps, generate_lockfile_lem}

abbrev a_package : String → BTreeMap.BTreeMap String → List String → PackageManifest
a_package name deps caps = record {
  name = name;
  version = "1.0.0";
  description = "d";
  dependencies = deps;
  required_capabilities = caps;
  exposed_modules = "m" ∷ [];
  integrity = none;
}

abbrev app_on_lib : BTreeMap.BTreeMap PackageManifest
app_on_lib =
    ("app@1.0.0", a_package "app" (("lib", "1.0.0") ∷ []) ("net.fetch" ∷ []))
    ∷ ("lib@1.0.0", a_package "lib" [] ("fs.read" ∷ "net.fetch" ∷ []))
    ∷ []

lib_first : topological_sort app_on_lib ≡ ok ("lib@1.0.0" ∷ "app@1.0.0" ∷ [])
unfolding topological_sort complete sorted_order drain_sorted enter_packages link insert_zero
    increment add_dependent zero_degree relax sort insert_sorted BTreeMap.get BTreeMap.insert
lib_first = refl

abbrev AppOrder : Type 0
AppOrder = IsOrder (package_ids app_on_lib) (edges_of app_on_lib) ("lib@1.0.0" ∷ "app@1.0.0" ∷ [])

topological_sort_lem_example :
    (((order : List String) × (topological_sort app_on_lib ≡ ok order))
      ↔ ((rank : String → ℕ) × IsRankedOn rank (package_ids app_on_lib) (edges_of app_on_lib)))
    × ((order : List String)
        → topological_sort app_on_lib ≡ ok order
        → IsOrder (package_ids app_on_lib) (edges_of app_on_lib) order)
unfolding contains
topological_sort_lem_example =
    topological_sort_lem app_on_lib ((refl, tt), (tt, tt)) ((refl, refl), tt)

lib_first-IsOrder : AppOrder
lib_first-IsOrder = topological_sort_lem_example.1 ("lib@1.0.0" ∷ "app@1.0.0" ∷ []) lib_first

abbrev resolution : ResolutionResult
resolution = record { packages = app_on_lib; install_order = "lib@1.0.0" ∷ "app@1.0.0" ∷ [] }

generate_lockfile_lem_example :
    (outcome : Result Lockfile String) × (generate_lockfile (λ n v h. ok n) resolution
      ≡ some outcome)
    × ((lf : Lockfile)
        → outcome ≡ ok lf
        → (v : String)
        → locked_deps (BTreeMap.get v lf.resolved) ≡ manifest_deps (BTreeMap.get v app_on_lib))
generate_lockfile_lem_example = generate_lockfile_lem (λ n v h. ok n) resolution lib_first-IsOrder

both_capabilities : aggregate_capabilities resolution ≡ "fs.read" ∷ "net.fetch" ∷ []
unfolding aggregate_capabilities aggregate_from insert_caps BTreeSet.insert BTreeMap.values
both_capabilities = refl
