-- ===== src/Packages/Resolver.antt =====
-- packages/src/spec/mod.rs: manifests and lockfiles; packages/src/resolver/mod.rs: `topological_sort`,
-- `generate_lockfile` and `aggregate_capabilities`. The hash of a package's directory is a parameter.
use Prim.Native.String.{◌++◌}
use boruna.Prelude.{
  ℕ, zero, suc, String, List, [], ◌∷◌, Option, none, some, Result, ok, err, length, push, ◌==◌,
  if◌then◌else◌, map, unwrap_or,
}
use mathlib.Core.List as List
use boruna.Prelude.BTreeMap
use boruna.Prelude.BTreeMap.{BTreeMap, contains_key}
use boruna.Prelude.BTreeSet
use boruna.Prelude.BTreeSet.{BTreeSet}
use boruna.Kahn.Loop.{Degrees, Dependents, insert_zero, link, zero_degree, relax}
use boruna.Kahn.Waves.{sort}

pub record PackageManifest : Type 0 where
  pub name : String
  pub version : String
  pub description : String
  pub dependencies : BTreeMap String
  pub required_capabilities : List String
  pub exposed_modules : List String
  pub integrity : Option String

pub record ResolvedPackage : Type 0 where
  pub integrity : String
  pub dependencies : BTreeMap String

pub record Lockfile : Type 0 where
  pub lockfile_version : ℕ
  pub resolved : BTreeMap ResolvedPackage

pub record ResolutionResult : Type 0 where
  pub packages : BTreeMap PackageManifest
  pub install_order : List String

-- `format!("{dep_name}@{dep_ver}")`
abbrev pub dep_id : String × String → String
dep_id (name, version) = name ++ ("@" ++ version)

abbrev pub dep_ids : PackageManifest → List String
dep_ids m = map dep_id m.dependencies

-- The first loop of `topological_sort`. The degrees are a `HashMap`, of which only a sorted list of keys is
-- used.
unfoldable pub enter_packages :
    BTreeMap PackageManifest → Dependents → Degrees → Dependents × Degrees
enter_packages [] ds deg = (ds, deg)
enter_packages ((id, m) ∷ rest) ds deg =
    let (ds', deg') = link id (dep_ids m) ds (insert_zero id deg) in enter_packages rest ds' deg'

-- the main loop, on fuel: the nodes that a step frees are sorted before they are queued
unfoldable pub drain_sorted : ℕ → Dependents → Degrees → List String → List String → List String
drain_sorted zero ds deg queue order = order
drain_sorted (suc k) ds deg [] order = order
drain_sorted (suc k) ds deg (id ∷ queue) order =
    let (deg', next) = relax (unwrap_or [] (BTreeMap.get id ds)) deg [] in
    drain_sorted k ds deg' (List.◌++◌ queue (sort next)) (push order id)

unfoldable pub sorted_order : Dependents → Degrees → List String
unfolding drain_sorted sort zero_degree
sorted_order ds deg = drain_sorted (suc (length deg)) ds deg (sort (zero_degree deg)) []

unfoldable pub complete : List String → ℕ → Result (List String) String
complete order total =
    if length order == total then ok order else err "circular dependency detected"

unfoldable pub topological_sort : BTreeMap PackageManifest → Result (List String) String
topological_sort packages =
    let (ds, deg) = enter_packages packages [] [] in
    complete (sorted_order ds deg) (length packages)

-- the loop over the dependencies in `generate_lockfile`: dependencies with no hash are passed over
unfoldable pub dep_hashes :
    BTreeMap String → List (String × String) → BTreeMap String → BTreeMap String
dep_hashes cache [] hashes = hashes
dep_hashes cache (dep ∷ rest) hashes = elim (BTreeMap.get (dep_id dep) cache) [
  | none ↦ dep_hashes cache rest hashes
  | some h ↦ dep_hashes cache rest (BTreeMap.insert dep.0 h hashes)
]

-- `compute_content_hash(package_dir(name, version), dep_hashes)` is the parameter. `none` is the panic of
-- `result.packages[pkg_id]` on an absent key.
module _ (content_hash : String → String → BTreeMap String → Result String String) where
  unfoldable pub lock_all :
      BTreeMap PackageManifest
      → List String
      → BTreeMap String
      → Lockfile
      → Option (Result Lockfile String)
  lock_all packages [] cache lockfile = some (ok lockfile)
  lock_all packages (id ∷ rest) cache lockfile = elim (BTreeMap.get id packages) [
    | none ↦ none
    | some m ↦ elim (content_hash m.name m.version (dep_hashes cache m.dependencies [])) [
      | err e ↦ some (err e)
      | ok h ↦ lock_all packages rest (BTreeMap.insert id h cache) (record lockfile {
        resolved =
            BTreeMap.insert id (record { integrity = h; dependencies = m.dependencies })
              lockfile.resolved;
      })
    ]
  ]

  unfoldable pub generate_lockfile : ResolutionResult → Option (Result Lockfile String)
  generate_lockfile r =
      lock_all r.packages r.install_order [] (record { lockfile_version = 1; resolved = [] })

unfoldable pub insert_caps : List String → BTreeSet → BTreeSet
insert_caps [] caps = caps
insert_caps (c ∷ rest) caps = insert_caps rest (BTreeSet.insert c caps)

unfoldable pub aggregate_from : List PackageManifest → BTreeSet → BTreeSet
aggregate_from [] caps = caps
aggregate_from (m ∷ rest) caps = aggregate_from rest (insert_caps m.required_capabilities caps)

unfoldable pub aggregate_capabilities : ResolutionResult → List String
aggregate_capabilities r = aggregate_from (BTreeMap.values r.packages) []
