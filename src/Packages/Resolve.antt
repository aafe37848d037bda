-- ===== src/Packages/Resolve.antt =====
-- packages/src/resolver/mod.rs: `resolve`. Loading a manifest from the registry is a parameter.
use Prim.Native.String.{◌++◌}
use mathlib.Core.List as List
use boruna.Prelude.{
  ℕ, zero, suc, String, Bool, true, false, not, ◌&&◌, ◌||◌, List, [], ◌∷◌, Option, none, some,
  Result, ok, err, ◌==◌, find, keep,
}
use boruna.Prelude.BTreeMap
use boruna.Prelude.BTreeMap.{BTreeMap, contains_key}
use boruna.Packages.Resolver.{PackageManifest, ResolutionResult, dep_id, topological_sort}
use boruna.Packages.Manifest.{codes, ManifestProblem, validate}

pub data ResolveError : Type 0 where
  load_failed : String → String → ResolveError
  invalid_package : String → List ManifestProblem → ResolveError
  version_conflict : String → String → ResolveError
  circular : String → ResolveError

-- `starts_with` and `ends_with`, on code points
unfoldable pub starts_with : List ℕ → List ℕ → Bool
starts_with s [] = true
starts_with [] (d ∷ t) = false
starts_with (c ∷ s) (d ∷ t) = c == d && starts_with s t

abbrev codes_eq : List ℕ → List ℕ → Bool
codes_eq [] [] = true
codes_eq (a ∷ s) (b ∷ t) = a == b && codes_eq s t
codes_eq _ _ = false

unfoldable pub ends_with : List ℕ → List ℕ → Bool
ends_with [] t = codes_eq [] t
ends_with (c ∷ s) t = codes_eq (c ∷ s) t || ends_with s t

-- the test of a resolved identifier against another version of a package
unfoldable pub conflicts : String × String → String → Bool
conflicts (name, version) existing =
    starts_with (codes existing) (codes (name ++ "@"))
    && not (ends_with (codes existing) (codes ("@" ++ version)))

unfoldable pub existing_conflict : String × String → BTreeMap PackageManifest → Option String
existing_conflict dep resolved = find (conflicts dep) (BTreeMap.keys resolved)

-- the dependencies that are not resolved yet
unfoldable pub unresolved :
    BTreeMap PackageManifest → List (String × String) → List (String × String)
unresolved resolved deps = keep (λ d. not (contains_key (dep_id d) resolved)) deps

module _ (load_manifest : String → String → Result PackageManifest String) where
  -- the tests of a package that is not resolved yet
  unfoldable pub accept :
      BTreeMap PackageManifest → String × String → Result PackageManifest ResolveError
  accept resolved dep = elim (load_manifest dep.0 dep.1) [
    | err e ↦ err (load_failed (dep_id dep) e)
    | ok m ↦ elim (validate m) [
      | p ∷ ps ↦ err (invalid_package (dep_id dep) (p ∷ ps))
      | [] ↦ elim (existing_conflict dep resolved) [
        | some existing ↦ err (version_conflict existing (dep_id dep))
        | none ↦ ok m
      ]
    ]
  ]

  -- the loop, on fuel; `none` is out of fuel
  unfoldable pub resolve_from :
      ℕ
      → List (String × String)
      → BTreeMap PackageManifest
      → Option (Result (BTreeMap PackageManifest) ResolveError)
  resolve_from zero queue resolved = none
  resolve_from (suc k) [] resolved = some (ok resolved)
  resolve_from (suc k) (dep ∷ queue) resolved = elim (contains_key (dep_id dep) resolved) [
    | true ↦ resolve_from k queue resolved
    | false ↦ elim (accept resolved dep) [
      | err e ↦ some (err e)
      | ok m ↦
          resolve_from k (List.◌++◌ queue (unresolved resolved m.dependencies))
            (BTreeMap.insert (dep_id dep) m resolved)
    ]
  ]

  unfoldable pub finish : BTreeMap PackageManifest → Result ResolutionResult ResolveError
  finish packages = elim (topological_sort packages) [
    | err e ↦ err (circular e)
    | ok order ↦ ok (record { packages = packages; install_order = order })
  ]

  unfoldable pub finish_all :
      Option (Result (BTreeMap PackageManifest) ResolveError)
      → Option (Result ResolutionResult ResolveError)
  finish_all none = none
  finish_all (some (err e)) = some (err e)
  finish_all (some (ok packages)) = some (finish packages)

  unfoldable pub resolve : ℕ → PackageManifest → Option (Result ResolutionResult ResolveError)
  resolve fuel root = finish_all (resolve_from fuel root.dependencies [])
