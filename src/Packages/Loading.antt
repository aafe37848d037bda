-- ===== src/Packages/Loading.antt =====
-- The resolver at a concrete registry: an application that depends on a library.
use mathlib.Core.Path.{subst}
use boruna.Prelude.{
  ◌≤◌, ◌⊎◌, inl, inr, Bool-cases, ◌≡◌, refl, arith, String, List, [], ◌∷◌, none, some, Result, ok,
  err, str_eq, all, length, if◌then◌else◌, true, false, map,
}
use boruna.Prelude.BTreeMap
use boruna.Prelude.BTreeSet.{contains}
use boruna.Packages.Resolver.{
  PackageManifest, ResolutionResult, dep_ids, enter_packages, drain_sorted, sorted_order, complete,
  topological_sort,
}
use boruna.Kahn.Loop.{insert_zero, increment, add_dependent, link, zero_degree, relax}
use boruna.Kahn.Waves.{insert_sorted, sort}
use boruna.Packages.Manifest.{
  codes, split_dots, parse_digits, is_u32, is_valid_semver, is_valid_part, is_valid_package_name,
  version_problems, capability_problems, validate,
}
use boruna.Packages.Resolve.{
  ResolveError, starts_with, ends_with, conflicts, existing_conflict, unresolved, accept,
  resolve_from, finish, finish_all, resolve,
}
use boruna.Packages.Resolution.{IsResolved}
use boruna.Packages.Returns.{Registry, resolve_lem}

abbrev a_package : String → BTreeMap.BTreeMap String → PackageManifest
a_package name deps = record {
  name = name;
  version = "1.0.0";
  description = "d";
  dependencies = deps;
  required_capabilities = [];
  exposed_modules = "m" ∷ [];
  integrity = none;
}

abbrev lib : PackageManifest
lib = a_package "lib" (("base", "1.0.0") ∷ [])

abbrev base : PackageManifest
base = a_package "base" []

abbrev app : PackageManifest
app = a_package "app" (("lib", "1.0.0") ∷ [])

abbrev two_packages : String → String → Result PackageManifest String
two_packages name version =
    if str_eq name "lib" then ok lib else if str_eq name "base" then ok base else err "not found"

abbrev two_ids : List String
two_ids = "lib@1.0.0" ∷ "base@1.0.0" ∷ []

two_packages_cases :
    (name version : String) (m : PackageManifest)
    → two_packages name version ≡ ok m
    → (lib ≡ m) ⊎ (base ≡ m)
two_packages_cases name version m h = elim (Bool-cases (str_eq name "lib")) [
  | inl e ↦ inl (cc)
  | inr e ↦ elim (Bool-cases (str_eq name "base")) [ inl f ↦ inr cc | inr f ↦ cc ]
]

two_packages-Registry : Registry two_packages two_ids 1
unfolding contains
two_packages-Registry name version m h = elim (two_packages_cases name version m h) [
  | inl e ↦ subst Small e (refl, ground arith)
  | inr e ↦ subst Small e (refl, ground arith)
]
  where
    Small : PackageManifest → Type 0
    Small p = (all (λ v. contains v two_ids) (dep_ids p) ≡ true) × (length p.dependencies ≤ 1)

resolve_lem_example :
    (result : Result ResolutionResult ResolveError) × ((resolve two_packages 4 app ≡ some result)
      × ((r : ResolutionResult) → result ≡ ok r → IsResolved two_packages app r))
unfolding contains
resolve_lem_example =
    resolve_lem two_packages two_ids 1 two_packages-Registry 4 app refl (ground arith)

base_first :
    resolve two_packages 4 app
    ≡ some (
        ok (record {
          packages = ("base@1.0.0", base) ∷ ("lib@1.0.0", lib) ∷ [];
          install_order = "base@1.0.0" ∷ "lib@1.0.0" ∷ [];
        }))
unfolding resolve finish_all finish resolve_from accept validate capability_problems
    version_problems is_valid_semver is_valid_package_name is_valid_part is_u32 split_dots codes
    parse_digits existing_conflict conflicts starts_with ends_with unresolved topological_sort
    complete sorted_order drain_sorted enter_packages link insert_zero increment add_dependent
    zero_degree relax sort insert_sorted BTreeMap.get BTreeMap.insert BTreeMap.keys
base_first = refl

-- `parse` takes a sign.
signed_accepted : is_valid_semver "1.+0.0" ≡ true
unfolding is_valid_semver is_u32 split_dots codes parse_digits
signed_accepted = refl

two_parts_refused : is_valid_semver "1.0" ≡ false
unfolding is_valid_semver is_u32 split_dots codes parse_digits
two_parts_refused = refl

names_tested :
    map is_valid_package_name ("std.json2" ∷ "" ∷ "a..b" ∷ "A" ∷ "2a" ∷ [])
    ≡ true ∷ false ∷ false ∷ false ∷ false ∷ []
unfolding is_valid_package_name is_valid_part split_dots codes
names_tested = refl
