-- ===== src/Packages/Resolution.antt =====
-- packages/src/resolver/mod.rs: what `resolve` returns, and that it returns.
use mathlib.Core.Path.{subst}
use boruna.Prelude.{
  ℕ, ◌≡◌, refl, sym, ◌∙◌, String, Bool, true, List, [], ◌∷◌, ◌++◌, Option, none, some, Result, ok,
  err, arith, eq_iff, all, Result-cases, inl, inr,
}
use boruna.Prelude.BTreeMap.{BTreeMap, contains_key}
use boruna.Prelude.BTreeSet.{contains}
use boruna.Kahn.Loop.{Edge}
use boruna.Kahn.Sound.{is_none-get}
use boruna.Kahn.Complete.{IsOrder}
use boruna.Kahn.Rank.{EdgesWithin}
use boruna.Kahn.Building.{edges_to}
use boruna.Packages.Resolver.{PackageManifest, ResolutionResult, dep_ids, topological_sort}
use boruna.Packages.Resolve.{ResolveError, circular, resolve_from, finish, finish_all, resolve}
use boruna.Packages.Order.{package_ids, edges_of, topological_sort_lem}
use boruna.Packages.Closure.{ClosedBy, IsClosed, resolve_from-IsClosed}

within_append :
    (ids : List String) (es fs : List Edge)
    → EdgesWithin ids es
    → EdgesWithin ids fs
    → EdgesWithin ids (es ++ fs)
within_append ids [] fs v w = w
within_append ids (e ∷ es) fs v w = (v.0, within_append ids es fs v.1 w)

within_edges_to :
    (ids : List String) (id : String) (deps : List String)
    → contains id ids ≡ true
    → all (λ v. contains v ids) deps ≡ true
    → EdgesWithin ids (edges_to id deps)
within_edges_to ids id [] h a = tt
within_edges_to ids id (d ∷ deps) h a =
    ((ground (arith, a), h), within_edges_to ids id deps h (ground (arith, a)))

all_same :
    (p q : String → Bool) (xs : List String) → ((v : String) → p v ≡ q v) → all p xs ≡ all q xs
all_same p q [] f = refl
all_same p q (x ∷ xs) f = ground (arith, f x, all_same p q xs f)

key_is_id :
    (packages : BTreeMap PackageManifest) (v : String)
    → contains_key v packages ≡ contains v (package_ids packages)
key_is_id packages v = ground (arith, is_none-get v packages)

within_edges_of :
    (packages rest : BTreeMap PackageManifest)
    → ((v : String)
        → contains v (package_ids rest) ≡ true
        → contains v (package_ids packages) ≡ true)
    → ClosedBy (λ v. contains_key v packages) rest
    → EdgesWithin (package_ids packages) (edges_of rest)
unfolding contains
within_edges_of packages [] f c = tt
within_edges_of packages ((id, m) ∷ rest) f c =
    within_append (package_ids packages) (edges_to id (dep_ids m)) (edges_of rest)
      (within_edges_to (package_ids packages) id (dep_ids m) (f id (ground (arith, eq_iff id id))) (
        sym (
          all_same (λ v. contains_key v packages) (λ v. contains v (package_ids packages))
            (dep_ids m) (key_is_id packages))
        ∙ c.0))
      (within_edges_of packages rest (λ v h. f v (ground (arith, h))) c.1)

module _ (load_manifest : String → String → Result PackageManifest String) where
  abbrev pub IsResolved : PackageManifest → ResolutionResult → Type 0
  IsResolved root r =
      ((v : String) → contains v (dep_ids root) ≡ true → contains_key v r.packages ≡ true)
      × (ClosedBy (λ v. contains_key v r.packages) r.packages
          × IsOrder (package_ids r.packages) (edges_of r.packages) r.install_order)

  finish_ok :
      (packages : BTreeMap PackageManifest) (order : List String)
      → topological_sort packages ≡ ok order
      → finish load_manifest packages ≡ ok (record { packages = packages; install_order = order })
  unfolding finish
  finish_ok packages order h = ground arith

  finish_err :
      (packages : BTreeMap PackageManifest) (e : String)
      → topological_sort packages ≡ err e
      → finish load_manifest packages ≡ err (circular e)
  unfolding finish
  finish_err packages e h = ground arith

  finish_lem :
      (root : PackageManifest) (packages : BTreeMap PackageManifest) (r : ResolutionResult)
      → IsClosed load_manifest root.dependencies [] packages
      → finish load_manifest packages ≡ ok r
      → IsResolved root r
  finish_lem root packages r c h = elim (Result-cases (topological_sort packages)) [
    | inl (order, e) ↦
        let same : record { packages = packages; install_order = order } ≡ r =
          ok_inj (sym (finish_ok packages order e) ∙ h) in
        subst (IsResolved root) same (
          (λ v n. c.asked v (ground (arith, n))),
          (
            c.closed,
            (topological_sort_lem packages c.sorted
                  (within_edges_of packages packages (λ v n. n) c.closed)).1
                order e,
          ),
        )
    | inr (e, f) ↦ let bad : err (circular e) ≡ ok r = sym (finish_err packages e f) ∙ h in cc
  ]
    where
      ok_inj :
          {a b : ResolutionResult}
          → ◌≡◌ {A = Result ResolutionResult ResolveError} (ok a) (ok b)
          → a ≡ b
      ok_inj h = cc

  finish_all_ok :
      (root : PackageManifest) (out : Option (Result (BTreeMap PackageManifest) ResolveError))
      (r : ResolutionResult)
      → finish_all load_manifest out ≡ some (ok r)
      → (packages : BTreeMap PackageManifest) × ((out ≡ some (ok packages))
          × (finish load_manifest packages ≡ ok r))
  unfolding finish_all
  finish_all_ok root none r h = cc
  finish_all_ok root (some (err e)) r h = cc
  finish_all_ok root (some (ok packages)) r h = (packages, (refl, cc))

  pub resolve-IsResolved :
      (fuel : ℕ) (root : PackageManifest) (r : ResolutionResult)
      → resolve load_manifest fuel root ≡ some (ok r)
      → IsResolved root r
  unfolding resolve
  resolve-IsResolved fuel root r h =
      let (packages, (ran, finished)) =
        finish_all_ok root (resolve_from load_manifest fuel root.dependencies []) r h in
      finish_lem root packages r
        (resolve_from-IsClosed load_manifest fuel root.dependencies [] packages tt tt ran) finished
