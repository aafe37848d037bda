-- ===== src/Packages/Locked.antt =====
-- packages/src/resolver/mod.rs: what `generate_lockfile` locks, and `aggregate_capabilities`.
use boruna.Prelude.{
  ◌≡◌, refl, sym, ap, ◌∙◌, String, true, ◌||◌, List, [], ◌∷◌, Option, none, some, Result, ok, err,
  arith, eq_iff, any, if◌then◌else◌, Option-cases, Result-cases, inl, inr,
}
use boruna.Prelude.BTreeMap
use boruna.Prelude.BTreeMap.{BTreeMap, get-insert}
use boruna.Prelude.BTreeSet
use boruna.Prelude.BTreeSet.{contains, contains-insert}
use boruna.Kahn.Sound.{is_none-get}
use boruna.Kahn.Complete.{IsOrder}
use boruna.Packages.Resolver.{
  PackageManifest, ResolvedPackage, Lockfile, ResolutionResult, dep_hashes, lock_all,
  generate_lockfile, insert_caps, aggregate_from, aggregate_capabilities,
}
use boruna.Packages.Order.{package_ids, edges_of}

-- the dependencies of a locked package, and of a manifest
abbrev pub locked_deps : Option ResolvedPackage → Option (BTreeMap String)
locked_deps none = none
locked_deps (some p) = some p.dependencies

abbrev pub manifest_deps : Option PackageManifest → Option (BTreeMap String)
manifest_deps none = none
manifest_deps (some m) = some m.dependencies

module _ (content_hash : String → String → BTreeMap String → Result String String)
    (packages : BTreeMap PackageManifest) where
  -- the outcome of the loop, which is no panic
  pub record Locks (order : List String) (before : Lockfile) (run : Option (Result Lockfile String))
      : Type 0 where
    pub outcome : Result Lockfile String
    pub no_panic : run ≡ some outcome
    pub locked :
        (lf : Lockfile)
        → outcome ≡ ok lf
        → (v : String)
        → locked_deps (BTreeMap.get v lf.resolved) ≡ (
            if contains v order
            then manifest_deps (BTreeMap.get v packages)
            else locked_deps (BTreeMap.get v before.resolved))

  lock_all-Locks :
      (order : List String) (cache : BTreeMap String) (lf : Lockfile)
      → ((v : String) → contains v order ≡ true → contains v (package_ids packages) ≡ true)
      → Locks order lf (lock_all content_hash packages order cache lf)
  unfolding lock_all contains
  lock_all-Locks [] cache lf h = record {
    outcome = ok lf;
    no_panic = refl;
    locked = λ lf' e v.
        let same : lf ≡ lf' = cc in
        ap (λ (l : Lockfile). locked_deps (BTreeMap.get v l.resolved)) (sym same);
  }
  lock_all-Locks (id ∷ rest) cache lf h = elim (Option-cases (BTreeMap.get id packages)) [
    | inl absent ↦ absurd (ground (arith, h id, eq_iff id id, is_none-get id packages, absent))
    | inr (m, found) ↦
        elim (Result-cases (content_hash m.name m.version (dep_hashes cache m.dependencies []))) [
          | inr (e, failed) ↦
              rw (found, failed, lock_all)
                (record { outcome = err e; no_panic = refl; locked = λ lf' bad v. cc })
          | inl (hash, hashed) ↦
              let entry : ResolvedPackage = record {
                integrity = hash;
                dependencies = m.dependencies;
              } in
              let later =
                lock_all-Locks rest (BTreeMap.insert id hash cache)
                  (record lf { resolved = BTreeMap.insert id entry lf.resolved })
                  (λ v k. h v (ground (arith, k))) in
              rw (found, hashed, lock_all)
                (record {
                  outcome = later.outcome;
                  no_panic = later.no_panic;
                  locked = λ lf' e v.
                      later.locked lf' e v
                      ∙ ground (arith, get-insert id v entry lf.resolved, eq_iff id v, found);
                })
        ]
  ]

-- In an order of the packages `generate_lockfile` does not panic, and the lockfile that it returns has
-- exactly the packages, each with the dependencies of its manifest.
pub generate_lockfile_lem :
    (content_hash : String → String → BTreeMap String → Result String String) (r : ResolutionResult)
    → IsOrder (package_ids r.packages) (edges_of r.packages) r.install_order
    → (outcome : Result Lockfile String) × (generate_lockfile content_hash r ≡ some outcome)
      × ((lf : Lockfile)
          → outcome ≡ ok lf
          → (v : String)
          → locked_deps (BTreeMap.get v lf.resolved) ≡ manifest_deps (BTreeMap.get v r.packages))
unfolding generate_lockfile BTreeMap.get
generate_lockfile_lem content_hash r o =
    let locks =
      lock_all-Locks content_hash r.packages r.install_order []
        (record { lockfile_version = 1; resolved = [] }) (λ v h. sym (o.members v) ∙ h) in
    (
      locks.outcome,
      locks.no_panic,
      λ lf e v. locks.locked lf e v ∙ ground (arith, o.members v, is_none-get v r.packages),
    )

contains-insert_caps :
    (v : String) (cs caps : List String)
    → contains v (insert_caps cs caps) ≡ (contains v cs || contains v caps)
unfolding insert_caps contains
contains-insert_caps v [] caps = refl
contains-insert_caps v (c ∷ cs) caps =
    contains-insert_caps v cs (BTreeSet.insert c caps) ∙ ground (arith, contains-insert c v caps)

contains-aggregate_from :
    (v : String) (ms : List PackageManifest) (caps : List String)
    → contains v (aggregate_from ms caps)
      ≡ (any (λ m. contains v m.required_capabilities) ms || contains v caps)
unfolding aggregate_from
contains-aggregate_from v [] caps = refl
contains-aggregate_from v (m ∷ ms) caps =
    contains-aggregate_from v ms (insert_caps m.required_capabilities caps)
    ∙ ground (arith, contains-insert_caps v m.required_capabilities caps)

-- A capability is aggregated exactly if some package requires it.
contains-aggregate_capabilities :
    (r : ResolutionResult) (v : String)
    → contains v (aggregate_capabilities r)
      ≡ any (λ m. contains v m.required_capabilities) (BTreeMap.values r.packages)
unfolding aggregate_capabilities contains
contains-aggregate_capabilities r v =
    contains-aggregate_from v (BTreeMap.values r.packages) [] ∙ ground arith
