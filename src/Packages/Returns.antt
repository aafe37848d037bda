-- ===== src/Packages/Returns.antt =====
-- packages/src/resolver/mod.rs: `resolve` returns when the registry is finite.
use native.Mathlib.Nat
use boruna.Prelude.{
  ℕ, zero, suc, ◌+◌, ◌*◌, ◌≤◌, ◌<◌, ◌≡◌, refl, ap, ◌∙◌, String, Bool, true, false, List, [], ◌∷◌,
  ◌++◌, some, Result, ok, err, arith, map, eq_iff, all, length, length-append, if◌then◌else◌,
  Bool-cases, Result-cases, inl, inr,
}
use boruna.Prelude.BTreeMap
use boruna.Prelude.BTreeMap.{BTreeMap, contains_key, get-insert}
use boruna.Prelude.BTreeSet.{contains}
use boruna.Packages.Resolver.{PackageManifest, ResolutionResult, dep_id, dep_ids}
use boruna.Packages.Resolve.{
  ResolveError, unresolved, accept, resolve_from, finish, finish_all, resolve,
}
use boruna.Packages.Closure.{resolve_from_known, resolve_from_err, resolve_from_added}
use boruna.Packages.Resolution.{IsResolved, resolve-IsResolved}

-- the room for the dependencies of the packages that are not resolved yet
abbrev room : ℕ → List String → BTreeMap PackageManifest → ℕ
room d [] resolved = 0
room d (u ∷ us) resolved =
    let rest = room d us resolved in if contains_key u resolved then rest else d + rest

room-empty : (d : ℕ) (us : List String) → room d us [] ≡ d * length us
unfolding BTreeMap.get
room-empty d [] = ground (arith, Nat.mul-zero d)
room-empty d (u ∷ us) = ground (arith, Nat.mul-suc d (length us), room-empty d us)

room-insert_le :
    (d : ℕ) (us : List String) (id : String) (m : PackageManifest)
    (resolved : BTreeMap PackageManifest)
    → room d us (BTreeMap.insert id m resolved) ≤ room d us resolved
room-insert_le d [] id m resolved = ground arith
room-insert_le d (u ∷ us) id m resolved =
    ground (arith, get-insert id u m resolved, room-insert_le d us id m resolved)

room-insert :
    (d : ℕ) (us : List String) (id : String) (m : PackageManifest)
    (resolved : BTreeMap PackageManifest)
    → contains id us ≡ true
    → contains_key id resolved ≡ false
    → room d us (BTreeMap.insert id m resolved) + d ≤ room d us resolved
unfolding contains
room-insert d [] id m resolved c n = cc
room-insert d (u ∷ us) id m resolved c n = ground (
  arith,
  eq_iff u id,
  get-insert id u m resolved,
  room-insert_le d us id m resolved,
  room-insert d us id m resolved,
)

all_within_append :
    (p : String → Bool) (xs ys : List (String × String))
    → all p (map dep_id xs) ≡ true
    → all p (map dep_id ys) ≡ true
    → all p (map dep_id (xs ++ ys)) ≡ true
all_within_append p [] ys h k = k
all_within_append p (x ∷ xs) ys h k = ground (arith, all_within_append p xs ys)

all-unresolved :
    (p : String → Bool) (resolved : BTreeMap PackageManifest) (deps : List (String × String))
    → all p (map dep_id deps) ≡ true
    → all p (map dep_id (unresolved resolved deps)) ≡ true
unfolding unresolved
all-unresolved p resolved [] h = refl
all-unresolved p resolved (d ∷ deps) h = ground (arith, all-unresolved p resolved deps)

length-unresolved :
    (resolved : BTreeMap PackageManifest) (deps : List (String × String))
    → length (unresolved resolved deps) ≤ length deps
unfolding unresolved
length-unresolved resolved [] = ground arith
length-unresolved resolved (d ∷ deps) = ground (arith, length-unresolved resolved deps)

module _ (load_manifest : String → String → Result PackageManifest String) where
  -- the dependencies of every package of the registry are among `universe`, at most `d` of them
  abbrev pub Registry : List String → ℕ → Type 0
  Registry universe d =
      (name version : String) (m : PackageManifest)
      → load_manifest name version ≡ ok m
      → (all (λ v. contains v universe) (dep_ids m) ≡ true) × (length m.dependencies ≤ d)

  accept_loads :
      (resolved : BTreeMap PackageManifest) (dep : String × String) (m : PackageManifest)
      → accept load_manifest resolved dep ≡ ok m
      → load_manifest dep.0 dep.1 ≡ ok m
  unfolding accept
  accept_loads resolved dep m h = ground arith

  -- the fuel that is left when a package is added
  fits :
      (universe : List String) (d k : ℕ) (dep : String × String) (queue : List (String × String))
      (resolved : BTreeMap PackageManifest) (m : PackageManifest)
      → contains (dep_id dep) universe ≡ true
      → contains_key (dep_id dep) resolved ≡ false
      → length m.dependencies ≤ d
      → suc (length queue) + room d universe resolved < suc k
      → length (queue ++ unresolved resolved m.dependencies)
          + room d universe (BTreeMap.insert (dep_id dep) m resolved)
        < k
  fits universe d k dep queue resolved m c n l f = grind (
    arith,
    length-append queue (unresolved resolved m.dependencies),
    length-unresolved resolved m.dependencies,
    room-insert d universe (dep_id dep) m resolved c n,
  )

  resolve_from_returns :
      (universe : List String) (d : ℕ)
      → Registry universe d
      → (k : ℕ) (queue : List (String × String)) (resolved : BTreeMap PackageManifest)
      → all (λ v. contains v universe) (map dep_id queue) ≡ true
      → length queue + room d universe resolved < k
      → (out : Result (BTreeMap PackageManifest) ResolveError) × (resolve_from load_manifest k queue
            resolved
          ≡ some out)
  unfolding resolve_from
  resolve_from_returns universe d reg zero queue resolved w f = ground arith
  resolve_from_returns universe d reg (suc k) [] resolved w f = (ok resolved, refl)
  resolve_from_returns universe d reg (suc k) (dep ∷ queue) resolved w f =
      elim (Bool-cases (contains_key (dep_id dep) resolved)) [
        | inl e ↦
            let (out, ran) =
              resolve_from_returns universe d reg k queue resolved (ground (arith, w))
                (ground (arith, f)) in
            (out, resolve_from_known load_manifest k dep queue resolved e ∙ ran)
        | inr e ↦ elim (Result-cases (accept load_manifest resolved dep)) [
          | inl (m, a) ↦
              let (out, ran) =
                resolve_from_returns universe d reg k (queue ++ unresolved resolved m.dependencies)
                  (BTreeMap.insert (dep_id dep) m resolved)
                  (all_within_append (λ v. contains v universe) queue
                    (unresolved resolved m.dependencies) (ground (arith, w))
                    (all-unresolved (λ v. contains v universe) resolved m.dependencies
                      (reg dep.0 dep.1 m (accept_loads resolved dep m a)).0))
                  (fits universe d k dep queue resolved m (ground (arith, w)) e
                    (reg dep.0 dep.1 m (accept_loads resolved dep m a)).1 f) in
              (out, resolve_from_added load_manifest k dep queue resolved m e a ∙ ran)
          | inr (x, a) ↦ (err x, resolve_from_err load_manifest k dep queue resolved x e a)
        ]
      ]

  finish_all-some :
      (out : Result (BTreeMap PackageManifest) ResolveError)
      → (result : Result ResolutionResult ResolveError) × (finish_all load_manifest (some out)
          ≡ some result)
  unfolding finish_all
  finish_all-some (err e) = (err e, refl)
  finish_all-some (ok packages) = (finish load_manifest packages, refl)

  -- When the dependencies of every package that the registry loads are among `universe`, at most
  -- `d` of them, and so are those of the root: with fuel above the number of the root's
  -- dependencies and `d` for every one of `universe`, `resolve` returns; and if it returns a resolution, every
  -- dependency of the root is in it, every dependency of a package in it is in it, and the
  -- install order has every package once, after its dependencies.
  pub resolve_lem :
      (universe : List String) (d : ℕ)
      → Registry universe d
      → (fuel : ℕ) (root : PackageManifest) → all (λ v. contains v universe) (dep_ids root) ≡ true
      → length root.dependencies + d * length universe < fuel
      → (result : Result ResolutionResult ResolveError) × ((resolve load_manifest fuel root
            ≡ some result)
          × ((r : ResolutionResult) → result ≡ ok r → IsResolved load_manifest root r))
  unfolding resolve
  resolve_lem universe d reg fuel root w f =
      let (out, ran) =
        resolve_from_returns universe d reg fuel root.dependencies [] w
          (ground (arith, room-empty d universe)) in
      let (result, finished) = finish_all-some out in
      let returned : resolve load_manifest fuel root ≡ some result =
        ap (finish_all load_manifest) ran ∙ finished in
      (
        result,
        (returned, λ r h. resolve-IsResolved load_manifest fuel root r (returned ∙ ap some h)),
      )
