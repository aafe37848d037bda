-- ===== src/Packages/Closure.antt =====
-- packages/src/resolver/mod.rs: the packages that `resolve` returns are closed under dependencies.
use mathlib.Core.Path.{subst}
use boruna.Prelude.{
  ℕ, zero, suc, ◌≡◌, refl, sym, ◌∙◌, String, Bool, true, false, ◌||◌, List, [], ◌∷◌, ◌++◌, some,
  Result, ok, err, arith, map, eq_iff, all, Bool-cases, Result-cases, inl, inr,
}
use boruna.Prelude.BTreeMap
use boruna.Prelude.BTreeMap.{BTreeMap, contains_key, get-insert}
use boruna.Prelude.BTreeSet.{contains}
use boruna.Prelude.SortedMap.{IsSorted, IsSorted-insert}
use boruna.Packages.Resolver.{PackageManifest, dep_id, dep_ids}
use boruna.Packages.Resolve.{ResolveError, unresolved, accept, resolve_from}

-- every dependency of every package passes a test
abbrev pub ClosedBy : (String → Bool) → BTreeMap PackageManifest → Type 0
ClosedBy p [] = Unit
ClosedBy p ((id, m) ∷ rest) = (all p (dep_ids m) ≡ true) × ClosedBy p rest

-- resolved, or in the queue
abbrev pub covered : BTreeMap PackageManifest → List (String × String) → String → Bool
covered resolved queue v = contains_key v resolved || contains v (map dep_id queue)

all-imp :
    (p q : String → Bool) (xs : List String)
    → ((v : String) → p v ≡ true → q v ≡ true)
    → all p xs ≡ true
    → all q xs ≡ true
all-imp p q [] f h = refl
all-imp p q (x ∷ xs) f h = ground (arith, f x, all-imp p q xs f)

all_of_contains :
    (p : String → Bool) (xs : List String)
    → ((v : String) → contains v xs ≡ true → p v ≡ true)
    → all p xs ≡ true
unfolding contains
all_of_contains p [] f = refl
all_of_contains p (x ∷ xs) f =
    ground (arith, f x, eq_iff x x, all_of_contains p xs (λ v h. f v (ground (arith, h))))

ClosedBy-imp :
    (p q : String → Bool) (r : BTreeMap PackageManifest)
    → ((v : String) → p v ≡ true → q v ≡ true)
    → ClosedBy p r
    → ClosedBy q r
ClosedBy-imp p q [] f c = tt
ClosedBy-imp p q ((id, m) ∷ rest) f c = (all-imp p q (dep_ids m) f c.0, ClosedBy-imp p q rest f c.1)

ClosedBy-insert :
    (p : String → Bool) (id : String) (m : PackageManifest) (r : BTreeMap PackageManifest)
    → all p (dep_ids m) ≡ true
    → ClosedBy p r
    → ClosedBy p (BTreeMap.insert id m r)
unfolding BTreeMap.insert
ClosedBy-insert p id m [] h c = (h, tt)
ClosedBy-insert p id m ((j, n) ∷ r) h c = ground (arith, ClosedBy-insert p id m r)

contains-map_append :
    (v : String) (xs ys : List (String × String))
    → contains v (map dep_id (xs ++ ys))
      ≡ (contains v (map dep_id xs) || contains v (map dep_id ys))
unfolding contains
contains-map_append v [] ys = refl
contains-map_append v (x ∷ xs) ys = ground (arith, contains-map_append v xs ys)

contains-unresolved :
    (resolved : BTreeMap PackageManifest) (v : String) (deps : List (String × String))
    → contains v (map dep_id deps) ≡ true
    → covered resolved (unresolved resolved deps) v ≡ true
unfolding contains unresolved
contains-unresolved resolved v [] h = cc
contains-unresolved resolved v (d ∷ deps) h =
    ground (arith, eq_iff (dep_id d) v, contains-unresolved resolved v deps)

module _ (load_manifest : String → String → Result PackageManifest String) where
  -- what the loop returns
  pub record IsClosed (queue : List (String × String)) (before packages : BTreeMap PackageManifest)
      : Type 0 where
    pub sorted : IsSorted packages
    pub closed : ClosedBy (λ v. contains_key v packages) packages
    pub asked : (v : String) → covered before queue v ≡ true → contains_key v packages ≡ true

  grow :
      (dep : String × String) (m : PackageManifest) (queue : List (String × String))
      (resolved : BTreeMap PackageManifest) (v : String)
      → covered resolved (dep ∷ queue) v ≡ true
      → covered
          (BTreeMap.insert (dep_id dep) m resolved)
          (queue ++ unresolved resolved m.dependencies)
          v
        ≡ true
  unfolding contains
  grow dep m queue resolved v h = ground (
    arith,
    get-insert (dep_id dep) v m resolved,
    contains-map_append v queue (unresolved resolved m.dependencies),
  )

  closed_self :
      (resolved : BTreeMap PackageManifest)
      → IsSorted resolved
      → ClosedBy (covered resolved []) resolved
      → IsClosed [] resolved resolved
  unfolding contains
  closed_self resolved s c = record {
    sorted = s;
    closed =
        ClosedBy-imp (covered resolved []) (λ v. contains_key v resolved) resolved
          (λ v h. ground (arith, h)) c;
    asked = λ v h. ground (arith, h);
  }

  known_covered :
      (dep : String × String) (queue : List (String × String)) (resolved : BTreeMap PackageManifest)
      → contains_key (dep_id dep) resolved ≡ true
      → (v : String) → covered resolved (dep ∷ queue) v ≡ true
      → covered resolved queue v ≡ true
  unfolding contains
  known_covered dep queue resolved e v h = ground (arith, eq_iff (dep_id dep) v)

  known :
      (dep : String × String) (queue : List (String × String))
      (resolved packages : BTreeMap PackageManifest)
      → contains_key (dep_id dep) resolved ≡ true
      → IsClosed queue resolved packages
      → IsClosed (dep ∷ queue) resolved packages
  known dep queue resolved packages e r = record {
    sorted = r.sorted;
    closed = r.closed;
    asked = λ v h. r.asked v (known_covered dep queue resolved e v h);
  }

  added :
      (dep : String × String) (m : PackageManifest) (queue : List (String × String))
      (resolved packages : BTreeMap PackageManifest)
      → IsClosed
          (queue ++ unresolved resolved m.dependencies)
          (BTreeMap.insert (dep_id dep) m resolved)
          packages
      → IsClosed (dep ∷ queue) resolved packages
  added dep m queue resolved packages r = record {
    sorted = r.sorted;
    closed = r.closed;
    asked = λ v h. r.asked v (grow dep m queue resolved v h);
  }

  pub resolve_from_known :
      (k : ℕ) (dep : String × String) (queue : List (String × String))
      (resolved : BTreeMap PackageManifest)
      → contains_key (dep_id dep) resolved ≡ true
      → resolve_from load_manifest (suc k) (dep ∷ queue) resolved
        ≡ resolve_from load_manifest k queue resolved
  unfolding resolve_from
  resolve_from_known k dep queue resolved e = ground arith

  pub resolve_from_err :
      (k : ℕ) (dep : String × String) (queue : List (String × String))
      (resolved : BTreeMap PackageManifest) (x : ResolveError)
      → contains_key (dep_id dep) resolved ≡ false
      → accept load_manifest resolved dep ≡ err x
      → resolve_from load_manifest (suc k) (dep ∷ queue) resolved ≡ some (err x)
  unfolding resolve_from
  resolve_from_err k dep queue resolved x e a = ground arith

  pub resolve_from_added :
      (k : ℕ) (dep : String × String) (queue : List (String × String))
      (resolved : BTreeMap PackageManifest) (m : PackageManifest)
      → contains_key (dep_id dep) resolved ≡ false
      → accept load_manifest resolved dep ≡ ok m
      → resolve_from load_manifest (suc k) (dep ∷ queue) resolved
        ≡ resolve_from load_manifest k
            (queue ++ unresolved resolved m.dependencies)
            (BTreeMap.insert (dep_id dep) m resolved)
  unfolding resolve_from
  resolve_from_added k dep queue resolved m e a = ground arith

  new_covered :
      (dep : String × String) (m : PackageManifest) (queue : List (String × String))
      (resolved : BTreeMap PackageManifest) (v : String)
      → contains v (dep_ids m) ≡ true
      → covered
          (BTreeMap.insert (dep_id dep) m resolved)
          (queue ++ unresolved resolved m.dependencies)
          v
        ≡ true
  unfolding contains
  new_covered dep m queue resolved v h = ground (
    arith,
    get-insert (dep_id dep) v m resolved,
    contains-map_append v queue (unresolved resolved m.dependencies),
    contains-unresolved resolved v m.dependencies,
  )

  still_closed :
      (dep : String × String) (m : PackageManifest) (queue : List (String × String))
      (resolved : BTreeMap PackageManifest)
      → ClosedBy (covered resolved (dep ∷ queue)) resolved
      → ClosedBy
          (covered
            (BTreeMap.insert (dep_id dep) m resolved)
            (queue ++ unresolved resolved m.dependencies))
          (BTreeMap.insert (dep_id dep) m resolved)
  still_closed dep m queue resolved c =
      let p : String → Bool =
        covered (BTreeMap.insert (dep_id dep) m resolved)
          (queue ++ unresolved resolved m.dependencies) in
      ClosedBy-insert p (dep_id dep) m resolved
        (all_of_contains p (dep_ids m) (new_covered dep m queue resolved))
        (ClosedBy-imp (covered resolved (dep ∷ queue)) p resolved (grow dep m queue resolved) c)

  pub resolve_from-IsClosed :
      (k : ℕ) (queue : List (String × String)) (resolved packages : BTreeMap PackageManifest)
      → IsSorted resolved
      → ClosedBy (covered resolved queue) resolved
      → resolve_from load_manifest k queue resolved ≡ some (ok packages)
      → IsClosed queue resolved packages
  unfolding resolve_from contains
  resolve_from-IsClosed zero queue resolved packages s c h = cc
  resolve_from-IsClosed (suc k) [] resolved packages s c h =
      let same : resolved ≡ packages = cc in
      subst (λ r. IsClosed [] resolved r) same (closed_self resolved s c)
  resolve_from-IsClosed (suc k) (dep ∷ queue) resolved packages s c h =
      elim (Bool-cases (contains_key (dep_id dep) resolved)) [
        | inl e ↦ known dep queue resolved packages e (
            resolve_from-IsClosed k queue resolved packages s
              (ClosedBy-imp (covered resolved (dep ∷ queue)) (covered resolved queue) resolved
                (known_covered dep queue resolved e) c)
              (sym (resolve_from_known k dep queue resolved e) ∙ h))
        | inr e ↦ elim (Result-cases (accept load_manifest resolved dep)) [
          | inl (m, a) ↦ added dep m queue resolved packages (
              resolve_from-IsClosed k (queue ++ unresolved resolved m.dependencies)
                (BTreeMap.insert (dep_id dep) m resolved) packages
                (IsSorted-insert (dep_id dep) m resolved s) (still_closed dep m queue resolved c)
                (sym (resolve_from_added k dep queue resolved m e a) ∙ h))
          | inr (x, a) ↦
              let bad : some (err x) ≡ some (ok packages) =
                sym (resolve_from_err k dep queue resolved x e a) ∙ h in
              cc
        ]
      ]
