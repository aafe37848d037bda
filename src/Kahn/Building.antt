-- ===== src/Kahn/Building.antt =====
-- The maps that the loop of Kahn's algorithm is given, built edge by edge: what they count.
use mathlib.Core.Path.{subst}
use boruna.Prelude.{
  suc, ◌+◌, ◌≡◌, refl, sym, ap, ◌∙◌, String, Bool, true, false, not, ◌||◌, List, [], ◌∷◌, ◌++◌,
  arith, push, str_eq, eq_iff, if◌then◌else◌, unwrap_or, is_none, Option-cases, Bool-cases, inl,
  inr,
}
use mathlib.Core.List.{append-nil, append_assoc}
use boruna.Prelude.BTreeMap
use boruna.Prelude.BTreeMap.{get-insert, get-empty}
use boruna.Prelude.SortedMap.{IsSorted, IsSorted-insert}
use boruna.Prelude.BTreeSet.{contains}
use boruna.Kahn.Loop.{Edge, Degrees, Dependents, insert_zero, increment, add_dependent, link}
use boruna.Kahn.Counting.{targets, open_in}
use boruna.Kahn.Sound.{IsGraph, is_key, is_none-get}

-- a graph on known nodes, of which some edges are there already
pub record Grows (known : String → Bool) (es : List Edge) (ds : Dependents) (deg : Degrees)
    : Type 0 where
  pub sorted : IsSorted deg
  pub counts : (v : String) → unwrap_or 0 (BTreeMap.get v deg) ≡ open_in es [] v
  pub only : (v : String) → is_none (BTreeMap.get v deg) ≡ false → known v ≡ true
  pub ends : (u : String) → unwrap_or [] (BTreeMap.get u ds) ≡ targets u es

abbrev pub is_present : String → Degrees → Bool
is_present v deg = not (is_none (BTreeMap.get v deg))

open_in-append :
    (es fs : List Edge) (done : List String) (v : String)
    → open_in (es ++ fs) done v ≡ open_in es done v + open_in fs done v
open_in-append [] fs done v = omega arith
open_in-append (e ∷ es) fs done v = ground (arith, open_in-append es fs done v)

targets-append :
    (u : String) (es fs : List Edge) → targets u (es ++ fs) ≡ targets u es ++ targets u fs
targets-append u [] fs = refl
targets-append u ((x, y) ∷ es) fs = ground (arith, targets-append u es fs)

dependents-add :
    (from to u : String) (es : List Edge) (ds : Dependents)
    → ((w : String) → unwrap_or [] (BTreeMap.get w ds) ≡ targets w es)
    → unwrap_or [] (BTreeMap.get u (add_dependent from to ds))
      ≡ targets u es ++ targets u ((from, to) ∷ [])
unfolding add_dependent
dependents-add from to u es ds h =
    let ts = push (unwrap_or [] (BTreeMap.get from ds)) to in
    ap (unwrap_or []) (get-insert from u ts ds) ∙ elim (Bool-cases (str_eq from u)) [
      | inl e ↦
          let same : from ≡ u = (eq_iff from u).0 e in
          rw (e, if◌then◌else◌) (ap (λ l. l ++ (to ∷ [])) (h from ∙ ap (λ w. targets w es) same))
      | inr e ↦ rw (e, if◌then◌else◌) (h u ∙ sym (append-nil (targets u es)))
    ]

-- The last edge is added, from any node to a known one.
pub Grows-edge :
    (known : String → Bool) (es : List Edge) (ds : Dependents) (deg : Degrees) (from to : String)
    → Grows known es ds deg
    → known to ≡ true
    → Grows known (push es (from, to)) (add_dependent from to ds) (increment to deg)
unfolding increment contains
Grows-edge known es ds deg from to g k =
    let n = suc (unwrap_or 0 (BTreeMap.get to deg)) in
    record {
      sorted = IsSorted-insert to n deg g.sorted;
      counts = λ v. ground (
        arith,
        get-insert to v n deg,
        eq_iff to v,
        g.counts v,
        g.counts to,
        open_in-append es ((from, to) ∷ []) [] v,
      );
      only = λ v h. ground (arith, get-insert to v n deg, eq_iff to v, g.only v);
      ends =
          λ u. dependents-add from to u es ds g.ends ∙ sym (targets-append u es ((from, to) ∷ []));
    }

-- A known node is entered with no edges, if it is not there.
pub Grows-zero :
    (known : String → Bool) (es : List Edge) (ds : Dependents) (deg : Degrees) (id : String)
    → Grows known es ds deg
    → known id ≡ true
    → Grows known es ds (insert_zero id deg)
unfolding insert_zero
Grows-zero known es ds deg id g k = elim (Option-cases (BTreeMap.get id deg)) [
  | inl e ↦
      rw (e, insert_zero)
        (record {
          sorted = IsSorted-insert id 0 deg g.sorted;
          counts = λ v. ground (arith, get-insert id v 0 deg, eq_iff id v, g.counts v, e);
          only = λ v h. ground (arith, get-insert id v 0 deg, eq_iff id v, g.only v);
          ends = g.ends;
        })
  | inr (d, e) ↦ rw (e, insert_zero) g
]

pub is_present-insert_zero :
    (v id : String) (deg : Degrees)
    → is_present v (insert_zero id deg) ≡ (str_eq id v || is_present v deg)
unfolding insert_zero
is_present-insert_zero v id deg = ground (arith, eq_iff id v, get-insert id v 0 deg)

pub is_present-increment :
    (v to : String) (deg : Degrees)
    → is_present v deg ≡ true
    → is_present v (increment to deg) ≡ true
unfolding increment
is_present-increment v to deg h =
    ground (arith, get-insert to v (suc (unwrap_or 0 (BTreeMap.get to deg))) deg)

pub Grows-empty : (known : String → Bool) → Grows known [] [] []
unfolding BTreeMap.get
Grows-empty known = record { sorted = tt; counts = λ v. refl; only = λ v h. cc; ends = λ u. refl }

-- A graph that has all its edges.
pub Grows-IsGraph :
    (known : String → Bool) (es : List Edge) (ds : Dependents) (deg : Degrees)
    → Grows known es ds deg
    → IsGraph es ds deg
Grows-IsGraph known es ds deg g = record {
  sorted = g.sorted;
  counts = λ v d h. ap (unwrap_or 0) (sym h) ∙ g.counts v;
  ends = g.ends;
}

-- Its keys are the known nodes, if these are all there.
pub is_key-Grows :
    (known : String → Bool) (es : List Edge) (ds : Dependents) (deg : Degrees)
    → Grows known es ds deg
    → ((v : String) → known v ≡ true → is_present v deg ≡ true)
    → (v : String) → is_key deg v ≡ known v
is_key-Grows known es ds deg g all_there v =
    ground (arith, is_none-get v deg, g.only v, all_there v)

-- the edges from dependencies to a node
abbrev pub edges_to : String → List String → List Edge
edges_to id [] = []
edges_to id (dep ∷ rest) = (dep, id) ∷ edges_to id rest

pub Grows-link :
    (known : String → Bool) (id : String) (deps : List String) (es : List Edge) (ds : Dependents)
    (deg : Degrees)
    → known id ≡ true
    → Grows known es ds deg
    → Grows known (es ++ edges_to id deps) (link id deps ds deg).0 (link id deps ds deg).1
unfolding link
Grows-link known id [] es ds deg k g = subst (λ l. Grows known l ds deg) (sym (append-nil es)) g
Grows-link known id (dep ∷ deps) es ds deg k g =
    subst
      (λ l.
        Grows known l (link id deps (add_dependent dep id ds) (increment id deg)).0
          (link id deps (add_dependent dep id ds) (increment id deg)).1)
      (append_assoc es ((dep, id) ∷ []) (edges_to id deps))
      (Grows-link known id deps (push es (dep, id)) (add_dependent dep id ds) (increment id deg) k
        (Grows-edge known es ds deg dep id g k))

pub is_present-link :
    (v id : String) (deps : List String) (ds : Dependents) (deg : Degrees)
    → is_present v deg ≡ true
    → is_present v (link id deps ds deg).1 ≡ true
unfolding link
is_present-link v id [] ds deg h = h
is_present-link v id (dep ∷ deps) ds deg h =
    is_present-link v id deps (add_dependent dep id ds) (increment id deg)
      (is_present-increment v id deg h)
