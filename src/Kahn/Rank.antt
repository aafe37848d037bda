-- ===== src/Kahn/Rank.antt =====
-- The places of nodes in an order rank the edges.
use boruna.Prelude.{
  ℕ, suc, ◌<◌, ◌≡◌, sym, ap, ◌∙◌, ◌⊎◌, inl, inr, String, true, List, [], ◌∷◌, arith, push, str_eq,
  eq_iff, if◌then◌else◌, Bool-cases, ◌↔◌, length,
}
use boruna.Prelude.BTreeSet.{contains}
use boruna.Kahn.Loop.{Edge, Degrees, Dependents, kahn}
use boruna.Kahn.Counting.{IsDistinct, contains-push, open_in}
use boruna.Kahn.Sound.{RespectsFrom, IsGraph, is_key}
use boruna.Kahn.Complete.{IsOrder, IsRankedOn, kahn-IsOrder, length-kahn}

-- every edge joins two known nodes
abbrev pub EdgesWithin : List String → List Edge → Type 0
EdgesWithin ids [] = Unit
EdgesWithin ids (e ∷ es) =
    ((contains e.0 ids ≡ true) × (contains e.1 ids ≡ true)) × EdgesWithin ids es

-- the place of a node in a list
abbrev pub place_of : List String → String → ℕ
place_of [] v = 0
place_of (x ∷ xs) v = let rest = place_of xs v in if str_eq x v then 0 else suc rest

source_done :
    (x y : String) (fs : List Edge) (done : List String)
    → open_in ((x, y) ∷ fs) done y ≡ 0
    → contains x done ≡ true
source_done x y fs done h = ground (arith, eq_iff y y)

-- the source of an edge is done before the list, or stands before the target in it
source_first :
    (es : List Edge) (x y : String) (done rest : List String)
    → ((d : List String) → open_in es d y ≡ 0 → contains x d ≡ true)
    → RespectsFrom es done rest
    → contains y rest ≡ true
    → (contains x done ≡ true) ⊎ (place_of rest x < place_of rest y)
unfolding contains
source_first es x y done [] f r h = cc
source_first es x y done (v ∷ rest) f r h = elim (Bool-cases (str_eq v y)) [
  | inl e ↦
      let same : v ≡ y = (eq_iff v y).0 e in inl (f done (ap (open_in es done) (sym same) ∙ r.0))
  | inr e ↦ elim (source_first es x y (push done v) rest f r.1 (ground arith)) [
    | inl in_done ↦ elim (Bool-cases (str_eq v x)) [
      | inl here ↦ inr (ground arith)
      | inr there ↦ inl (ground (arith, contains-push x v done, in_done))
    ]
    | inr before ↦ inr (ground (arith, before))
  ]
]

none_done : {P : Type 0} (x : String) → contains x [] ≡ true → P
unfolding contains
none_done x h = cc

rank_edges :
    (ids : List String) (es : List Edge) (order : List String) (fs : List Edge)
    → RespectsFrom es [] order
    → ((d : List String) (v : String) → open_in es d v ≡ 0 → open_in fs d v ≡ 0)
    → ((v : String) → contains v order ≡ contains v ids)
    → EdgesWithin ids fs
    → IsRankedOn (place_of order) ids fs
rank_edges ids es order [] r sub m w = tt
rank_edges ids es order ((x, y) ∷ fs) r sub m w = (
  (
    w.0.0,
    elim (source_first es x y [] order (λ d h. source_done x y fs d (sub d y h)) r (m y ∙ w.0.1)) [
      | inl absent ↦ none_done x absent
      | inr before ↦ before
    ],
  ),
  rank_edges ids es order fs r (λ d v h. ground (arith, sub d v h)) m w.1,
)

-- The order of a graph ranks its edges by the places of the nodes.
pub IsOrder-IsRankedOn :
    (ids : List String) (es : List Edge) (order : List String)
    → EdgesWithin ids es
    → IsOrder ids es order
    → IsRankedOn (place_of order) ids es
IsOrder-IsRankedOn ids es order w o = rank_edges ids es order es o.respects (λ d v h. h) o.members w

-- As many nodes are returned as are known exactly if the edges can be ranked.
pub length-kahn_iff :
    (ids : List String) (es : List Edge) (ds : Dependents) (deg : Degrees)
    → IsGraph es ds deg
    → ((v : String) → is_key deg v ≡ contains v ids)
    → IsDistinct ids
    → EdgesWithin ids es
    → (length (kahn ds deg) ≡ length ids) ↔ ((rank : String → ℕ) × IsRankedOn rank ids es)
length-kahn_iff ids es ds deg g keys_are d w = (
  λ l. (
    place_of (kahn ds deg),
    IsOrder-IsRankedOn ids es (kahn ds deg) w (kahn-IsOrder ids es ds deg g keys_are l),
  ),
  λ r. length-kahn ids es ds deg g keys_are r.0 d r.1,
)
