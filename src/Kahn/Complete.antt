-- ===== src/Kahn/Complete.antt =====
-- When the loop of Kahn's algorithm returns every key.
use boruna.Prelude.{
  ℕ, zero, suc, ◌<◌, ◌≡◌, refl, sym, ap, ◌∙◌, String, Bool, true, List, [], ◌∷◌, arith, length,
  eq_iff, All, Bool-cases, ◌⊎◌, inl, inr,
}
use boruna.Prelude.BTreeSet.{contains}
use boruna.Kahn.Loop.{Edge, Degrees, Dependents, kahn}
use boruna.Kahn.Counting.{IsDistinct, length-IsDistinct, open_in}
use boruna.Kahn.Invariant.{Inv}
use boruna.Kahn.Sound.{IsGraph, kahn-Done, Respects, is_key}

-- Every edge comes from a key and goes from a lower rank to a higher one.
abbrev pub IsRanked : (String → ℕ) → Degrees → List Edge → Type 0
IsRanked rank deg es = All (λ (e : Edge). (is_key deg e.0 ≡ true) × (rank e.0 < rank e.1)) es

open_in-zero :
    (es : List Edge) (done : List String) (v : String)
    → All (λ (e : Edge). e.1 ≡ v → contains e.0 done ≡ true) es
    → open_in es done v ≡ 0
open_in-zero [] done v a = refl
open_in-zero ((x, y) ∷ es) done v a = ground (arith, eq_iff y v, a.0, open_in-zero es done v a.1)

-- Where the loop has ended and edges lead from known nodes to higher ranks, every known node is done, by
-- induction on its rank.
pub ranked_done :
    (known : String → Bool) (es : List Edge) (order : List String) (deg : Degrees)
    (rank : String → ℕ)
    → Inv known es order [] [] deg
    → All (λ (e : Edge). (known e.0 ≡ true) × (rank e.0 < rank e.1)) es
    → (v : String) → known v ≡ true
    → contains v order ≡ true
unfolding contains
ranked_done known es order deg rank i ranked v k = below (suc (rank v)) v k (omega arith)
  where
    earlier :
        (n : ℕ) (v : String) (fs : List Edge)
        → ((u : String) → known u ≡ true → rank u < n → contains u order ≡ true)
        → rank v < suc n
        → All (λ (e : Edge). (known e.0 ≡ true) × (rank e.0 < rank e.1)) fs
        → All (λ (e : Edge). e.1 ≡ v → contains e.0 order ≡ true) fs
    earlier n v [] ih h a = tt
    earlier n v ((x, y) ∷ fs) ih h a =
        (λ e. ih x a.0.0 (omega (arith, a.0.1, h, ap rank e)), earlier n v fs ih h a.1)

    below : (n : ℕ) (v : String) → known v ≡ true → rank v < n → contains v order ≡ true
    below zero v k h = absurd (omega arith)
    below (suc n) v k h =
        let none_open = open_in-zero es order v (earlier n v es (below n) h ranked) in
        let closed = i.closed v k (omega (arith, none_open)) in ground (arith, closed)

contains-cons :
    (x v : String) (xs : List String)
    → contains v (x ∷ xs) ≡ true
    → (x ≡ v) ⊎ (contains v xs ≡ true)
unfolding contains
contains-cons x v xs h = ground (arith, eq_iff x v)

-- Distinct members of a list that are as many as it is long are all of its members.
pub distinct_full :
    (xs ys : List String)
    → IsDistinct xs
    → ((v : String) → contains v xs ≡ true → contains v ys ≡ true)
    → length xs ≡ length ys
    → (v : String) → contains v ys ≡ true
    → contains v xs ≡ true
distinct_full xs ys d h l v k = elim (Bool-cases (contains v xs)) [
  | inl e ↦ e
  | inr e ↦ absurd (
      omega (
        arith,
        l,
        length-IsDistinct (v ∷ xs) ys (e, d)
            (λ w m. elim (contains-cons v w xs m) [
              | inl same ↦ ap (λ u. contains u ys) (sym same) ∙ k
              | inr later ↦ h w later
            ]),
      ))
]

-- Every node once, each after the sources of the edges into it.
pub record IsOrder (ids : List String) (es : List Edge) (order : List String) : Type 0 where
  pub distinct : IsDistinct order
  pub members : (v : String) → contains v order ≡ contains v ids
  pub respects : Respects es order

-- every edge goes from a lower rank to a higher one, from a known node
abbrev pub IsRankedOn : (String → ℕ) → List String → List Edge → Type 0
IsRankedOn rank ids [] = Unit
IsRankedOn rank ids ((x, y) ∷ es) =
    ((contains x ids ≡ true) × (rank x < rank y)) × IsRankedOn rank ids es

-- The state after a loop, whose keys are the known nodes.
module _ (ids : List String) (es : List Edge) (order : List String) (known : String → Bool)
    (deg : Degrees) (i : Inv known es order [] [] deg)
    (keys_are : (v : String) → known v ≡ contains v ids) where
  returned_known : (v : String) → contains v order ≡ true → contains v ids ≡ true
  returned_known v h = sym (keys_are v) ∙ i.seen_known v (ground (arith, h))

  -- If as many nodes are returned as are known, they are in an order.
  pub Inv-IsOrder : Respects es order → length order ≡ length ids → IsOrder ids es order
  Inv-IsOrder r l =
      let all_in = distinct_full order ids i.done_distinct returned_known l in
      record {
        distinct = i.done_distinct;
        members = λ v. ground (arith, returned_known v, all_in v);
        respects = r;
      }

  ranked :
      (rank : String → ℕ) (fs : List Edge)
      → IsRankedOn rank ids fs
      → All (λ (e : Edge). (known e.0 ≡ true) × (rank e.0 < rank e.1)) fs
  ranked rank [] r = tt
  ranked rank ((x, y) ∷ fs) r = ((keys_are x ∙ r.0.0, r.0.1), ranked rank fs r.1)

  -- If the edges can be ranked, as many nodes are returned as are known.
  pub length-Inv :
      (rank : String → ℕ) → IsDistinct ids → IsRankedOn rank ids es → length order ≡ length ids
  length-Inv rank d r = omega (
    arith,
    length-IsDistinct order ids i.done_distinct returned_known,
    length-IsDistinct ids order d
        (λ v k. ranked_done known es order deg rank i (ranked rank es r) v (keys_are v ∙ k)),
  )

module _ (ids : List String) (es : List Edge) (ds : Dependents) (deg : Degrees)
    (g : IsGraph es ds deg) (keys_are : (v : String) → is_key deg v ≡ contains v ids) where
  pub kahn-IsOrder : length (kahn ds deg) ≡ length ids → IsOrder ids es (kahn ds deg)
  kahn-IsOrder l =
      let done = kahn-Done es ds deg g in
      Inv-IsOrder ids es (kahn ds deg) (is_key deg) done.deg done.inv keys_are done.respects l

  pub length-kahn :
      (rank : String → ℕ)
      → IsDistinct ids
      → IsRankedOn rank ids es
      → length (kahn ds deg) ≡ length ids
  length-kahn rank d r =
      let done = kahn-Done es ds deg g in
      length-Inv ids es (kahn ds deg) (is_key deg) done.deg done.inv keys_are rank d r
