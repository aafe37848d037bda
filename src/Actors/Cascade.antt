-- ===== src/Actors/Cascade.antt =====
-- crates/llmvm/src/actor.rs: whom the failure of an actor reaches.
use mathlib.Core.Path.{subst}
use boruna.Prelude.{
  ℕ, zero, suc, ◌+◌, ◌==◌, ◌<◌, ◌≤◌, ◌≡◌, refl, sym, ap, ◌∙◌, true, false, List, [], ◌∷◌, some,
  arith, get_elem?, if◌then◌else◌, All, update_first, ◌⊎◌, inl, inr, Bool-cases,
}
use boruna.Actors.System.{Actor, cascade_failure, children_in, fail_it}
use boruna.Actors.Kin.{
  AllFit, fail_it-Fits, get_elem?-update_first, get_elem?_id, update_first-AllFit,
  cascade_failure-AllFit,
}

-- the identifier is in the list, or below one of the list
pub data IsBelow (kids : ℕ → List ℕ) : List ℕ → ℕ → Type 0 where
  first : (c : ℕ) (ids : List ℕ) → IsBelow kids (c ∷ ids) c
  inner : (c d : ℕ) (ids : List ℕ) → IsBelow kids (kids c) d → IsBelow kids (c ∷ ids) d
  later : (c d : ℕ) (ids : List ℕ) → IsBelow kids ids d → IsBelow kids (c ∷ ids) d

-- the ways to be below a list
abbrev Ways : (ℕ → List ℕ) → ℕ → List ℕ → Type 0
Ways kids d [] = ⊥
Ways kids d (c ∷ rest) = (d ≡ c) ⊎ IsBelow kids (kids c) d ⊎ IsBelow kids rest d

IsBelow-Ways : (kids : ℕ → List ℕ) (ids : List ℕ) (d : ℕ) → IsBelow kids ids d → Ways kids d ids
IsBelow-Ways kids ids d (first c rest) = inl refl
IsBelow-Ways kids ids d (inner c _ rest h) = inr (inl h)
IsBelow-Ways kids ids d (later c _ rest h) = inr (inr h)

-- enough fuel for the identifiers of a list
abbrev Enough : ℕ → ℕ → List ℕ → Type 0
Enough k n = All (λ c. (c < n) × (n ≤ k + c))

Enough-kids :
    (k n c : ℕ) (ids : List ℕ) → n ≤ suc k + c → All (λ x. (c < x) × (x < n)) ids → Enough k n ids
Enough-kids k n c [] le h = tt
Enough-kids k n c (x ∷ rest) le h =
    ((h.0.1, omega (arith, h.0.0, le)), Enough-kids k n c rest le h.1)

module _ {S : Type 0} where
  abbrev marked : ℕ → List (Actor S) → List (Actor S)
  marked c actors = update_first (λ a. a.id == c) fail_it actors

  marked-AllFit :
      (c n : ℕ) (actors : List (Actor S)) → AllFit 0 n actors → AllFit 0 n (marked c actors)
  marked-AllFit c n actors w =
      update_first-AllFit 0 n (λ a. a.id == c) fail_it actors (λ j. fail_it-Fits j n) w

  get_elem?-marked :
      (c d n : ℕ) (actors : List (Actor S)) (a : Actor S)
      → AllFit 0 n actors
      → get_elem? actors d ≡ some a
      → get_elem? (marked c actors) d ≡ some (if a.id == c then fail_it a else a)
  get_elem?-marked c d n actors a w e =
      get_elem?-update_first (λ a. a.id == c) fail_it (λ x y hx hy. ground (arith, hx, hy)) d 0 n
        actors a w e

  children_in-marked :
      (c id : ℕ) (actors : List (Actor S))
      → children_in (marked c actors) id ≡ children_in actors id
  children_in-marked c id [] = refl
  children_in-marked c id (a ∷ rest) = elim (Bool-cases (a.id == c)) [
    | inl e ↦ rw e refl
    | inr e ↦
        rw e (ap (λ ids. if a.id == id then a.children else ids) (children_in-marked c id rest))
  ]

  children_in-cascade_failure :
      (k : ℕ) (ids : List ℕ) (id : ℕ) (actors : List (Actor S))
      → children_in (cascade_failure k ids actors) id ≡ children_in actors id
  unfolding cascade_failure
  children_in-cascade_failure k [] id actors = refl
  children_in-cascade_failure zero (c ∷ rest) id actors = refl
  children_in-cascade_failure (suc k) (c ∷ rest) id actors =
      children_in-cascade_failure (suc k) rest id _
      ∙ children_in-cascade_failure k (children_in actors c) id (marked c actors)
      ∙ children_in-marked c id actors

  -- an actor is as it was, or it has failed
  abbrev AsOrFailed : List (Actor S) → ℕ → Actor S → Type 0
  AsOrFailed actors d a = (get_elem? actors d ≡ some a) ⊎ (get_elem? actors d ≡ some (fail_it a))

  marked-AsOrFailed :
      (c d n : ℕ) (actors : List (Actor S)) (a : Actor S)
      → AllFit 0 n actors
      → get_elem? actors d ≡ some a
      → AsOrFailed (marked c actors) d a
  marked-AsOrFailed c d n actors a w e =
      let at = get_elem?-marked c d n actors a w e in
      elim (Bool-cases (a.id == c)) [
        | inl b ↦ inr (at ∙ ap (λ b. some (if b then fail_it a else a)) b)
        | inr b ↦ inl (at ∙ ap (λ b. some (if b then fail_it a else a)) b)
      ]

  AsOrFailed-and_then :
      (actors actors' : List (Actor S)) (d : ℕ) (a : Actor S)
      → AsOrFailed actors d a
      → ((b : Actor S) → get_elem? actors d ≡ some b → AsOrFailed actors' d b)
      → AsOrFailed actors' d a
  AsOrFailed-and_then actors actors' d a (inl e) h = h a e
  AsOrFailed-and_then actors actors' d a (inr e) h = elim (h (fail_it a) e) [
    | inl x ↦ inr x
    | inr x ↦ inr x
  ]

  cascade_failure-AsOrFailed :
      (k : ℕ) (ids : List ℕ) (d n : ℕ) (actors : List (Actor S)) (a : Actor S)
      → AllFit 0 n actors
      → get_elem? actors d ≡ some a
      → AsOrFailed (cascade_failure k ids actors) d a
  unfolding cascade_failure
  cascade_failure-AsOrFailed k [] d n actors a w e = inl e
  cascade_failure-AsOrFailed zero (c ∷ rest) d n actors a w e = inl e
  cascade_failure-AsOrFailed (suc k) (c ∷ rest) d n actors a w e =
      let w1 = marked-AllFit c n actors w in
      let inside = cascade_failure k (children_in actors c) (marked c actors) in
      AsOrFailed-and_then inside (cascade_failure (suc k) rest inside) d a
        (AsOrFailed-and_then (marked c actors) inside d a (marked-AsOrFailed c d n actors a w e)
          (λ b. cascade_failure-AsOrFailed k (children_in actors c) d n (marked c actors) b w1))
        (λ b.
          cascade_failure-AsOrFailed (suc k) rest d n inside b
            (cascade_failure-AllFit k n (children_in actors c) (marked c actors) w1))

  children_in-below :
      (id k n : ℕ) (actors : List (Actor S))
      → AllFit k n actors
      → All (λ c. (id < c) × (c < n)) (children_in actors id)
  children_in-below id k n [] w = tt
  children_in-below id k n (a ∷ rest) w = elim (Bool-cases (a.id == id)) [
    | inl e ↦
        let same : k ≡ id = ground (arith, e, w.0.id) in
        rw e (subst (λ j. All (λ c. (j < c) × (c < n)) a.children) same w.0.below)
    | inr e ↦ rw e (children_in-below id (suc k) n rest w.1)
  ]

  stays :
      (k : ℕ) (ids : List ℕ) (d n : ℕ) (actors : List (Actor S)) (a : Actor S)
      → AllFit 0 n actors
      → get_elem? actors d ≡ some (fail_it a)
      → get_elem? (cascade_failure k ids actors) d ≡ some (fail_it a)
  stays k ids d n actors a w e =
      elim (cascade_failure-AsOrFailed k ids d n actors (fail_it a) w e) [ inl x ↦ x | inr x ↦ x ]

  module _ (n : ℕ) (kids : ℕ → List ℕ) where
    abbrev Reaches : ℕ → List ℕ → List (Actor S) → ℕ → Actor S → Type 0
    Reaches k ids actors d a = get_elem? (cascade_failure k ids actors) d ≡ some (fail_it a)

    -- every actor below the list fails
    pub reached :
        (k : ℕ) (ids : List ℕ) (d : ℕ) (actors : List (Actor S)) (a : Actor S)
        → AllFit 0 n actors
        → ((id : ℕ) → children_in actors id ≡ kids id)
        → Enough k n ids
        → IsBelow kids ids d
        → get_elem? actors d ≡ some a
        → Reaches k ids actors d a
    unfolding cascade_failure
    reached k [] d actors a w same fuel h e = absurd (IsBelow-Ways kids [] d h)
    reached zero (c ∷ rest) d actors a w same fuel h e = absurd (omega (arith, fuel.0.0, fuel.0.1))
    reached (suc k) (c ∷ rest) d actors a w same fuel h e =
        elim (IsBelow-Ways kids (c ∷ rest) d h) [
          | inl x ↦ stays (suc k) rest d n inside a winside (
              stays k (children_in actors c) d n (marked c actors) a w1 (
                get_elem?-marked c d n actors a w e
                ∙ ap (λ b. some (if b then fail_it a else a))
                    (head_is c d a x (get_elem?_id d 0 n actors a w e))))
          | inr (inl x) ↦
              let below = subst (λ ids. IsBelow kids ids d) (sym (same c)) x in
              stays (suc k) rest d n inside a winside (elim (marked-AsOrFailed c d n actors a w e) [
                | inl y ↦
                    reached k (children_in actors c) d (marked c actors) a w1 same1 fuel1 below y
                | inr y ↦
                    reached k (children_in actors c) d (marked c actors) (fail_it a) w1 same1 fuel1
                      below y
              ])
          | inr (inr x) ↦
              elim (AsOrFailed-and_then (marked c actors) inside d a
                (marked-AsOrFailed c d n actors a w e)
                (λ b.
                  cascade_failure-AsOrFailed k (children_in actors c) d n (marked c actors) b w1)) [
                    | inl y ↦ reached (suc k) rest d inside a winside same2 fuel.1 x y
                    | inr y ↦ reached (suc k) rest d inside (fail_it a) winside same2 fuel.1 x y
                  ]
        ]
      where
        head_is : (c d : ℕ) (a : Actor S) → d ≡ c → a.id ≡ 0 + d → (a.id == c) ≡ true
        head_is c d a x y = ground arith

        inside : List (Actor S)
        inside = cascade_failure k (children_in actors c) (marked c actors)

        w1 : AllFit 0 n (marked c actors)
        w1 = marked-AllFit c n actors w

        winside : AllFit 0 n inside
        winside = cascade_failure-AllFit k n (children_in actors c) (marked c actors) w1

        same1 : (id : ℕ) → children_in (marked c actors) id ≡ kids id
        same1 id = children_in-marked c id actors ∙ same id

        same2 : (id : ℕ) → children_in inside id ≡ kids id
        same2 id =
            children_in-cascade_failure k (children_in actors c) id (marked c actors) ∙ same1 id

        fuel1 : Enough k n (children_in actors c)
        fuel1 = Enough-kids k n c (children_in actors c) fuel.0.1 (children_in-below c 0 n actors w)

    -- every other actor is as it was
    pub spared :
        (k : ℕ) (ids : List ℕ) (d : ℕ) (actors : List (Actor S)) (a : Actor S)
        → AllFit 0 n actors
        → ((id : ℕ) → children_in actors id ≡ kids id)
        → ¬ (IsBelow kids ids d)
        → get_elem? actors d ≡ some a
        → get_elem? (cascade_failure k ids actors) d ≡ some a
    unfolding cascade_failure
    spared k [] d actors a w same h e = e
    spared zero (c ∷ rest) d actors a w same h e = e
    spared (suc k) (c ∷ rest) d actors a w same h e =
        let w1 = marked-AllFit c n actors w in
        let ids = children_in actors c in
        let same1 : (id : ℕ) → children_in (marked c actors) id ≡ kids id =
          λ id. children_in-marked c id actors ∙ same id in
        let here =
          get_elem?-marked c d n actors a w e ∙ ap (λ b. some (if b then fail_it a else a)) other in
        spared (suc k) rest d (cascade_failure k ids (marked c actors)) a
          (cascade_failure-AllFit k n ids (marked c actors) w1)
          (λ id. children_in-cascade_failure k ids id (marked c actors) ∙ same1 id)
          (λ b. h (later c d rest b))
          (spared k ids d (marked c actors) a w1 same1
            (λ b. h (inner c d rest (subst (λ l. IsBelow kids l d) (same c) b))) here)
      where
        other : (a.id == c) ≡ false
        other = elim (Bool-cases (a.id == c)) [
          | inr x ↦ x
          | inl x ↦
              let same_id : c ≡ d = ground (arith, x, get_elem?_id d 0 n actors a w e) in
              absurd (h (subst (λ i. IsBelow kids (c ∷ rest) i) same_id (first c rest)))
        ]
