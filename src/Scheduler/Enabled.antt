-- ===== src/Scheduler/Enabled.antt =====
-- orchestrator/src/engine/mod.rs: which nodes `ready_nodes` gives, in terms of the statuses of the
-- graph and not of the tests of the code.
use boruna.Prelude.{
  ℕ, zero, suc, ◌+◌, ◌-◌, ◌≤◌, ◌<◌, ◌≡◌, ◌↔◌, ◌⊎◌, refl, sym, ap, ◌∙◌, String, Bool, true, List, [],
  ◌∷◌, arith, str_eq, ◌&&◌, if◌then◌else◌, eq_iff, any, all, keep, take, length, length-take-le,
  map, All, Bool-cases, inl, inr,
}
use mathlib.Core.Path.{subst}
use boruna.Prelude.BTreeSet.{contains}
use boruna.Scheduler.Graph.{
  NodeStatus, pending, ready, running, blocked, failed, passed, WorkNode, Scheduler, status_eq,
  has_status, is_passed, is_eligible, ready_nodes, running_count,
}

length-map : {A B : Type 0} (f : A → B) (xs : List A) → length (map f xs) ≡ length xs
length-map f [] = refl
length-map f (x ∷ xs) = ap suc (length-map f xs)

pub All-imp :
    {A : Type 0} {P Q : A → Type 0} (xs : List A) → ((x : A) → P x → Q x) → All P xs → All Q xs
All-imp [] f h = tt
All-imp (x ∷ xs) f h = (f x h.0, All-imp xs f h.1)

-- an element has the property
abbrev pub Exists : {A : Type 0} → (A → Type 0) → List A → Type 0
Exists P [] = ⊥
Exists P (x ∷ xs) = P x ⊎ Exists P xs

-- a node of this identifier has passed
abbrev pub HasPassed : List WorkNode → String → Type 0
HasPassed nodes id = Exists (λ n. (n.status ≡ passed) × (n.id ≡ id)) nodes

-- the node waits, and for each of its dependencies a node has passed
abbrev pub IsReady : List WorkNode → WorkNode → Type 0
IsReady nodes n = (n.status ≡ pending) × All (HasPassed nodes) n.dependencies

abbrev pub one_if_running : NodeStatus → ℕ
one_if_running running = 1
one_if_running _ = 0

abbrev pub running_of : List WorkNode → ℕ
running_of [] = 0
running_of (n ∷ rest) = one_if_running n.status + running_of rest

-- The identifiers are those of the first nodes that are ready among these, in their order, each node
-- taken once, and a node passed over only if it is not ready.
abbrev pub Picked : List WorkNode → List String → List WorkNode → Type 0
Picked nodes [] among = Unit
Picked nodes (id ∷ ids) [] = ⊥
Picked nodes (id ∷ ids) (n ∷ rest) =
    ((n.id ≡ id) × IsReady nodes n × Picked nodes ids rest)
    ⊎ (¬ IsReady nodes n × Picked nodes (id ∷ ids) rest)

status_eq_iff : (a b : NodeStatus) → (status_eq a b ≡ true) ↔ (a ≡ b)
status_eq_iff a b = (sound a b, λ e. rw (sym e) (self a))
  where
    sound : (a b : NodeStatus) → status_eq a b ≡ true → a ≡ b
    sound pending pending h = refl
    sound ready ready h = refl
    sound running running h = refl
    sound blocked blocked h = refl
    sound failed failed h = refl
    sound passed passed h = refl
    sound _ _ h = cc

    self : (a : NodeStatus) → status_eq a a ≡ true
    self pending = refl
    self ready = refl
    self running = refl
    self blocked = refl
    self failed = refl
    self passed = refl

module _ {A : Type 0} (p : A → Bool) (P : A → Type 0) (same : (x : A) → (p x ≡ true) ↔ P x) where
  any_iff : (xs : List A) → (any p xs ≡ true) ↔ Exists P xs
  any_iff [] = (λ h. cc, λ h. absurd h)
  any_iff (x ∷ xs) = elim (Bool-cases (p x)) [
    | inl e ↦ (λ _. inl ((same x).0 e), λ _. rw e refl)
    | inr e ↦ (
      λ h. inr ((any_iff xs).0 (ground arith)),
      λ o. elim o [ inl q ↦ ground (arith, (same x).1 q) | inr q ↦ rw e ((any_iff xs).1 q) ],
    )
  ]

  all_iff : (xs : List A) → (all p xs ≡ true) ↔ All P xs
  all_iff [] = (λ _. tt, λ _. refl)
  all_iff (x ∷ xs) = (
    λ h. ((same x).0 (ground arith), (all_iff xs).0 (ground arith)),
    λ h. rw ((same x).1 h.0, (all_iff xs).1 h.1) refl,
  )

is_passed_iff :
    (nodes : List WorkNode) (id : String) → (is_passed nodes id ≡ true) ↔ HasPassed nodes id
is_passed_iff nodes id =
    any_iff (λ n. has_status passed n && str_eq n.id id) (λ n. (n.status ≡ passed) × (n.id ≡ id))
      (λ n.
        let a = status_eq_iff n.status passed in
        let b = eq_iff n.id id in
        (λ h. (a.0 (ground arith), b.0 (ground arith)), λ h. rw (a.1 h.0, b.1 h.1) refl))
      nodes

pub is_eligible_iff :
    (nodes : List WorkNode) (n : WorkNode) → (is_eligible nodes n ≡ true) ↔ IsReady nodes n
is_eligible_iff nodes n =
    let a = status_eq_iff n.status pending in
    let b = all_iff (is_passed nodes) (HasPassed nodes) (is_passed_iff nodes) n.dependencies in
    (λ h. (a.0 (ground arith), b.0 (ground arith)), λ h. rw (a.1 h.0, b.1 h.1) refl)

running_count-running_of : (nodes : List WorkNode) → running_count nodes ≡ running_of nodes
running_count-running_of [] = refl
running_count-running_of (n ∷ rest) =
    counted n.status (keep (has_status running) rest)
    ∙ ap (λ k. one_if_running n.status + k) (running_count-running_of rest)
  where
    counted :
        (status : NodeStatus) (l : List WorkNode)
        → length (if status_eq status running then n ∷ l else l) ≡ one_if_running status + length l
    counted pending l = omega arith
    counted ready l = omega arith
    counted running l = omega arith
    counted blocked l = omega arith
    counted failed l = omega arith
    counted passed l = omega arith

module _ (nodes : List WorkNode) where
  -- the identifiers of the first eligible nodes among some
  abbrev first_eligible : ℕ → List WorkNode → List String
  first_eligible k among = map (λ n. n.id) (take k (keep (is_eligible nodes) among))

  Picked-skip :
      (n : WorkNode) (ids : List String) (rest : List WorkNode)
      → ¬ IsReady nodes n
      → Picked nodes ids rest
      → Picked nodes ids (n ∷ rest)
  Picked-skip n [] rest unready h = tt
  Picked-skip n (id ∷ ids) rest unready h = inr (unready, h)

  first_eligible-Picked :
      (k : ℕ) (among : List WorkNode) → Picked nodes (first_eligible k among) among
  first_eligible-Picked zero among = tt
  first_eligible-Picked (suc k) [] = tt
  first_eligible-Picked (suc k) (n ∷ rest) = elim (Bool-cases (is_eligible nodes n)) [
    | inl e ↦ rw e (inl (refl, (is_eligible_iff nodes n).0 e, first_eligible-Picked k rest))
    | inr e ↦
        let unready : ¬ IsReady nodes n =
          λ h. absurd (ground (arith, (is_eligible_iff nodes n).1 h)) in
        rw e (
          Picked-skip n (first_eligible (suc k) rest) rest unready
            (first_eligible-Picked (suc k) rest))
  ]

  -- where fewer are taken than asked for, none of those ready among some is left out
  abbrev IsFull : ℕ → List String → List WorkNode → Type 0
  IsFull k ids among = length ids < k → All (λ n. IsReady nodes n → contains n.id ids ≡ true) among

  contains-cons :
      (id : String) (ids : List String) (n : WorkNode)
      → (IsReady nodes n → contains n.id ids ≡ true)
      → IsReady nodes n
      → contains n.id (id ∷ ids) ≡ true
  unfolding contains
  contains-cons id ids n f h = ground (arith, f h)

  contains_first : (id : String) (ids : List String) → contains id (id ∷ ids) ≡ true
  unfolding contains
  contains_first id ids = ground (arith, eq_iff id id)

  first_eligible-IsFull : (k : ℕ) (among : List WorkNode) → IsFull k (first_eligible k among) among
  first_eligible-IsFull zero among = λ h. absurd (omega arith)
  first_eligible-IsFull (suc k) [] = λ h. tt
  first_eligible-IsFull (suc k) (n ∷ rest) = elim (Bool-cases (is_eligible nodes n)) [
    | inl e ↦
        let ids = first_eligible k rest in
        let cut : n.id ∷ ids ≡ first_eligible (suc k) (n ∷ rest) = rw e refl in
        let full : IsFull (suc k) (n.id ∷ ids) (n ∷ rest) = λ h. (
          λ _. contains_first n.id ids,
          All-imp rest (contains-cons n.id ids) (first_eligible-IsFull k rest (omega arith)),
        ) in
        subst (λ l. IsFull (suc k) l (n ∷ rest)) cut full
    | inr e ↦
        let ids = first_eligible (suc k) rest in
        let cut : ids ≡ first_eligible (suc k) (n ∷ rest) = rw e refl in
        let full : IsFull (suc k) ids (n ∷ rest) = λ h. (
          λ r. absurd (ground (arith, (is_eligible_iff nodes n).1 r)),
          first_eligible-IsFull (suc k) rest h,
        ) in
        subst (λ l. IsFull (suc k) l (n ∷ rest)) cut full
  ]

  length-first_eligible : (k : ℕ) (among : List WorkNode) → length (first_eligible k among) ≤ k
  length-first_eligible k among =
      rw (length-map (λ n. n.id) (take k (keep (is_eligible nodes) among)))
        (length-take-le k (keep (is_eligible nodes) among))

-- No more nodes are ready than `max_parallel` exceeds the running ones. They are the first, in the
-- order of the graph, of the pending nodes for each of whose dependencies a node has passed, and all
-- of these where there are fewer than free places.
pub ready_nodes_lem :
    (s : Scheduler)
    → let nodes = s.graph.nodes in
      let free = s.max_parallel - running_of nodes in
      (length (ready_nodes s) ≤ free)
      × Picked nodes (ready_nodes s) nodes
      × (length (ready_nodes s) < free
          → All (λ n. IsReady nodes n → contains n.id (ready_nodes s) ≡ true) nodes)
unfolding ready_nodes
ready_nodes_lem s =
    let nodes = s.graph.nodes in
    let free = s.max_parallel - running_of nodes in
    let same : first_eligible nodes free nodes ≡ ready_nodes s =
      rw (running_count-running_of nodes) refl in
    subst
      (λ ids.
        (length ids ≤ free)
        × Picked nodes ids nodes
        × (length ids < free → All (λ n. IsReady nodes n → contains n.id ids ≡ true) nodes))
      same
      (
        length-first_eligible nodes free nodes,
        first_eligible-Picked nodes free nodes,
        first_eligible-IsFull nodes free nodes,
      )
