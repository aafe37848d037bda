-- ===== src/Scheduler/Ready.antt =====
-- orchestrator/src/engine/mod.rs: what `advance` changes.
use mathlib.Core.Path.{subst}
use boruna.Prelude.{
  ℕ, zero, suc, ◌-◌, ◌≡◌, refl, sym, ap, ◌∙◌, String, Bool, true, false, ◌&&◌, ◌||◌, List, [], ◌∷◌,
  arith, str_eq, eq_iff, if◌then◌else◌, any, keep, take, map, update_first, All, Bool-cases, inl,
  inr,
}
use boruna.Prelude.BTreeSet.{contains}
use boruna.Scheduler.Graph.{
  ready, WorkNode, Scheduler, with_status, with_nodes, running_count, is_eligible, ready_nodes,
  mark_all_ready, advance,
}
use boruna.Scheduler.Enabled.{All-imp, IsReady, is_eligible_iff}

-- no two nodes share an identifier
abbrev pub Distinct : List WorkNode → Type 0
Distinct [] = Unit
Distinct (n ∷ r) = (any (λ m. str_eq m.id n.id) r ≡ false) × Distinct r

module _ (p : WorkNode → Bool) where
  -- a node of this identifier passes the test
  abbrev holds_at : List WorkNode → String → Bool
  holds_at nodes id = any (λ m. p m && str_eq m.id id) nodes

  holds_at-keep :
      (id : String) (nodes : List WorkNode)
      → contains id (map (λ n. n.id) (keep p nodes)) ≡ holds_at nodes id
  unfolding contains
  holds_at-keep id [] = refl
  holds_at-keep id (n ∷ r) = ground (arith, holds_at-keep id r)

  fresh_holds :
      (x : WorkNode) (r : List WorkNode)
      → any (λ m. str_eq m.id x.id) r ≡ false
      → holds_at r x.id ≡ false
  fresh_holds x [] h = refl
  fresh_holds x (m ∷ r) h = ground (arith, fresh_holds x r)

  -- Where identifiers are distinct, only a node that passes the test has such an identifier.
  holds_at_self :
      (nodes : List WorkNode)
      → Distinct nodes
      → All (λ n. holds_at nodes n.id ≡ true → p n ≡ true) nodes
  holds_at_self [] d = tt
  holds_at_self (x ∷ r) d =
      (λ h. ground (arith, fresh_holds x r d.0), others x r r d.0 (holds_at_self r d.1))
    where
      others :
          (y : WorkNode) (all_of r : List WorkNode)
          → any (λ m. str_eq m.id y.id) r ≡ false
          → All (λ n. holds_at all_of n.id ≡ true → p n ≡ true) r
          → All (λ n. holds_at (y ∷ all_of) n.id ≡ true → p n ≡ true) r
      others y all_of [] h a = tt
      others y all_of (n ∷ r) h a = (
        λ k. a.0 (ground (arith, eq_iff n.id y.id, eq_iff y.id n.id)),
        others y all_of r (ground arith) a.1,
      )

contains-take :
    (k : ℕ) (id : String) (ids : List String)
    → contains id (take k ids) ≡ true
    → contains id ids ≡ true
unfolding contains
contains-take zero id ids h = cc
contains-take (suc k) id [] h = cc
contains-take (suc k) id (j ∷ ids) h = ground (arith, contains-take k id ids)

map-take : {A B : Type 0} (f : A → B) (k : ℕ) (xs : List A) → map f (take k xs) ≡ take k (map f xs)
map-take f zero xs = refl
map-take f (suc k) [] = refl
map-take f (suc k) (x ∷ xs) = ap (λ l. f x ∷ l) (map-take f k xs)

ready_nodes-is_eligible :
    (s : Scheduler) (id : String)
    → contains id (ready_nodes s) ≡ true
    → any (λ n. is_eligible s.graph.nodes n && str_eq n.id id) s.graph.nodes ≡ true
unfolding ready_nodes
ready_nodes-is_eligible s id h =
    let nodes = s.graph.nodes in
    let slots = s.max_parallel - running_count nodes in
    let eligible = keep (is_eligible nodes) nodes in
    sym (holds_at-keep (is_eligible nodes) id nodes)
    ∙ contains-take slots id (map (λ n. n.id) eligible)
        (ap (contains id) (sym (map-take (λ n. n.id) slots eligible)) ∙ h)

abbrev pub promote : List String → WorkNode → WorkNode
promote ids n = if contains n.id ids then with_status ready n else n

update_first_untouched :
    (id : String) (f : WorkNode → WorkNode) (nodes : List WorkNode)
    → any (λ m. str_eq m.id id) nodes ≡ false
    → map (λ n. if str_eq n.id id then f n else n) nodes ≡ nodes
update_first_untouched id f [] h = refl
update_first_untouched id f (n ∷ r) h = ground (arith, update_first_untouched id f r)

update_first-map :
    (id : String) (f : WorkNode → WorkNode) (nodes : List WorkNode)
    → Distinct nodes
    → update_first (λ n. str_eq n.id id) f nodes
      ≡ map (λ n. if str_eq n.id id then f n else n) nodes
update_first-map id f [] d = refl
update_first-map id f (n ∷ r) d = elim (Bool-cases (str_eq n.id id)) [
  | inl e ↦
      let fresh = subst (λ i. any (λ m. str_eq m.id i) r ≡ false) ((eq_iff n.id id).0 e) d.0 in
      rw (e, update_first, map) (ap (λ l. f n ∷ l) (sym (update_first_untouched id f r fresh)))
  | inr e ↦ rw (e, update_first, map) (ap (λ l. n ∷ l) (update_first-map id f r d.1))
]

module _ (f : WorkNode → WorkNode) (same_id : (n : WorkNode) → (f n).id ≡ n.id) where
  any-map_id :
      (id : String) (r : List WorkNode)
      → any (λ m. str_eq m.id id) (map f r) ≡ any (λ m. str_eq m.id id) r
  any-map_id id [] = refl
  any-map_id id (n ∷ r) = rw same_id (ap (λ b. str_eq n.id id || b) (any-map_id id r))

  pub Distinct-map : (nodes : List WorkNode) → Distinct nodes → Distinct (map f nodes)
  Distinct-map [] d = tt
  Distinct-map (n ∷ r) d = (rw same_id (any-map_id n.id r ∙ d.0), Distinct-map r d.1)

abbrev set_ready : String → WorkNode → WorkNode
set_ready id n = if str_eq n.id id then with_status ready n else n

set_ready_id : (id : String) (n : WorkNode) → (set_ready id n).id ≡ n.id
set_ready_id id n = ground arith

promote_after :
    (id : String) (rest : List String) (nodes : List WorkNode)
    → map (promote rest) (map (set_ready id) nodes) ≡ map (promote (id ∷ rest)) nodes
unfolding contains
promote_after id rest [] = refl
promote_after id rest (n ∷ r) =
    ground (arith, eq_iff n.id id, eq_iff id n.id, promote_after id rest r)

promote_none : (nodes : List WorkNode) → nodes ≡ map (promote []) nodes
unfolding contains
promote_none [] = refl
promote_none (n ∷ r) = ap (λ l. n ∷ l) (promote_none r)

mark_all_ready-map :
    (ids : List String) (nodes : List WorkNode)
    → Distinct nodes
    → mark_all_ready ids nodes ≡ map (promote ids) nodes
unfolding mark_all_ready
mark_all_ready-map [] nodes d = promote_none nodes
mark_all_ready-map (id ∷ rest) nodes d =
    ap (mark_all_ready rest) (update_first-map id (with_status ready) nodes d)
    ∙ (mark_all_ready-map rest (map (set_ready id) nodes)
          (Distinct-map (set_ready id) (set_ready_id id) nodes d)
        ∙ promote_after id rest nodes)

pub advance-is_eligible :
    (s : Scheduler)
    → Distinct s.graph.nodes
    → ((advance s).0 ≡ with_nodes s (map (promote (advance s).1) s.graph.nodes))
      × All
          (λ n. contains n.id (advance s).1 ≡ true → is_eligible s.graph.nodes n ≡ true)
          s.graph.nodes
unfolding advance
advance-is_eligible s d = (
  ap (with_nodes s) (mark_all_ready-map (ready_nodes s) s.graph.nodes d),
  All-imp s.graph.nodes (λ n a h. a (ready_nodes-is_eligible s n.id h))
      (holds_at_self (is_eligible s.graph.nodes) s.graph.nodes d),
)

-- Where identifiers are distinct, `advance` makes the nodes that it returns ready and changes no other
-- node, and these were pending, with a passed node for each dependency.
pub advance_lem :
    (s : Scheduler)
    → Distinct s.graph.nodes
    → ((advance s).0 ≡ with_nodes s (map (promote (advance s).1) s.graph.nodes))
      × All (λ n. contains n.id (advance s).1 ≡ true → IsReady s.graph.nodes n) s.graph.nodes
advance_lem s d =
    let (is, eligible) = advance-is_eligible s d in
    (is, All-imp s.graph.nodes (λ n a h. (is_eligible_iff s.graph.nodes n).0 (a h)) eligible)
