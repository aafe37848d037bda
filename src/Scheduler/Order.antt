-- ===== src/Scheduler/Order.antt =====
-- orchestrator/src/engine/mod.rs: what `validate` and `topological_order` decide and return.
use mathlib.Core.Path.{subst}
use boruna.Prelude.{
  ℕ, suc, ◌≡◌, ◌↔◌, refl, sym, ap, ◌∙◌, String, Bool, List, [], ◌∷◌, ok, arith, length,
}
use boruna.Scheduler.Links.{
  node_ids, edges_of, entered-Grows, entered_keys, linked-Grows, linked_keys,
}
use boruna.Prelude.BTreeSet.{contains}
use boruna.Kahn.Loop.{kahn}
use boruna.Kahn.Counting.{IsDistinct}
use boruna.Kahn.Complete.{IsOrder, IsRankedOn, kahn-IsOrder}
use boruna.Kahn.Rank.{EdgesWithin, length-kahn_iff}
use boruna.Kahn.Building.{Grows-IsGraph}
use boruna.Scheduler.Graph.{WorkNode, Scheduler}
use boruna.Scheduler.Dag.{
  zero_nodes, link_nodes, enter_nodes, visited, validate, ordered, topological_order,
}

length-node_ids : (nodes : List WorkNode) → length (node_ids nodes) ≡ length nodes
length-node_ids [] = refl
length-node_ids (n ∷ nodes) = ap suc (length-node_ids nodes)

visited_iff : (n total : ℕ) → (visited n total ≡ ok tt) ↔ (n ≡ total)
unfolding visited
visited_iff n total = ground arith

ordered_iff :
    (returned order : List String) (total : ℕ)
    → (ordered returned total ≡ ok order) ↔ ((length returned ≡ total) × (returned ≡ order))
unfolding ordered
ordered_iff returned order total = ground arith

-- a rank of the nodes that grows from every dependency to its node
abbrev pub HasNodeRank : List WorkNode → Type 0
HasNodeRank nodes = (rank : String → ℕ) × IsRankedOn rank (node_ids nodes) (edges_of nodes)

-- Where identifiers are distinct and dependencies are nodes, `validate` accepts exactly the graphs with
-- no cycle, `topological_order` returns an order for exactly these, and the order has every node once,
-- after its dependencies.
pub validate_lem :
    (s : Scheduler)
    → IsDistinct (node_ids s.graph.nodes)
    → EdgesWithin (node_ids s.graph.nodes) (edges_of s.graph.nodes)
    → ((validate s ≡ ok tt) ↔ HasNodeRank s.graph.nodes)
      × (((order : List String) × (topological_order s ≡ ok order)) ↔ HasNodeRank s.graph.nodes)
      × ((order : List String)
          → topological_order s ≡ ok order
          → IsOrder (node_ids s.graph.nodes) (edges_of s.graph.nodes) order)
unfolding validate topological_order
validate_lem s d w =
    let nodes = s.graph.nodes in
    let ids = node_ids nodes in
    let es = edges_of nodes in
    let entered = enter_nodes nodes [] [] in
    let linked = link_nodes nodes [] (zero_nodes nodes []) in
    let known : String → Bool = λ v. contains v ids in
    let entered_graph = Grows-IsGraph known es entered.0 entered.1 (entered-Grows nodes) in
    let linked_graph = Grows-IsGraph known es linked.0 linked.1 (linked-Grows nodes w) in
    let by_entered =
      length-kahn_iff ids es entered.0 entered.1 entered_graph (entered_keys nodes) d w in
    let by_linked =
      length-kahn_iff ids es linked.0 linked.1 linked_graph (linked_keys nodes w) d w in
    let total = length-node_ids nodes in
    (
      (
        λ h. by_linked.0 ((visited_iff _ (length nodes)).0 h ∙ sym total),
        λ r. (visited_iff _ (length nodes)).1 (by_linked.1 r ∙ total),
      ),
      (
        λ o. by_entered.0 (((ordered_iff _ o.0 (length nodes)).0 o.1).0 ∙ sym total),
        λ r. (
          kahn entered.0 entered.1,
          (ordered_iff _ _ (length nodes)).1 (by_entered.1 r ∙ total, refl),
        ),
      ),
      λ order h.
          let (full, same) = (ordered_iff (kahn entered.0 entered.1) order (length nodes)).0 h in
          subst (IsOrder ids es) same (
            kahn-IsOrder ids es entered.0 entered.1 entered_graph (entered_keys nodes)
              (full ∙ sym total)),
    )
