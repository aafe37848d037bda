-- ===== src/Scheduler/Examples.antt =====
-- The scheduler at a concrete graph: a plan, code that depends on it, and a second plan.
use boruna.Prelude.{
  ℕ, ◌≤◌, ◌<◌, String, ◌≡◌, ◌↔◌, refl, true, some, none, List, [], ◌∷◌, ok, err, All, map, length,
}
use boruna.Prelude.BTreeMap
use boruna.Prelude.BTreeSet.{contains}
use boruna.Scheduler.Graph.{
  NodeStatus, pending, ready, running, passed, Role, planner, implementer, WorkNode, Scheduler,
  with_nodes, ready_nodes, running_count, advance, start_one, assign_next, mark_all_ready, summary,
  tally_all, role_from_str,
}
use boruna.Kahn.Loop.{link, insert_zero, increment, add_dependent, zero_degree, relax, drain, kahn}
use boruna.Kahn.Complete.{IsOrder}
use boruna.Scheduler.Dag.{
  zero_all, zero_nodes, link_nodes, enter_nodes, visited, validate, ordered, topological_order,
}
use boruna.Scheduler.Links.{node_ids, edges_of}
use boruna.Scheduler.Order.{HasNodeRank, validate_lem}
use boruna.Scheduler.Ready.{promote, advance_lem}
use boruna.Scheduler.Enabled.{IsReady, Picked, ready_nodes_lem}
use boruna.Scheduler.Sound.{IsSound, created, assigned, Reachable-IsSound}
use boruna.Scheduler.Parallel.{assign_next_overruns}

abbrev a_node : String → List String → Role → NodeStatus → WorkNode
a_node id deps role status = record {
  id = id;
  description = "";
  inputs = [];
  outputs = [];
  dependencies = deps;
  owner_role = role;
  tags = [];
  status = status;
  assigned_to = none;
  patch_bundle = none;
  review_result = none;
}

abbrev a_scheduler : ℕ → List WorkNode → Scheduler
a_scheduler max nodes = record {
  graph = record { schema_version = 1; id = "g"; description = ""; nodes = nodes };
  max_parallel = max;
}

abbrev plan_first : Scheduler
plan_first = a_scheduler 1 (
    a_node "plan" [] planner pending
    ∷ a_node "code" ("plan" ∷ []) implementer pending
    ∷ a_node "plan2" [] planner pending
    ∷ [])

abbrev plan_done : Scheduler
plan_done = a_scheduler 2 (
    a_node "plan" [] planner passed
    ∷ a_node "code" ("plan" ∷ []) implementer pending
    ∷ a_node "plan2" [] planner pending
    ∷ [])

-- one runs, which is as many as may, and another is ready from an earlier `advance`
abbrev one_ready : Scheduler
one_ready = a_scheduler 1 (a_node "plan" [] planner running ∷ a_node "plan2" [] planner ready ∷ [])

both_ready : ready_nodes plan_done ≡ "code" ∷ "plan2" ∷ []
unfolding ready_nodes
both_ready = refl

ready_nodes_lem_example :
    (length (ready_nodes plan_done) ≤ 2)
    × Picked plan_done.graph.nodes (ready_nodes plan_done) plan_done.graph.nodes
    × (length (ready_nodes plan_done) < 2
        → All
            (λ n. IsReady plan_done.graph.nodes n → contains n.id (ready_nodes plan_done) ≡ true)
            plan_done.graph.nodes)
ready_nodes_lem_example = ready_nodes_lem plan_done

advance_lem_example :
    ((advance plan_done).0
      ≡ with_nodes plan_done (map (promote (advance plan_done).1) plan_done.graph.nodes))
    × All
        (λ n. contains n.id (advance plan_done).1 ≡ true → IsReady plan_done.graph.nodes n)
        plan_done.graph.nodes
advance_lem_example = advance_lem plan_done (refl, (refl, (refl, tt)))

Reachable-IsSound_example : IsSound (assign_next plan_first planner).0.graph.nodes
Reachable-IsSound_example = Reachable-IsSound (
    assigned {s = plan_first}
      (created {s = plan_first} (refl, (refl, (refl, tt))) (refl, (refl, (refl, tt)))) planner)

plan_starts : (assign_next plan_first planner).1 ≡ some "plan"
unfolding assign_next start_one advance ready_nodes mark_all_ready
plan_starts = refl

assign_next_overruns_example :
    (running_count (assign_next one_ready planner).0.graph.nodes ≡ 2)
    × ((assign_next one_ready planner).1 ≡ some "plan2")
assign_next_overruns_example =
    assign_next_overruns one_ready planner (a_node "plan2" [] planner ready) refl refl

two_pending : (summary plan_done.graph.nodes).pending ≡ 2
unfolding summary tally_all
two_pending = refl

hyphen_optional : role_from_str "redteam" ≡ role_from_str "red-team"
unfolding role_from_str
hyphen_optional = refl

validate_lem_example :
    ((validate plan_done ≡ ok tt) ↔ HasNodeRank plan_done.graph.nodes)
    × (((order : List String) × (topological_order plan_done ≡ ok order))
        ↔ HasNodeRank plan_done.graph.nodes)
    × ((order : List String)
        → topological_order plan_done ≡ ok order
        → IsOrder (node_ids plan_done.graph.nodes) (edges_of plan_done.graph.nodes) order)
unfolding contains
validate_lem_example = validate_lem plan_done (refl, (refl, (refl, tt))) ((refl, refl), tt)

plan_order : topological_order plan_done ≡ ok ("plan" ∷ "plan2" ∷ "code" ∷ [])
unfolding topological_order ordered enter_nodes link insert_zero increment add_dependent zero_degree
    relax drain kahn BTreeMap.get BTreeMap.insert
plan_order = refl

-- A dependency that is no node is counted as a visited node.
absent_dependency :
    validate (a_scheduler 1 (a_node "code" ("plan" ∷ []) implementer pending ∷ [])) ≡ err (2, 1)
unfolding validate visited zero_nodes zero_all link_nodes link insert_zero increment add_dependent
    zero_degree relax drain kahn BTreeMap.get BTreeMap.insert
absent_dependency = refl
