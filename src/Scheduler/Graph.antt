-- ===== src/Scheduler/Graph.antt =====
-- orchestrator/src/engine/{graph,mod}.rs: work graphs and the operations of `Scheduler` on the
-- status of their nodes. An operation returns the new graph with its result.
use boruna.Prelude.{
  ℕ, suc, ◌-◌, String, Bool, true, false, ◌&&◌, List, [], ◌∷◌, Option, none, some, Result, ok, err,
  str_eq, if◌then◌else◌, keep, find, all, any, take, map, length, update_first,
}

pub data NodeStatus : Type 0 where
  pending ready running blocked failed passed : NodeStatus

pub data Role : Type 0 where
  planner implementer reviewer red_team : Role

pub data ReviewResult : Type 0 where
  approved : ReviewResult
  rejected : String → ReviewResult

pub record WorkNode : Type 0 where
  pub id : String
  pub description : String
  pub inputs : List String
  pub outputs : List String
  pub dependencies : List String
  pub owner_role : Role
  pub tags : List String
  pub status : NodeStatus
  pub assigned_to : Option String
  pub patch_bundle : Option String
  pub review_result : Option ReviewResult

pub record WorkGraph : Type 0 where
  pub schema_version : ℕ
  pub id : String
  pub description : String
  pub nodes : List WorkNode

pub record Scheduler : Type 0 where
  pub graph : WorkGraph
  pub max_parallel : ℕ

-- `==` of two statuses, and of two roles
abbrev pub status_eq : NodeStatus → NodeStatus → Bool
status_eq pending pending = true
status_eq ready ready = true
status_eq running running = true
status_eq blocked blocked = true
status_eq failed failed = true
status_eq passed passed = true
status_eq _ _ = false

abbrev pub role_eq : Role → Role → Bool
role_eq planner planner = true
role_eq implementer implementer = true
role_eq reviewer reviewer = true
role_eq red_team red_team = true
role_eq _ _ = false

-- `Role::from_str` and the text of a role
unfoldable pub role_from_str : String → Option Role
role_from_str s =
    if str_eq s "planner"
    then some planner
    else if str_eq s "implementer"
    then some implementer
    else if str_eq s "reviewer"
    then some reviewer
    else if str_eq s "red-team"
    then some red_team
    else if str_eq s "redteam"
    then some red_team
    else none

unfoldable pub role_to_string : Role → String
role_to_string planner = "planner"
role_to_string implementer = "implementer"
role_to_string reviewer = "reviewer"
role_to_string red_team = "red-team"

unfoldable pub node : WorkGraph → String → Option WorkNode
node g id = find (λ n. str_eq n.id id) g.nodes

abbrev pub has_status : NodeStatus → WorkNode → Bool
has_status s n = status_eq n.status s

abbrev pub with_status : NodeStatus → WorkNode → WorkNode
with_status s n = record n { status = s }

abbrev pub with_nodes : Scheduler → List WorkNode → Scheduler
with_nodes s nodes = record s { graph = record s.graph { nodes = nodes } }

-- `passed.contains(id)`: the set of the identifiers of the passed nodes
abbrev pub is_passed : List WorkNode → String → Bool
is_passed nodes id = any (λ n. has_status passed n && str_eq n.id id) nodes

abbrev pub running_count : List WorkNode → ℕ
running_count nodes = length (keep (has_status running) nodes)

-- a pending node whose dependencies have all passed
abbrev pub is_eligible : List WorkNode → WorkNode → Bool
is_eligible nodes n = has_status pending n && all (is_passed nodes) n.dependencies

-- `saturating_sub` is `-` on ℕ
unfoldable pub ready_nodes : Scheduler → List String
ready_nodes s =
    map (λ n. n.id)
      (take (s.max_parallel - running_count s.graph.nodes)
        (keep (is_eligible s.graph.nodes) s.graph.nodes))

-- sets the status of the first node of each identifier
unfoldable pub mark_all_ready : List String → List WorkNode → List WorkNode
mark_all_ready [] nodes = nodes
mark_all_ready (id ∷ rest) nodes =
    mark_all_ready rest (update_first (λ n. str_eq n.id id) (with_status ready) nodes)

unfoldable pub advance : Scheduler → Scheduler × List String
advance s = let ids = ready_nodes s in (with_nodes s (mark_all_ready ids s.graph.nodes), ids)

abbrev pub is_assignable : Role → WorkNode → Bool
is_assignable role n = has_status ready n && role_eq n.owner_role role

-- `assign_next` after its call of `advance`
unfoldable pub start_one : Role → Scheduler → Scheduler × Option String
start_one role s = elim (find (is_assignable role) s.graph.nodes) [
  | none ↦ (s, none)
  | some n ↦ (
    with_nodes s (update_first (is_assignable role) (with_status running) s.graph.nodes),
    some n.id,
  )
]

unfoldable pub assign_next : Scheduler → Role → Scheduler × Option String
assign_next s role = start_one role (advance s).0

-- The error is the identifier of the node that is not there.
unfoldable pub mark : NodeStatus → Scheduler → String → Result Scheduler String
mark status s id = elim (find (λ n. str_eq n.id id) s.graph.nodes) [
  | none ↦ err id
  | some _ ↦
      ok (with_nodes s (update_first (λ n. str_eq n.id id) (with_status status) s.graph.nodes))
]

abbrev pub mark_passed : Scheduler → String → Result Scheduler String
mark_passed s id = mark passed s id

abbrev pub mark_failed : Scheduler → String → Result Scheduler String
mark_failed s id = mark failed s id

abbrev pub mark_blocked : Scheduler → String → Result Scheduler String
mark_blocked s id = mark blocked s id

pub record GraphSummary : Type 0 where
  pub total : ℕ
  pub pending : ℕ
  pub ready : ℕ
  pub running : ℕ
  pub blocked : ℕ
  pub failed : ℕ
  pub passed : ℕ

abbrev pub tally : NodeStatus → GraphSummary → GraphSummary
tally NodeStatus.pending s = record s { pending = suc s.pending }
tally NodeStatus.ready s = record s { ready = suc s.ready }
tally NodeStatus.running s = record s { running = suc s.running }
tally NodeStatus.blocked s = record s { blocked = suc s.blocked }
tally NodeStatus.failed s = record s { failed = suc s.failed }
tally NodeStatus.passed s = record s { passed = suc s.passed }

unfoldable pub tally_all : List WorkNode → GraphSummary → GraphSummary
tally_all [] s = s
tally_all (n ∷ rest) s = tally_all rest (tally n.status s)

unfoldable pub summary : List WorkNode → GraphSummary
unfolding tally_all
summary nodes = tally_all nodes (record {
  total = length nodes;
  pending = 0;
  ready = 0;
  running = 0;
  blocked = 0;
  failed = 0;
  passed = 0;
})
