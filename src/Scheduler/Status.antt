-- ===== src/Scheduler/Status.antt =====
-- orchestrator/src/engine/mod.rs: what the `mark` operations change, and the summary.
use boruna.Prelude.{
  ℕ, ◌+◌, ◌≡◌, ◌≢◌, refl, ◌∙◌, String, List, [], ◌∷◌, none, some, ok, err, arith, str_eq, eq_iff,
  if◌then◌else◌, find, update_first, length, keep,
}
use boruna.Scheduler.Graph.{
  NodeStatus, pending, ready, running, blocked, failed, passed, WorkNode, Scheduler, node, mark,
  with_status, with_nodes, GraphSummary, tally, tally_all, summary, has_status,
}

-- the lookups after the first node of an identifier has got a status
find-update :
    (status : NodeStatus) (id j : String) (nodes : List WorkNode)
    → find (λ n. str_eq n.id j) (update_first (λ n. str_eq n.id id) (with_status status) nodes) ≡ (
        if str_eq id j
        then elim (find (λ n. str_eq n.id j) nodes) [
          | none ↦ none
          | some n ↦ some (with_status status n)
        ]
        else find (λ n. str_eq n.id j) nodes)
find-update status id j [] = ground arith
find-update status id j (n ∷ r) =
    ground (arith, eq_iff n.id id, eq_iff n.id j, eq_iff id j, find-update status id j r)

-- A node is marked exactly if it is there. Then its lookup has the new status and nothing else new,
-- and the lookup of every other node is what it was.
mark_lem :
    (status : NodeStatus) (s : Scheduler) (id : String)
    → (node s.graph id ≡ none → mark status s id ≡ err id)
      × ((n : WorkNode)
          → node s.graph id ≡ some n
          → (s' : Scheduler) × (mark status s id ≡ ok s')
            × (node s'.graph id ≡ some (with_status status n))
            × ((j : String) → id ≢ j → node s'.graph j ≡ node s.graph j))
unfolding mark node
mark_lem status s id = (
  λ e. rw (e, mark),
  λ n e. (
    with_nodes s (update_first (λ m. str_eq m.id id) (with_status status) s.graph.nodes),
    rw (e, mark),
    find-update status id id s.graph.nodes ∙ ground (arith, eq_iff id id),
    λ j d. find-update status id j s.graph.nodes ∙ ground (arith, eq_iff id j),
  ),
)

abbrev pub count_status : NodeStatus → List WorkNode → ℕ
count_status s nodes = length (keep (has_status s) nodes)

-- a summary with the nodes of a list added
abbrev pub Adds : List WorkNode → GraphSummary → GraphSummary → Type 0
Adds nodes s t =
    (t.total ≡ s.total)
    × (t.pending ≡ s.pending + count_status pending nodes)
    × (t.ready ≡ s.ready + count_status ready nodes)
    × (t.running ≡ s.running + count_status running nodes)
    × (t.blocked ≡ s.blocked + count_status blocked nodes)
    × (t.failed ≡ s.failed + count_status failed nodes)
    × (t.passed ≡ s.passed + count_status passed nodes)

tally_all-Adds : (nodes : List WorkNode) (s : GraphSummary) → Adds nodes s (tally_all nodes s)
unfolding tally_all
tally_all-Adds [] s = omega arith
tally_all-Adds (n ∷ r) s = ground (arith, tally_all-Adds r (tally n.status s))

count_all :
    (nodes : List WorkNode)
    → count_status pending nodes
        + count_status ready nodes
        + count_status running nodes
        + count_status blocked nodes
        + count_status failed nodes
        + count_status passed nodes
      ≡ length nodes
count_all [] = refl
count_all (n ∷ r) = ground (arith, count_all r)

-- Each field of the summary counts the nodes of its status, and together they are the total.
summary_counts :
    (nodes : List WorkNode)
    → let t = summary nodes in
      (t.pending ≡ count_status pending nodes)
      × (t.ready ≡ count_status ready nodes)
      × (t.running ≡ count_status running nodes)
      × (t.blocked ≡ count_status blocked nodes)
      × (t.failed ≡ count_status failed nodes)
      × (t.passed ≡ count_status passed nodes)
      × (t.pending + t.ready + t.running + t.blocked + t.failed + t.passed ≡ t.total)
unfolding summary
summary_counts nodes = omega (
  arith,
  count_all nodes,
  tally_all-Adds nodes (record {
    total = length nodes;
    pending = 0;
    ready = 0;
    running = 0;
    blocked = 0;
    failed = 0;
    passed = 0;
  }),
)
