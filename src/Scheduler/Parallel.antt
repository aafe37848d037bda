-- ===== src/Scheduler/Parallel.antt =====
-- orchestrator/src/engine/mod.rs: the limit on nodes that run at the same time.
use boruna.Prelude.{suc, ◌-◌, ◌≡◌, refl, ap, ◌∙◌, List, [], ◌∷◌, some, arith, find, update_first}
use boruna.Scheduler.Graph.{
  running, Role, WorkNode, Scheduler, with_status, running_count, is_assignable, ready_nodes,
  mark_all_ready, advance, start_one, assign_next,
}

-- With no free slot nothing becomes ready.
advance-full : (s : Scheduler) → running_count s.graph.nodes ≡ s.max_parallel → advance s ≡ (s, [])
unfolding advance ready_nodes mark_all_ready
advance-full s e =
    let none_free : s.max_parallel - running_count s.graph.nodes ≡ 0 = omega (arith, e) in
    rw none_free refl

running_count-start :
    (role : Role) (ns : List WorkNode) (n : WorkNode)
    → find (is_assignable role) ns ≡ some n
    → running_count (update_first (is_assignable role) (with_status running) ns)
      ≡ suc (running_count ns)
running_count-start role [] n e = cc
running_count-start role (m ∷ r) n e = ground (arith, running_count-start role r n)

-- Where as many nodes run as may run at a time and a node is ready already, `assign_next` for the role
-- of such a node still starts one: then one node more runs than `max_parallel`.
pub assign_next_overruns :
    (s : Scheduler) (role : Role) (n : WorkNode)
    → running_count s.graph.nodes ≡ s.max_parallel
    → find (is_assignable role) s.graph.nodes ≡ some n
    → (running_count (assign_next s role).0.graph.nodes ≡ suc s.max_parallel)
      × ((assign_next s role).1 ≡ some n.id)
unfolding assign_next start_one
assign_next_overruns s role n full e =
    let same : assign_next s role ≡ start_one role s =
      ap (λ p. start_one role p.0) (advance-full s full) in
    rw (same, e, start_one) (running_count-start role s.graph.nodes n e ∙ ap suc full, refl)
