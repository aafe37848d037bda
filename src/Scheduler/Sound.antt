-- ===== src/Scheduler/Sound.antt =====
-- orchestrator/src/engine/mod.rs: no node is ready or running before its dependencies have passed.
use mathlib.Core.Path.{subst}
use boruna.Prelude.{
  ◌≡◌, refl, sym, ◌∙◌, inl, inr, String, Bool, true, false, List, [], ◌∷◌, some, ok, err, arith,
  str_eq, map, find, update_first, All, Option-cases,
}
use boruna.Scheduler.Graph.{
  NodeStatus, pending, running, passed, failed, blocked, Role, WorkNode, Scheduler, has_status,
  with_status, with_nodes, is_assignable, advance, start_one, assign_next, mark, mark_passed,
  mark_failed, mark_blocked, node,
}
use boruna.Scheduler.Ready.{Distinct, promote, advance-is_eligible}
use boruna.Scheduler.Evolves.{
  is_started, deps_passed, Evolves, EvolvesAll, Distinct-evolves, started-evolves,
  Evolves-update_first, find-holds, evolves-promote, to_started,
}

pub record IsSound (nodes : List WorkNode) : Type 0 where
  pub distinct : Distinct nodes
  pub started : All (λ n. is_started n ≡ true → deps_passed nodes n ≡ true) nodes

IsSound-evolves : (ns ms : List WorkNode) → EvolvesAll ns ns ms → IsSound ns → IsSound ms
IsSound-evolves ns ms e i = record {
  distinct = Distinct-evolves ns ns ms e i.distinct;
  started = started-evolves ns ms ns ms e e i.started;
}

advance-IsSound : (s : Scheduler) → IsSound s.graph.nodes → IsSound (advance s).0.graph.nodes
advance-IsSound s i =
    let (is, eligible) = advance-is_eligible s i.distinct in
    rw is (
      IsSound-evolves s.graph.nodes (map (promote (advance s).1) s.graph.nodes)
        (evolves-promote s.graph.nodes (advance s).1 s.graph.nodes eligible) i)

assign_next-IsSound :
    (s : Scheduler) (role : Role)
    → IsSound s.graph.nodes
    → IsSound (assign_next s role).0.graph.nodes
unfolding assign_next start_one
assign_next-IsSound s role i =
    let ns = (advance s).0.graph.nodes in
    let j = advance-IsSound s i in
    elim (Option-cases (find (is_assignable role) ns)) [
      | inl e ↦ rw (e, start_one) j
      | inr (n, e) ↦
          rw (e, start_one)
            (IsSound-evolves ns (update_first (is_assignable role) (with_status running) ns)
              (Evolves-update_first ns (is_assignable role) (with_status running) ns (λ m k.
                let a = find-holds (is_assignable role) ns m k in
                to_started ns running m (ground (arith, a)) (inl (ground (arith, a)))))
              j)
    ]

-- `passed` may be given to any node; another status that is not started, to a node that has not passed.
mark-Evolves :
    (status : NodeStatus) (s : Scheduler) (id : String)
    → ((n : WorkNode) → node s.graph id ≡ some n → Evolves s.graph.nodes n (with_status status n))
    → IsSound s.graph.nodes
    → (s' : Scheduler) → mark status s id ≡ ok s'
    → IsSound s'.graph.nodes
unfolding mark node
mark-Evolves status s id change i s' e =
    let nodes = s.graph.nodes in
    let test : WorkNode → Bool = λ n. str_eq n.id id in
    elim (Option-cases (find test nodes)) [
      | inl missing ↦ let m : mark status s id ≡ err id = rw (missing, mark) refl in cc
      | inr (n, found) ↦
          let m : mark status s id
              ≡ ok (with_nodes s (update_first test (with_status status) nodes)) =
            rw (found, mark) refl in
          let same : with_nodes s (update_first test (with_status status) nodes) ≡ s' = cc in
          subst (λ t. IsSound t.graph.nodes) same
            (IsSound-evolves nodes (update_first test (with_status status) nodes)
              (Evolves-update_first nodes test (with_status status) nodes change) i)
    ]

-- What the orchestrator does to a graph whose nodes are all pending at first. A node is marked failed
-- or blocked only if it has not passed.
pub data Reachable : Scheduler → Type 0 where
  created :
      {s : Scheduler}
      → Distinct s.graph.nodes
      → All (λ n. has_status pending n ≡ true) s.graph.nodes
      → Reachable s
  advanced : {s : Scheduler} → Reachable s → Reachable (advance s).0
  assigned : {s : Scheduler} → Reachable s → (role : Role) → Reachable (assign_next s role).0
  was_passed :
      {s s' : Scheduler} (id : String) → Reachable s → mark_passed s id ≡ ok s' → Reachable s'
  was_failed :
      {s s' : Scheduler} (id : String) (n : WorkNode)
      → Reachable s
      → node s.graph id ≡ some n
      → has_status passed n ≡ false
      → mark_failed s id ≡ ok s'
      → Reachable s'
  was_blocked :
      {s s' : Scheduler} (id : String) (n : WorkNode)
      → Reachable s
      → node s.graph id ≡ some n
      → has_status passed n ≡ false
      → mark_blocked s id ≡ ok s'
      → Reachable s'

All-pending :
    (ctx ns : List WorkNode)
    → All (λ n. has_status pending n ≡ true) ns
    → All (λ n. is_started n ≡ true → deps_passed ctx n ≡ true) ns
All-pending ctx [] a = tt
All-pending ctx (n ∷ r) a = (λ h. ground (arith, a.0), All-pending ctx r a.1)

to_passed : (ctx : List WorkNode) (n : WorkNode) → Evolves ctx n (with_status passed n)
to_passed ctx n = record {
  same_id = refl;
  same_deps = refl;
  stays = λ k. refl;
  starts = λ k. ground arith;
}

to_stopped :
    (ctx : List WorkNode) (status : NodeStatus) (n m : WorkNode)
    → is_started (with_status status n) ≡ false
    → has_status passed n ≡ false
    → some n ≡ some m
    → Evolves ctx m (with_status status m)
to_stopped ctx status n m stopped h e =
    let same : n ≡ m = cc in
    subst (λ k. Evolves ctx k (with_status status k)) same
      (record {
        same_id = refl;
        same_deps = refl;
        stays = λ k. ground arith;
        starts = λ k. ground arith;
      })

-- From a graph of pending nodes with distinct identifiers, by advancing, assigning, marking nodes
-- passed, and marking nodes failed or blocked that have not passed: every node that is ready or
-- running has dependencies that have all passed, and identifiers stay distinct.
pub Reachable-IsSound : {s : Scheduler} → Reachable s → IsSound s.graph.nodes
Reachable-IsSound (created {s} d a) = record {
  distinct = d;
  started = All-pending s.graph.nodes s.graph.nodes a;
}
Reachable-IsSound (advanced {s} r) = advance-IsSound s (Reachable-IsSound r)
Reachable-IsSound (assigned {s} r role) = assign_next-IsSound s role (Reachable-IsSound r)
Reachable-IsSound (was_passed {s} {s'} id r e) =
    mark-Evolves passed s id (λ n _. to_passed s.graph.nodes n) (Reachable-IsSound r) s' e
Reachable-IsSound (was_failed {s} {s'} id n r found h e) =
    mark-Evolves failed s id (λ m k. to_stopped s.graph.nodes failed n m refl h (sym found ∙ k))
      (Reachable-IsSound r) s' e
Reachable-IsSound (was_blocked {s} {s'} id n r found h e) =
    mark-Evolves blocked s id (λ m k. to_stopped s.graph.nodes blocked n m refl h (sym found ∙ k))
      (Reachable-IsSound r) s' e
