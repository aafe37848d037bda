-- ===== src/Scheduler/Evolves.antt =====
-- orchestrator/src/engine/mod.rs: how an operation may change the nodes, for `Sound`.
use boruna.Prelude.{
  ◌≡◌, refl, ap, ◌∙◌, ◌⊎◌, inl, inr, String, Bool, true, false, ◌||◌, List, [], ◌∷◌, some, arith,
  str_eq, any, all, map, find, update_first, All, Bool-cases,
}
use boruna.Prelude.BTreeSet.{contains}
use boruna.Scheduler.Graph.{
  NodeStatus, ready, running, passed, WorkNode, has_status, with_status, is_passed, is_eligible,
}
use boruna.Scheduler.Ready.{Distinct, promote}

abbrev pub is_started : WorkNode → Bool
is_started n = has_status ready n || has_status running n

abbrev pub deps_passed : List WorkNode → WorkNode → Bool
deps_passed nodes n = all (is_passed nodes) n.dependencies

-- How a node may change: it keeps its identifier and dependencies, a passed node stays passed, and a
-- node that is started now was started or has had its dependencies passed.
pub record Evolves (ctx : List WorkNode) (n m : WorkNode) : Type 0 where
  pub same_id : m.id ≡ n.id
  pub same_deps : m.dependencies ≡ n.dependencies
  pub stays : has_status passed n ≡ true → has_status passed m ≡ true
  pub starts : is_started m ≡ true → (is_started n ≡ true) ⊎ (deps_passed ctx n ≡ true)

abbrev pub EvolvesAll : List WorkNode → List WorkNode → List WorkNode → Type 0
EvolvesAll ctx [] [] = Unit
EvolvesAll ctx (n ∷ r) (m ∷ s) = Evolves ctx n m × EvolvesAll ctx r s
EvolvesAll ctx _ _ = ⊥

same_ids :
    (ctx ns ms : List WorkNode) (id : String)
    → EvolvesAll ctx ns ms
    → any (λ m. str_eq m.id id) ms ≡ any (λ m. str_eq m.id id) ns
same_ids ctx [] [] id e = refl
same_ids ctx [] (m ∷ s) id e = absurd e
same_ids ctx (n ∷ r) [] id e = absurd e
same_ids ctx (n ∷ r) (m ∷ s) id e =
    rw (e.0.same_id) (ap (λ b. str_eq n.id id || b) (same_ids ctx r s id e.1))

pub Distinct-evolves :
    (ctx ns ms : List WorkNode) → EvolvesAll ctx ns ms → Distinct ns → Distinct ms
Distinct-evolves ctx [] [] e d = tt
Distinct-evolves ctx [] (m ∷ s) e d = absurd e
Distinct-evolves ctx (n ∷ r) [] e d = absurd e
Distinct-evolves ctx (n ∷ r) (m ∷ s) e d =
    (rw (e.0.same_id) (same_ids ctx r s n.id e.1 ∙ d.0), Distinct-evolves ctx r s e.1 d.1)

is_passed-evolves :
    (ctx ns ms : List WorkNode) (id : String)
    → EvolvesAll ctx ns ms
    → is_passed ns id ≡ true
    → is_passed ms id ≡ true
is_passed-evolves ctx [] [] id e h = h
is_passed-evolves ctx [] (m ∷ s) id e h = absurd e
is_passed-evolves ctx (n ∷ r) [] id e h = absurd e
is_passed-evolves ctx (n ∷ r) (m ∷ s) id e h =
    let ids : str_eq m.id id ≡ str_eq n.id id = ap (λ i. str_eq i id) e.0.same_id in
    ground (arith, ids, e.0.stays, is_passed-evolves ctx r s id e.1)

all-evolves :
    (ctx ns ms : List WorkNode) (ids : List String)
    → EvolvesAll ctx ns ms
    → all (is_passed ns) ids ≡ true
    → all (is_passed ms) ids ≡ true
all-evolves ctx ns ms [] e h = refl
all-evolves ctx ns ms (id ∷ ids) e h =
    ground (arith, is_passed-evolves ctx ns ms id e, all-evolves ctx ns ms ids e)

pub started-evolves :
    (all_of after ns ms : List WorkNode)
    → EvolvesAll all_of all_of after
    → EvolvesAll all_of ns ms
    → All (λ n. is_started n ≡ true → deps_passed all_of n ≡ true) ns
    → All (λ n. is_started n ≡ true → deps_passed after n ≡ true) ms
started-evolves all_of after [] [] whole e a = tt
started-evolves all_of after [] (m ∷ s) whole e a = absurd e
started-evolves all_of after (n ∷ r) [] whole e a = absurd e
started-evolves all_of after (n ∷ r) (m ∷ s) whole e a = (
  λ h. rw (e.0.same_deps) (
      all-evolves all_of all_of after n.dependencies whole
        (elim (e.0.starts h) [ inl was ↦ a.0 was | inr met ↦ met ])),
  started-evolves all_of after r s whole e.1 a.1,
)

pub unchanged : (ctx : List WorkNode) (n : WorkNode) → Evolves ctx n n
unchanged ctx n = record { same_id = refl; same_deps = refl; stays = λ h. h; starts = λ h. inl h }

pub all_unchanged : (ctx ns : List WorkNode) → EvolvesAll ctx ns ns
all_unchanged ctx [] = tt
all_unchanged ctx (n ∷ r) = (unchanged ctx n, all_unchanged ctx r)

-- one node that passes a test is changed, the others are not
pub Evolves-update_first :
    (ctx : List WorkNode) (p : WorkNode → Bool) (f : WorkNode → WorkNode) (ns : List WorkNode)
    → ((n : WorkNode) → find p ns ≡ some n → Evolves ctx n (f n))
    → EvolvesAll ctx ns (update_first p f ns)
Evolves-update_first ctx p f [] h = tt
Evolves-update_first ctx p f (n ∷ r) h = elim (Bool-cases (p n)) [
  | inl e ↦ rw (e, update_first) (h n (rw (e, find)), all_unchanged ctx r)
  | inr e ↦
      rw (e, update_first)
        (unchanged ctx n, Evolves-update_first ctx p f r (λ m k. h m (rw (e, find) k)))
]

pub find-holds :
    (p : WorkNode → Bool) (ns : List WorkNode) (n : WorkNode) → find p ns ≡ some n → p n ≡ true
find-holds p [] n h = cc
find-holds p (m ∷ r) n h = ground (arith, find-holds p r n)

pub to_started :
    (ctx : List WorkNode) (s : NodeStatus) (n : WorkNode)
    → has_status passed n ≡ false
    → (is_started n ≡ true) ⊎ (deps_passed ctx n ≡ true)
    → Evolves ctx n (with_status s n)
to_started ctx s n h before = record {
  same_id = refl;
  same_deps = refl;
  stays = λ k. ground arith;
  starts = λ k. before;
}

promoted :
    (ctx : List WorkNode) (ids : List String) (n : WorkNode)
    → (contains n.id ids ≡ true → is_eligible ctx n ≡ true)
    → Evolves ctx n (promote ids n)
promoted ctx ids n h = elim (Bool-cases (contains n.id ids)) [
  | inl e ↦ rw e (to_started ctx ready n (ground (arith, h e)) (inr (ground (arith, h e))))
  | inr e ↦ rw e (unchanged ctx n)
]

pub evolves-promote :
    (ctx : List WorkNode) (ids : List String) (ns : List WorkNode)
    → All (λ n. contains n.id ids ≡ true → is_eligible ctx n ≡ true) ns
    → EvolvesAll ctx ns (map (promote ids) ns)
evolves-promote ctx ids [] a = tt
evolves-promote ctx ids (n ∷ r) a = (promoted ctx ids n a.0, evolves-promote ctx ids r a.1)
