-- ===== src/Actors/Failure.antt =====
-- crates/llmvm/src/actor.rs: the failure of an actor, and the turn of one that has failed.
use boruna.Prelude.{
  ℕ, zero, suc, ◌+◌, ◌==◌, ◌<◌, ◌≤◌, ◌≡◌, refl, sym, ap, ◌∙◌, true, false, List, [], ◌∷◌, some,
  arith, get_elem?, modify_at, All, update_first, ok, err,
}
use boruna.Bytecode.Value.{Value}
use boruna.Vm.Error.{VmError}
use boruna.Vm.Gateway.{Handler}
use boruna.Machine.Platform.{Platform}
use boruna.Vm.Client
use boruna.Vm.Client.{Outcome}
use boruna.Machine.Loop
use boruna.Machine.Loop.{Vm, execute_bounded, with_core}
use boruna.Actors.System
use boruna.Actors.System.{Actor, ActorSystem, Boxed, cascade_failure, children_in, fail_it}
use boruna.Actors.Turns.{
  after_slice, ticked, status_after, collect, collect_outgoing, drain_outgoing, drain_requests,
  fail_actor, slice, sliced, spawn_requests, take_turn,
}
use boruna.Actors.Kin.{AllFit, IsWell, get_elem?_id, get_elem?-modify_at, get-lt}
use boruna.Actors.Cascade.{IsBelow, reached, spared}

module _ {S : Type 0} where
  update_first-eq_modify_at :
      (f : Actor S → Actor S) (c i k n : ℕ) (actors : List (Actor S))
      → AllFit k n actors
      → c ≡ k + i
      → update_first (λ a. a.id == c) f actors ≡ modify_at i f actors
  update_first-eq_modify_at f c i k n [] w e = refl
  update_first-eq_modify_at f c zero k n (a ∷ rest) w e =
      let here : (a.id == c) ≡ true = ground (arith, w.0.id, e) in rw here refl
  update_first-eq_modify_at f c (suc i) k n (a ∷ rest) w e =
      let other : (a.id == c) ≡ false = ground (arith, w.0.id, e) in
      rw other
        (ap (λ l. a ∷ l) (update_first-eq_modify_at f c i (suc k) n rest w.1 (omega (arith, e))))

  children_in-get :
      (c i k n : ℕ) (actors : List (Actor S)) (a : Actor S)
      → AllFit k n actors
      → c ≡ k + i
      → get_elem? actors i ≡ some a
      → children_in actors c ≡ a.children
  children_in-get c i k n [] a w e at = absurd cc
  children_in-get c zero k n (b ∷ rest) a w e at =
      let here : (b.id == c) ≡ true = ground (arith, w.0.id, e) in
      let same : b ≡ a = cc in rw here (ap (λ (x : Actor S). x.children) same)
  children_in-get c (suc i) k n (b ∷ rest) a w e at =
      let other : (b.id == c) ≡ false = ground (arith, w.0.id, e) in
      rw other (children_in-get c i (suc k) n rest a w.1 (omega (arith, e)) at)

  -- the actors after a failure: the cascade from the actor itself
  fail_actor-eq_cascade :
      (idx : ℕ) (e : VmError) (sys : ActorSystem S) (a : Actor S)
      → IsWell sys
      → get_elem? sys.actors idx ≡ some a
      → (fail_actor idx e sys).1.actors
        ≡ cascade_failure (suc (suc sys.next_id)) (idx ∷ []) sys.actors
  unfolding fail_actor cascade_failure
  fail_actor-eq_cascade idx e sys a w at =
      rw (at, fail_actor)
        (ap (λ l. cascade_failure (suc sys.next_id) l (modify_at idx fail_it sys.actors))
            (sym (children_in-get idx idx 0 sys.next_id sys.actors a w.actors (omega arith) at))
          ∙ ap (λ l. cascade_failure (suc sys.next_id) (children_in sys.actors idx) l)
              (sym (
                update_first-eq_modify_at fail_it idx idx 0 sys.next_id sys.actors w.actors
                  (omega arith))))

  -- When an actor fails, it and every actor below it, its children, their children and so on, has
  -- failed and is otherwise as it was; every other actor is as it was.
  pub fail_actor_lem :
      (idx d : ℕ) (e : VmError) (sys : ActorSystem S) (a b : Actor S)
      → IsWell sys
      → get_elem? sys.actors idx ≡ some a
      → get_elem? sys.actors d ≡ some b
      → (IsBelow (children_in sys.actors) (idx ∷ []) d
          → get_elem? (fail_actor idx e sys).1.actors d ≡ some (fail_it b))
        × (¬ (IsBelow (children_in sys.actors) (idx ∷ []) d)
            → get_elem? (fail_actor idx e sys).1.actors d ≡ some b)
  fail_actor_lem idx d e sys a b w at there =
      let n = sys.next_id in
      let kids = children_in sys.actors in
      let lt = get-lt idx 0 n sys.actors a w.actors (omega (arith, w.next)) at in
      let fuel : All (λ c. (c < n) × (n ≤ suc (suc n) + c)) (idx ∷ []) =
        ((omega (arith, lt, get_elem?_id idx 0 n sys.actors a w.actors at), omega arith), tt) in
      let same = ap (λ l. get_elem? l d) (fail_actor-eq_cascade idx e sys a w at) in
      (
        λ h.
            same
            ∙ reached n kids (suc (suc n)) (idx ∷ []) d sys.actors b w.actors (λ id. refl) fuel h
                there,
        λ h.
            same
            ∙ spared n kids (suc (suc n)) (idx ∷ []) d sys.actors b w.actors (λ id. refl) h there,
      )

  sliced-fail_it :
      (a : Actor S) (o : Outcome (Loop.StepResult × Vm) Vm (Boxed S))
      → sliced (fail_it a) o ≡ ((sliced a o).0, fail_it (sliced a o).1)
  sliced-fail_it a (ok (r, vm), g, log) = refl
  sliced-fail_it a (err (e, vm), g, log) = refl

  -- the actor at a place is completed
  abbrev pub IsCompletedAt : ℕ → ActorSystem S → Type 0
  IsCompletedAt idx sys =
      (b : Actor S) × (get_elem? sys.actors idx ≡ some b) × (b.status ≡ System.completed)

  collect_outgoing-IsCompletedAt :
      (idx : ℕ) (sys : ActorSystem S) (c : Actor S)
      → get_elem? sys.actors idx ≡ some c
      → c.status ≡ System.completed
      → IsCompletedAt idx (collect_outgoing idx sys)
  unfolding collect_outgoing
  collect_outgoing-IsCompletedAt idx sys c at e =
      rw (at, collect_outgoing)
        (drain_outgoing c, get_elem?-modify_at idx drain_outgoing sys.actors c at, e)

module _ {S : Type 0} (platform : Platform) (clock : ℕ → ℕ) (handle : Handler S) where
  collect-IsCompletedAt :
      (idx : ℕ) (sys : ActorSystem S) (c : Actor S)
      → get_elem? sys.actors idx ≡ some c
      → c.status ≡ System.completed
      → c.vm.core.spawn_requests ≡ []
      → IsCompletedAt idx (collect platform clock handle idx sys).1
  unfolding collect spawn_requests
  collect-IsCompletedAt idx sys c at e none_spawned =
      let live = ap System.is_failed e in
      rw (at, live, none_spawned, collect)
        (collect_outgoing-IsCompletedAt idx
          (record sys { actors = modify_at idx drain_requests sys.actors }) (drain_requests c)
          (get_elem?-modify_at idx drain_requests sys.actors c at) e)

  after_slice-IsCompletedAt :
      (round idx : ℕ) (sys : ActorSystem S) (c : Actor S) (v : Value)
      (s : Loop.StepResult × Actor S)
      → s.0 ≡ Loop.completed v
      → s.1.vm.core.spawn_requests ≡ []
      → get_elem? sys.actors idx ≡ some c
      → IsCompletedAt idx (after_slice platform clock handle idx s.0 (ticked round idx s sys)).1
  after_slice-IsCompletedAt round idx sys c v (Loop.completed v', x) e r at =
      collect-IsCompletedAt idx (ticked round idx (Loop.completed v', x) sys)
        (status_after (Loop.completed v') x)
        (get_elem?-modify_at idx (λ _. status_after (Loop.completed v') x) sys.actors c at) refl r
  after_slice-IsCompletedAt round idx sys c v (Loop.yielded n, x) e r at = absurd cc
  after_slice-IsCompletedAt round idx sys c v (Loop.blocked, x) e r at = absurd cc
  after_slice-IsCompletedAt round idx sys c v (Loop.error n, x) e r at = absurd cc

  slice-fail_it :
      (next budget : ℕ) (b : Actor S)
      → slice platform clock handle next budget (fail_it b) ≡ (
        (slice platform clock handle next budget b).0,
        fail_it (slice platform clock handle next budget b).1,
      )
  unfolding slice
  slice-fail_it next budget b = sliced-fail_it b (
      Client.run (System.serve platform handle)
        (execute_bounded platform clock budget
          (with_core b.vm (record b.vm.core { next_spawn_id = next })))
        b.gateway b.event_log)

  -- The turn of an actor does not look at its status. When an actor fails and one below it still has a
  -- turn in the round, in which its machine completes without a request to spawn, then that actor is
  -- completed after its turn, although the failure had reached it.
  pub take_turn-IsCompletedAt :
      (round idx d : ℕ) (e : VmError) (sys : ActorSystem S) (a b : Actor S) (v : Value)
      → IsWell sys
      → get_elem? sys.actors idx ≡ some a
      → get_elem? sys.actors d ≡ some b
      → IsBelow (children_in sys.actors) (idx ∷ []) d
      → (slice platform clock handle
          (fail_actor idx e sys).1.next_id
          (fail_actor idx e sys).1.budget_per_round
          b).0
        ≡ Loop.completed v
      → (slice platform clock handle
          (fail_actor idx e sys).1.next_id
          (fail_actor idx e sys).1.budget_per_round
          b).1.vm.core.spawn_requests
        ≡ []
      → (get_elem? (fail_actor idx e sys).1.actors d ≡ some (fail_it b))
        × IsCompletedAt d (take_turn platform clock handle round d (fail_actor idx e sys).1).1
  unfolding take_turn
  take_turn-IsCompletedAt round idx d e sys a b v w at there below done none_spawned =
      let sys' = (fail_actor idx e sys).1 in
      let same = slice-fail_it sys'.next_id sys'.budget_per_round b in
      let failed_before = (fail_actor_lem idx d e sys a b w at there).0 below in
      (
        failed_before,
        rw (failed_before, take_turn)
            (after_slice-IsCompletedAt round d sys' (fail_it b) v
              (slice platform clock handle sys'.next_id sys'.budget_per_round (fail_it b))
              (ap (λ s. s.0) same ∙ done)
              (ap (λ (s : Loop.StepResult × Actor S). s.1.vm.core.spawn_requests) same
                ∙ none_spawned)
              failed_before),
      )
