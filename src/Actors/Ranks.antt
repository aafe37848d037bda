-- ===== src/Actors/Ranks.antt =====
-- crates/llmvm/src/actor.rs: a run keeps the identifiers of the actors in order.
use mathlib.Core.Path.{subst}
use boruna.Prelude.{
  ℕ, zero, suc, ◌<◌, ◌≡◌, refl, sym, ap, ◌∙◌, ◌&&◌, List, [], ◌∷◌, Option, none, some, Result, ok,
  err, arith, length, get_elem?, modify_at, push, String, Option-cases, inl, inr, Bool-cases,
}
use boruna.Bytecode.Value.{Value}
use boruna.Vm.Error.{VmError, invalid_function}
use boruna.Vm.Gateway.{Handler}
use boruna.Vm.Client
use boruna.Vm.Client.{Outcome}
use boruna.Machine.Platform.{Platform}
use boruna.Machine.Module.{Module}
use boruna.Machine.State.{Core}
use boruna.Machine.Loop
use boruna.Machine.Loop.{StepResult, Vm, execute_bounded, set_entry_function, with_core}
use boruna.Actors.System
use boruna.Actors.System.{
  Actor, ActorSystem, Boxed, Pending, deliver_all, deliver_message, deliver_messages, deliver_one,
  fresh_actor, has_messages, is_blocked, is_failed, message_of, receives, sort_pending, wake,
  wake_all, wake_blocked_actors,
}
use boruna.Actors.Turns.{
  adopt, after_requests, after_slice, and_then, child_of, collect, collect_outgoing, drain_outgoing,
  drain_requests, entered, fail_actor, name_of, slice, spawn_requests, status_after, take_turn,
  take_turns, ticked, unless_ended, run_queue, with_child,
}
use boruna.Actors.Scheduling.{
  after_turns, delivered, enter_root, from_root, idle, one_round, or_next, rooted, run, run_from,
  run_rounds, with_queue,
}
use boruna.Actors.Kin.{
  AllFit, Fits, IsWell, adopt-IsWell, fail_actor-IsWell, get-lt, get_elem?-modify_at,
  get_elem?-push, length-update_first, modified-IsWell, sliced-Fits, update_first-AllFit,
}

module _ {S : Type 0} where
  deliver_all-IsWell :
      (ps : List Pending) (sys : ActorSystem S) → IsWell sys → IsWell (deliver_all ps sys)
  unfolding deliver_all deliver_one
  deliver_all-IsWell [] sys w = w
  deliver_all-IsWell (p ∷ rest) sys w = deliver_all-IsWell rest (deliver_one p sys) (record {
    next =
        w.next
        ∙ sym (length-update_first (receives p.to) (deliver_message (message_of p)) sys.actors);
    actors =
        update_first-AllFit 0 sys.next_id (receives p.to) (deliver_message (message_of p))
          sys.actors (λ j a h. record { id = h.id; below = h.below; above = h.above }) w.actors;
  })

  wake-Fits : (j n : ℕ) (a : Actor S) → Fits j n a → Fits j n (wake a)
  wake-Fits j n a w = elim (Bool-cases (is_blocked a.status && has_messages a)) [
    | inl e ↦ rw e (record { id = w.id; below = w.below; above = w.above })
    | inr e ↦ rw e w
  ]

  wake_all-AllFit :
      (k n : ℕ) (actors : List (Actor S)) → AllFit k n actors → AllFit k n (wake_all actors)
  unfolding wake_all
  wake_all-AllFit k n [] w = w
  wake_all-AllFit k n (a ∷ rest) w = (wake-Fits k n a w.0, wake_all-AllFit (suc k) n rest w.1)

  length-wake_all : (actors : List (Actor S)) → length (wake_all actors) ≡ length actors
  unfolding wake_all
  length-wake_all [] = refl
  length-wake_all (a ∷ rest) = ap suc (length-wake_all rest)

  delivered-IsWell : (sys : ActorSystem S) → IsWell sys → IsWell (delivered sys)
  unfolding deliver_messages wake_blocked_actors
  delivered-IsWell sys w =
      let start = record sys { pending_messages = [] } in
      let sorted = sort_pending sys.pending_messages in
      let sent = deliver_all-IsWell sorted start (record { next = w.next; actors = w.actors }) in
      record {
        next = sent.next ∙ sym (length-wake_all (deliver_all sorted start).actors);
        actors = wake_all-AllFit 0 _ (deliver_all sorted start).actors sent.actors;
      }

  collect_outgoing-IsWell :
      (idx : ℕ) (sys : ActorSystem S) → IsWell sys → IsWell (collect_outgoing idx sys)
  unfolding collect_outgoing
  collect_outgoing-IsWell idx sys w = elim (Option-cases (get_elem? sys.actors idx)) [
    | inl e ↦ rw (e, collect_outgoing) w
    | inr (a, e) ↦
        let m =
          modified-IsWell idx drain_outgoing sys
            (λ j n b _ h. record { id = h.id; below = h.below; above = h.above }) w in
        rw (e, collect_outgoing) (record { next = m.next; actors = m.actors })
  ]

  -- how a step leaves the system
  abbrev StaysWell : Option VmError × ActorSystem S → Type 0
  StaysWell o = IsWell o.1

  after_requests-IsWell :
      (idx : ℕ) (o : Option VmError × ActorSystem S)
      → StaysWell o
      → StaysWell (after_requests idx o)
  after_requests-IsWell idx (none, sys) w = collect_outgoing-IsWell idx sys w
  after_requests-IsWell idx (some e, sys) w = w

  and_then-IsWell :
      (o : Option VmError × ActorSystem S) (k : ActorSystem S → Option VmError × ActorSystem S)
      → StaysWell o
      → ((sys : ActorSystem S) → IsWell sys → StaysWell (k sys))
      → StaysWell (and_then o k)
  and_then-IsWell (some e, sys) k h hk = h
  and_then-IsWell (none, sys) k h hk = hk sys h

  or_next-IsWell :
      (o : Option (Result Value VmError) × ActorSystem S)
      (k : ActorSystem S → Result Value VmError × ActorSystem S)
      → IsWell o.1
      → ((sys : ActorSystem S) → IsWell sys → IsWell (k sys).1)
      → IsWell (or_next o k).1
  or_next-IsWell (some r, sys) k h hk = h
  or_next-IsWell (none, sys) k h hk = hk sys h

  abbrev ChildFits : ℕ → Option (Actor S) → Type 0
  ChildFits n none = Unit
  ChildFits n (some c) = Fits n (suc n) c

module _ {S : Type 0} (platform : Platform) (clock : ℕ → ℕ) (handle : Handler S) where
  entered-Fits :
      (id parent : ℕ) (m : Module) (o : Outcome (Result (Unit {0}) VmError × Core) Core (Boxed S))
      → parent < id
      → ChildFits id (entered platform clock handle id parent m o)
  unfolding fresh_actor
  entered-Fits id parent m (ok (ok _, core), g, log) lt = record {
    id = refl;
    below = tt;
    above = lt;
  }
  entered-Fits id parent m (ok (err e, core), g, log) lt = tt
  entered-Fits id parent m (err e, g, log) lt = tt

  spawn_requests-IsWell :
      (idx : ℕ) (m : Module) (parent : ℕ) (fs : List ℕ) (a : Actor S) (sys : ActorSystem S)
      → IsWell sys
      → get_elem? sys.actors idx ≡ some a
      → parent < sys.next_id
      → StaysWell (spawn_requests platform clock handle idx m parent fs sys)
  unfolding spawn_requests child_of adopt
  spawn_requests-IsWell idx m parent [] a sys w e lt = w
  spawn_requests-IsWell idx m parent (f ∷ rest) a sys w e lt = elim (Option-cases made) [
    | inl h ↦ rw (h, spawn_requests) (fail_actor-IsWell idx (invalid_function f) sys w)
    | inr (c, h) ↦
        let grown = adopt-IsWell idx a c name sys w e (subst (ChildFits sys.next_id) h fits) in
        rw (h, spawn_requests)
          (spawn_requests-IsWell idx m parent rest (with_child c.id a) (adopt idx c name sys) grown
            (there c) (omega (arith, lt)))
  ]
    where
      made : Option (Actor S)
      made = child_of platform clock handle m sys.next_id parent f sys

      name : String
      name = name_of (get_elem? m.functions f)

      fits : ChildFits sys.next_id made
      fits = entered-Fits sys.next_id parent m _ lt

      there : (c : Actor S) → get_elem? (adopt idx c name sys).actors idx ≡ some (with_child c.id a)
      there c =
          get_elem?-modify_at idx (with_child c.id) (push sys.actors c) a
            (get_elem?-push idx sys.actors a c e)

  collect-IsWell :
      (idx : ℕ) (sys : ActorSystem S)
      → IsWell sys
      → StaysWell (collect platform clock handle idx sys)
  unfolding collect
  collect-IsWell idx sys w = elim (Option-cases (get_elem? sys.actors idx)) [
    | inl e ↦ rw (e, collect) w
    | inr (a, e) ↦ elim (Bool-cases (is_failed a.status)) [
      | inl b ↦ rw (e, b, collect) (modified-IsWell idx drain_outgoing drained kept (cleared))
      | inr b ↦
          rw (e, b, collect)
            (after_requests-IsWell idx _ (
              spawn_requests-IsWell idx a.vm.core.code a.id a.vm.core.spawn_requests
                (drain_requests a) drained cleared
                (get_elem?-modify_at idx drain_requests sys.actors a e)
                (get-lt idx 0 sys.next_id sys.actors a w.actors (omega (arith, w.next)) e)))
    ]
  ]
    where
      drained : ActorSystem S
      drained = record sys { actors = modify_at idx drain_requests sys.actors }

      cleared : IsWell drained
      cleared =
          modified-IsWell idx drain_requests sys
            (λ j n b _ h. record { id = h.id; below = h.below; above = h.above }) w

      kept :
          (j n : ℕ) (b : Actor S)
          → get_elem? drained.actors idx ≡ some b
          → Fits j n b
          → Fits j n (drain_outgoing b)
      kept j n b _ h = record { id = h.id; below = h.below; above = h.above }

  after_slice-IsWell :
      (idx : ℕ) (r : StepResult) (sys : ActorSystem S)
      → IsWell sys
      → StaysWell (after_slice platform clock handle idx r sys)
  after_slice-IsWell idx (Loop.error e) sys w =
      failed (fail_actor idx e sys) (fail_actor-IsWell idx e sys w)
    where
      failed :
          (o : Option VmError × ActorSystem S)
          → StaysWell o
          → StaysWell (unless_ended platform clock handle idx o)
      failed (some e', sys') h = h
      failed (none, sys') h = collect-IsWell idx sys' h
  after_slice-IsWell idx (Loop.completed v) sys w = collect-IsWell idx sys w
  after_slice-IsWell idx (Loop.yielded n) sys w = collect-IsWell idx sys w
  after_slice-IsWell idx Loop.blocked sys w = collect-IsWell idx sys w

  slice-Fits :
      (next budget j n : ℕ) (a : Actor S)
      → Fits j n a
      → Fits j n (
          status_after
            (slice platform clock handle next budget a).0
            (slice platform clock handle next budget a).1)
  unfolding slice
  slice-Fits next budget j n a h =
      sliced-Fits j n a
        (Client.run (System.serve platform handle)
          (execute_bounded platform clock budget
            (with_core a.vm (record a.vm.core { next_spawn_id = next })))
          a.gateway a.event_log)
        h

  take_turn-IsWell :
      (round idx : ℕ) (sys : ActorSystem S)
      → IsWell sys
      → StaysWell (take_turn platform clock handle round idx sys)
  unfolding take_turn slice
  take_turn-IsWell round idx sys w = elim (Option-cases (get_elem? sys.actors idx)) [
    | inl e ↦ rw (e, take_turn) w
    | inr (a, e) ↦
        let s = slice platform clock handle sys.next_id sys.budget_per_round a in
        rw (e, take_turn) (after_slice-IsWell idx s.0 (ticked round idx s sys) (started a e))
  ]
    where
      same :
          (a b : Actor S)
          → get_elem? sys.actors idx ≡ some a
          → get_elem? sys.actors idx ≡ some b
          → b ≡ a
      same a b e at = cc

      started :
          (a : Actor S)
          → get_elem? sys.actors idx ≡ some a
          → IsWell (
              ticked round idx (slice platform clock handle sys.next_id sys.budget_per_round a) sys)
      started a e =
          let m =
            modified-IsWell idx
              (λ _.
                status_after (slice platform clock handle sys.next_id sys.budget_per_round a).0
                  (slice platform clock handle sys.next_id sys.budget_per_round a).1)
              sys
              (λ j n b at h.
                slice-Fits sys.next_id sys.budget_per_round j n a
                  (subst (Fits j n) (same a b e at) h))
              w in
          record { next = m.next; actors = m.actors }

  take_turns-IsWell :
      (round : ℕ) (queue : List ℕ) (sys : ActorSystem S)
      → IsWell sys
      → StaysWell (take_turns platform clock handle round queue sys)
  unfolding take_turns
  take_turns-IsWell round [] sys w = w
  take_turns-IsWell round (idx ∷ rest) sys w =
      and_then-IsWell (take_turn platform clock handle round idx sys)
        (take_turns platform clock handle round rest) (take_turn-IsWell round idx sys w)
        (take_turns-IsWell round rest)

  one_round-IsWell :
      (round : ℕ) (sys : ActorSystem S)
      → IsWell sys
      → IsWell (one_round platform clock handle round sys).1
  unfolding one_round
  one_round-IsWell round sys w = queued (run_queue 0 sys.actors)
    where
      turned : (o : Option VmError × ActorSystem S) → StaysWell o → IsWell (after_turns o).1
      turned (some e, sys') h = h
      turned (none, sys') h = delivered-IsWell sys' h

      waiting : (ps : List Pending) → IsWell (idle ps sys).1
      waiting [] = w
      waiting (p ∷ ps) = delivered-IsWell sys w

      queued : (queue : List ℕ) → IsWell (with_queue platform clock handle round queue sys).1
      queued [] = waiting sys.pending_messages
      queued (i ∷ queue) = turned _ (take_turns-IsWell round (i ∷ queue) sys w)

  run_rounds-IsWell :
      (k round : ℕ) (sys : ActorSystem S)
      → IsWell sys
      → IsWell (run_rounds platform clock handle k round sys).1
  unfolding run_rounds
  run_rounds-IsWell zero round sys w = w
  run_rounds-IsWell (suc k) round sys w =
      or_next-IsWell (one_round platform clock handle round sys)
        (run_rounds platform clock handle k (suc round)) (one_round-IsWell round sys w)
        (run_rounds-IsWell k (suc round))

  -- A run keeps the actors in the order of their identifiers: after any number of rounds the actor at
  -- a place has the identifier of the place and the next identifier is the number of actors, every
  -- child of an actor has a greater identifier that is given out, and every parent a smaller one.
  pub run-IsWell : (sys : ActorSystem S) → IsWell sys → IsWell (run platform clock handle sys).1
  unfolding run enter_root
  run-IsWell sys w = go sys.actors refl
    where
      entered_root :
          (a : Actor S) (rest : List (Actor S)) (o : Option VmError × Actor S)
          → sys.actors ≡ a ∷ rest
          → (Fits 0 sys.next_id a → Fits 0 sys.next_id o.1)
          → IsWell (from_root platform clock handle sys rest o).1
      entered_root a rest (some e, b) here h = w
      entered_root a rest (none, b) here h =
          let at = subst (AllFit 0 sys.next_id) here w.actors in
          run_rounds-IsWell sys.max_rounds 0 (record sys { actors = b ∷ rest })
            (record { next = w.next ∙ ap length here; actors = (h at.0, at.1) })

      root :
          (a : Actor S) (o : Outcome (Result (Unit {0}) VmError × Core) Core (Boxed S))
          → Fits 0 sys.next_id a
          → Fits 0 sys.next_id (rooted a o).1
      root a (ok (ok _, core), g, log) h = record { id = h.id; below = h.below; above = h.above }
      root a (ok (err e, core), g, log) h = h
      root a (err e, g, log) h = h

      go :
          (actors : List (Actor S))
          → sys.actors ≡ actors
          → IsWell (run_from platform clock handle actors sys).1
      go [] e = w
      go (a ∷ rest) e = entered_root a rest (enter_root platform clock handle a) e (root a _)
