-- ===== src/Actors/Turns.antt =====
-- crates/llmvm/src/actor.rs: the turn of an actor in a round of `ActorSystem::run`. Where `run`
-- returns, a step gives the error that it returns; the system beside it is the one that is left.
use boruna.Prelude.{
  ℕ, suc, String, true, List, [], ◌∷◌, ◌++◌, Option, none, some, Result, ok, err, ◌==◌,
  if◌then◌else◌, push, get_elem?, unwrap_or, map, modify_at,
}
use boruna.Bytecode.Value.{Value}
use boruna.Vm.Error.{VmError, invalid_function}
use boruna.Vm.EventLog
use boruna.Vm.EventLog.{EventLog, log_scheduler_tick, log_actor_spawn}
use boruna.Vm.Policy.{deny_all}
use boruna.Vm.Gateway.{Handler, with_handler}
use boruna.Vm.Client
use boruna.Vm.Client.{Outcome}
use boruna.Machine.Platform.{Platform}
use boruna.Machine.Module.{Function, Module}
use boruna.Machine.State.{Core}
use boruna.Machine.Loop
use boruna.Machine.Loop.{
  Ended, StepResult, Vm, completed, yielded, error, execute_bounded, set_entry_function, with_core,
}
use boruna.Actors.ErrorText.{show_error}
use boruna.Actors.System
use boruna.Actors.System.{
  Actor, ActorStatus, ActorSystem, Boxed, Pending, cascade_failure, deliver_messages, fail_it,
  fresh_actor, is_blocked, is_failed, is_runnable, mock, on_core, root_result, runnable, serve,
  wake_blocked_actors,
}

abbrev pub name_of : Option Function → String
name_of (some f) = f.name
name_of none = "unknown"

abbrev pub sent : ℕ → ℕ × Value → Pending
sent from (to, payload) = record { from = from; to = to; payload = payload }

module _ {S : Type 0} where
  abbrev pub notice : Actor S → Option ℕ → VmError → List Pending
  notice a none e = []
  notice a (some p) e =
      record { from = a.id; to = p; payload = Value.error (Value.string (show_error e)) } ∷ []

  -- an actor fails: its descendants fail, its parent is told, and a failure of the root ends the run
  unfoldable pub fail_actor : ℕ → VmError → ActorSystem S → Option VmError × ActorSystem S
  unfolding cascade_failure
  fail_actor idx e sys = elim (get_elem? sys.actors idx) [
    | none ↦ (none, sys)
    | some a ↦ (
      if idx == 0 then some e else none,
      record sys {
        actors = cascade_failure (suc sys.next_id) a.children (modify_at idx fail_it sys.actors);
        pending_messages = sys.pending_messages ++ notice a a.parent e;
      },
    )
  ]

  abbrev pub with_child : ℕ → Actor S → Actor S
  with_child id a = record a { children = push a.children id }

  unfoldable pub adopt : ℕ → Actor S → String → ActorSystem S → ActorSystem S
  adopt idx child func_name sys = record sys {
    next_id = suc sys.next_id;
    event_log = log_actor_spawn child.id func_name sys.event_log;
    actors = modify_at idx (with_child child.id) (push sys.actors child);
  }

  -- what a slice leaves; an error of the gateway is an error of the slice
  abbrev pub sliced : Actor S → Outcome (StepResult × Vm) Vm (Boxed S) → StepResult × Actor S
  sliced a (ok (r, vm), g, log) = (r, record a { vm = vm; gateway = g; event_log = log })
  sliced a (err (e, vm), g, log) = (error e, record a { vm = vm; gateway = g; event_log = log })

  abbrev pub status_after : StepResult → Actor S → Actor S
  status_after (completed v) a = record a { status = System.completed; result = some v }
  status_after (yielded _) a = a
  status_after Loop.blocked a = record a { status = System.blocked }
  status_after (error _) a = record a { status = System.failed }

  -- the indices of the runnable actors
  unfoldable pub run_queue : ℕ → List (Actor S) → List ℕ
  run_queue i [] = []
  run_queue i (a ∷ rest) =
      let later = run_queue (suc i) rest in if is_runnable a.status then i ∷ later else later

  abbrev pub drain_requests : Actor S → Actor S
  drain_requests = on_core (λ vm. record vm { spawn_requests = [] })

  abbrev pub drain_outgoing : Actor S → Actor S
  drain_outgoing = on_core (λ vm. record vm { outgoing_messages = [] })

  -- the outgoing messages of an actor are drained; those of a failed actor are discarded
  unfoldable pub collect_outgoing : ℕ → ActorSystem S → ActorSystem S
  collect_outgoing idx sys = elim (get_elem? sys.actors idx) [
    | none ↦ sys
    | some a ↦ record sys {
      actors = modify_at idx drain_outgoing sys.actors;
      pending_messages = sys.pending_messages ++ map (sent a.id) a.vm.core.outgoing_messages;
    }
  ]

  unfoldable pub discard_outgoing : ℕ → ActorSystem S → ActorSystem S
  discard_outgoing idx sys = record sys { actors = modify_at idx drain_outgoing sys.actors }

  abbrev pub after_requests : ℕ → Option VmError × ActorSystem S → Option VmError × ActorSystem S
  after_requests idx (some e, sys) = (some e, sys)
  after_requests idx (none, sys) = (none, collect_outgoing idx sys)

  abbrev pub ticked : ℕ → ℕ → StepResult × Actor S → ActorSystem S → ActorSystem S
  ticked round idx (r, a) sys = record sys {
    event_log = log_scheduler_tick round a.id sys.event_log;
    actors = modify_at idx (λ _. status_after r a) sys.actors;
  }

  abbrev pub and_then :
      Option VmError × ActorSystem S
      → (ActorSystem S → Option VmError × ActorSystem S)
      → Option VmError × ActorSystem S
  and_then (some e, sys) k = (some e, sys)
  and_then (none, sys) k = k sys

module _ {S : Type 0} (platform : Platform) (clock : ℕ → ℕ) (handle : Handler S) where
  -- `execute_bounded` of the machine of an actor
  unfoldable pub slice : ℕ → ℕ → Actor S → StepResult × Actor S
  unfolding execute_bounded Client.run
  slice next_id budget a =
      let vm = with_core a.vm (record a.vm.core { next_spawn_id = next_id }) in
      sliced a (
        Client.run (serve platform handle) (execute_bounded platform clock budget vm) a.gateway
          a.event_log)

  abbrev pub entered :
      ℕ → ℕ → Module → Outcome (Result (Unit {0}) VmError × Core) Core (Boxed S) → Option (Actor S)
  entered id parent m (ok (ok _, core), g, log) =
      some (fresh_actor id (with_core (Loop.new m) core) g log (some parent))
  entered id parent m _ = none

  -- a child with the mock for a handler, if its function is there
  unfoldable pub child_of : Module → ℕ → ℕ → ℕ → ActorSystem S → Option (Actor S)
  unfolding set_entry_function Client.run with_handler fresh_actor Loop.new
  child_of m id parent func_idx sys =
      let vm = Loop.new m in
      let core = record vm.core { actor_id = id; in_actor_context = true } in
      entered id parent m (
        Client.run (serve platform handle) (set_entry_function func_idx core)
          (with_handler (unwrap_or deny_all sys.policy) mock) EventLog.new)

  unfoldable pub spawn_requests :
      ℕ → Module → ℕ → List ℕ → ActorSystem S → Option VmError × ActorSystem S
  unfolding child_of fail_actor adopt
  spawn_requests idx m parent [] sys = (none, sys)
  spawn_requests idx m parent (f ∷ rest) sys = elim (child_of m sys.next_id parent f sys) [
    | none ↦ fail_actor idx (invalid_function f) sys
    | some child ↦
        spawn_requests idx m parent rest (adopt idx child (name_of (get_elem? m.functions f)) sys)
  ]

  -- after the slice: the requests to spawn and the outgoing messages
  unfoldable pub collect : ℕ → ActorSystem S → Option VmError × ActorSystem S
  unfolding spawn_requests collect_outgoing discard_outgoing
  collect idx sys = elim (get_elem? sys.actors idx) [
    | none ↦ (none, sys)
    | some a ↦
        let drained = record sys { actors = modify_at idx drain_requests sys.actors } in
        if is_failed a.status
        then (none, discard_outgoing idx drained)
        else after_requests idx
            (spawn_requests idx a.vm.core.code a.id a.vm.core.spawn_requests drained)
  ]

  abbrev pub unless_ended : ℕ → Option VmError × ActorSystem S → Option VmError × ActorSystem S
  unless_ended idx (some e, sys) = (some e, sys)
  unless_ended idx (none, sys) = collect idx sys

  abbrev pub after_slice : ℕ → StepResult → ActorSystem S → Option VmError × ActorSystem S
  after_slice idx (error e) sys = unless_ended idx (fail_actor idx e sys)
  after_slice idx _ sys = collect idx sys

  -- The indices of a queue are in range, so the first case does not arise.
  unfoldable pub take_turn : ℕ → ℕ → ActorSystem S → Option VmError × ActorSystem S
  unfolding slice collect fail_actor
  take_turn round idx sys = elim (get_elem? sys.actors idx) [
    | none ↦ (none, sys)
    | some a ↦
        let s = slice sys.next_id sys.budget_per_round a in
        after_slice idx s.0 (ticked round idx s sys)
  ]

  unfoldable pub take_turns : ℕ → List ℕ → ActorSystem S → Option VmError × ActorSystem S
  unfolding take_turn
  take_turns round [] sys = (none, sys)
  take_turns round (idx ∷ rest) sys = and_then (take_turn round idx sys) (take_turns round rest)
