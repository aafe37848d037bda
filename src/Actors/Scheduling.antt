-- ===== src/Actors/Scheduling.antt =====
-- crates/llmvm/src/actor.rs: an `ActorSystem` is built, and its rounds.
use boruna.Prelude.{
  ℕ, zero, suc, true, List, [], ◌∷◌, Option, none, some, Result, ok, err, if◌then◌else◌, push, any,
}
use boruna.Bytecode.Value.{Value, unit}
use boruna.Vm.Error.{VmError, deadlock, max_rounds_exceeded}
use boruna.Vm.EventLog
use boruna.Vm.EventLog.{EventLog, log_scheduler_tick, log_actor_spawn}
use boruna.Vm.Gateway.{Handler, Gateway}
use boruna.Vm.Client
use boruna.Vm.Client.{Outcome}
use boruna.Machine.Platform.{Platform}
use boruna.Machine.Module.{Module}
use boruna.Machine.State.{Core, Message}
use boruna.Machine.Loop
use boruna.Machine.Loop.{
  Ended, StepResult, Vm, completed, yielded, error, execute_bounded, set_entry_function, with_core,
}
use boruna.Actors.System.{
  Actor, ActorSystem, Boxed, Pending, deliver_messages, fresh_actor, is_blocked, root_result, serve,
  wake_blocked_actors,
}
use boruna.Actors.Turns.{run_queue, take_turns}

-- what a round ends in: what `run` returns, or the next round
abbrev pub RoundEnd : Type 0 → Type 0
RoundEnd S = Option (Result Value VmError) × ActorSystem S

module _ {S : Type 0} where
  unfoldable pub new : ActorSystem S
  new = record {
    actors = [];
    next_id = 0;
    pending_messages = [];
    max_rounds = 10000;
    budget_per_round = 1000;
    policy = none;
    event_log = EventLog.new;
  }

  unfoldable pub spawn_root : Module → Gateway (Boxed S) → ActorSystem S → ℕ × ActorSystem S
  unfolding fresh_actor
  spawn_root m gateway sys =
      let vm = Loop.new m in
      let core = record vm.core { actor_id = sys.next_id; next_spawn_id = suc sys.next_id } in
      let root = fresh_actor sys.next_id (with_core vm core) gateway EventLog.new none in
      (
        sys.next_id,
        record sys {
          next_id = suc sys.next_id;
          policy = some gateway.policy;
          actors = push sys.actors root;
        },
      )

  abbrev pub set_max_rounds : ℕ → ActorSystem S → ActorSystem S
  set_max_rounds max sys = record sys { max_rounds = max }

  abbrev pub set_budget_per_round : ℕ → ActorSystem S → ActorSystem S
  set_budget_per_round budget sys = record sys { budget_per_round = budget }

  unfoldable pub send : ℕ → Message → ActorSystem S → ActorSystem S
  send to msg sys = record sys {
    pending_messages =
        push sys.pending_messages (record { from = msg.from; to = to; payload = msg.payload });
  }

  abbrev pub delivered : ActorSystem S → ActorSystem S
  delivered sys = wake_blocked_actors (deliver_messages sys)

  abbrev pub verdict : List (Actor S) → Result Value VmError
  verdict actors =
      if any (λ a. is_blocked a.status) actors then err deadlock else ok (root_result actors)

  abbrev pub idle : List Pending → ActorSystem S → RoundEnd S
  idle [] sys = (some (verdict sys.actors), sys)
  idle (_ ∷ _) sys = (none, delivered sys)

  abbrev pub after_turns : Option VmError × ActorSystem S → RoundEnd S
  after_turns (some e, sys) = (some (err e), sys)
  after_turns (none, sys) = (none, delivered sys)

  abbrev pub or_next :
      RoundEnd S
      → (ActorSystem S → Result Value VmError × ActorSystem S)
      → Result Value VmError × ActorSystem S
  or_next (some r, sys) k = (r, sys)
  or_next (none, sys) k = k sys

  -- the entry of the root, which then counts as an actor
  abbrev pub rooted :
      Actor S → Outcome (Result (Unit {0}) VmError × Core) Core (Boxed S) → Option VmError × Actor S
  rooted a (ok (ok _, core), g, log) =
      (none, record a { vm = with_core a.vm (record core { in_actor_context = true }) })
  rooted a (ok (err e, core), g, log) = (some e, a)
  rooted a (err (e, core), g, log) = (some e, a)

  -- single-actor mode: the machine of the root runs to its end
  abbrev pub single_end :
      ActorSystem S
      → Actor S
      → List (Actor S)
      → Outcome Ended Vm (Boxed S)
      → Result Value VmError × ActorSystem S
  single_end sys a rest (ok (r, vm), g, log) =
      (r, record sys { actors = record a { vm = vm; gateway = g; event_log = log } ∷ rest })
  single_end sys a rest (err (e, vm), g, log) =
      (err e, record sys { actors = record a { vm = vm; gateway = g; event_log = log } ∷ rest })

module _ {S : Type 0} (platform : Platform) (clock : ℕ → ℕ) (handle : Handler S) where
  abbrev pub with_queue : ℕ → List ℕ → ActorSystem S → RoundEnd S
  with_queue round [] sys = idle sys.pending_messages sys
  with_queue round (i ∷ queue) sys =
      after_turns (take_turns platform clock handle round (i ∷ queue) sys)

  unfoldable pub one_round : ℕ → ActorSystem S → RoundEnd S
  unfolding run_queue take_turns deliver_messages wake_blocked_actors root_result
  one_round round sys = with_queue round (run_queue 0 sys.actors) sys

  -- `k` rounds from the round `round` on
  unfoldable pub run_rounds : ℕ → ℕ → ActorSystem S → Result Value VmError × ActorSystem S
  unfolding one_round
  run_rounds zero round sys = (err (max_rounds_exceeded sys.max_rounds), sys)
  run_rounds (suc k) round sys = or_next (one_round round sys) (run_rounds k (suc round))

  unfoldable pub enter_root : Actor S → Option VmError × Actor S
  unfolding set_entry_function Client.run
  enter_root a = rooted a (
      Client.run (serve platform handle) (set_entry_function a.vm.core.code.entry a.vm.core)
        a.gateway a.event_log)

  abbrev pub from_root :
      ActorSystem S
      → List (Actor S)
      → Option VmError × Actor S
      → Result Value VmError × ActorSystem S
  from_root sys rest (some e, a) = (err e, sys)
  from_root sys rest (none, a) = run_rounds sys.max_rounds 0 (record sys { actors = a ∷ rest })

  abbrev pub run_from : List (Actor S) → ActorSystem S → Result Value VmError × ActorSystem S
  run_from [] sys = (ok unit, sys)
  run_from (a ∷ rest) sys = from_root sys rest (enter_root a)

  unfoldable pub run : ActorSystem S → Result Value VmError × ActorSystem S
  unfolding enter_root run_rounds
  run sys = run_from sys.actors sys

  abbrev pub single_from : List (Actor S) → ActorSystem S → Result Value VmError × ActorSystem S
  single_from [] sys = (ok unit, sys)
  single_from (a ∷ rest) sys =
      single_end sys a rest
        (Client.run (serve platform handle) (Loop.run platform clock a.vm) a.gateway a.event_log)

  unfoldable pub run_single : ActorSystem S → Result Value VmError × ActorSystem S
  unfolding Client.run Loop.run
  run_single sys = single_from sys.actors sys
