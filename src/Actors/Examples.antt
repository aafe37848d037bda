-- ===== src/Actors/Examples.antt =====
-- The actor system at a small tree of actors.
use boruna.Prelude.{
  arith, ℕ, ◌==◌, ◌≡◌, refl, Option, none, some, List, [], ◌∷◌, ok, keep, get_elem?,
}
use boruna.Prelude.Int.{pos}
use boruna.Bytecode.Capability.{net_fetch}
use boruna.Bytecode.Value.{int, string, unit}
use boruna.Vm.Error.{match_exhausted}
use boruna.Vm.EventLog
use boruna.Vm.Policy.{allow_all}
use boruna.Vm.Gateway.{Handler, with_handler}
use boruna.Vm.Client
use boruna.Machine.Platform.{Platform}
use boruna.Machine.Module.{Module}
use boruna.Machine.Display.{show_value}
use boruna.Machine.State.{CallFrame, truncate, then_do}
use boruna.Machine.Parts.{leave, pop_or_unit}
use boruna.Machine.Exec.{frame_turn, return_unit, turn}
use boruna.Machine.Loop
use boruna.Machine.Loop.{
  Vm, with_core, execute, execute_bounded, execute_for, limit_reached, round, within,
}
use boruna.Actors.MockHandler.{mock_handle}
use boruna.Actors.System.{
  Actor, ActorSystem, Pending, children_in, deliver_messages, fail_it, fresh_actor, mock,
}
use boruna.Actors.Turns.{fail_actor, slice, take_turn}
use boruna.Actors.Scheduling.{run}
use boruna.Actors.Kin.{IsWell}
use boruna.Actors.Ranks.{run-IsWell}
use boruna.Actors.Delivery.{BySender, deliver_messages_lem, on_channel, with_mail}
use boruna.Actors.Cascade.{IsBelow, first, inner}
use boruna.Actors.Failure.{IsCompletedAt, fail_actor_lem, take_turn-IsCompletedAt}

abbrev no_floats : Platform
no_floats = record {
  add = λ a b. 0;
  sub = λ a b. 0;
  mul = λ a b. 0;
  div = λ a b. 0;
  of_int = λ n. 0;
  show_float = λ f. "0";
  parse_float = λ s. none;
  to_uppercase = λ s. s;
  to_lowercase = λ s. s;
}

abbrev no_clock : ℕ → ℕ
no_clock n = 0

abbrev silent : Handler ℕ
silent s c args = (ok unit, s)

-- one function without code
abbrev idle : Module
idle = record {
  name = "idle";
  version = 1;
  constants = [];
  globals = [];
  types = [];
  functions =
      record {
        name = "idle";
        arity = 0;
        locals = 0;
        code = [];
        capabilities = [];
        intent = none;
        match_tables = [];
      }
      ∷ [];
  entry = 0;
}

-- an actor in the frame of that function
abbrev actor : ℕ → Option ℕ → List ℕ → Actor ℕ
actor id parent children =
    let core = (Loop.new idle).core in
    let frame : CallFrame = record { func_idx = 0; ip = 0; stack_base = 0; locals = [] } in
    record (fresh_actor id (with_core (Loop.new idle) (record core { call_stack = frame ∷ [] }))
      (with_handler allow_all mock) EventLog.new parent) { children = children }

abbrev pending : ℕ → ℕ → ℕ → Pending
pending from to n = record { from = from; to = to; payload = int (pos n) }

-- a root, its child and the child of that
abbrev family : ActorSystem ℕ
family = record {
  actors = actor 0 none (1 ∷ []) ∷ actor 1 (some 0) (2 ∷ []) ∷ actor 2 (some 1) [] ∷ [];
  next_id = 3;
  pending_messages = pending 2 0 7 ∷ pending 1 0 8 ∷ pending 2 0 9 ∷ pending 0 1 10 ∷ [];
  max_rounds = 10;
  budget_per_round = 100;
  policy = some allow_all;
  event_log = EventLog.new;
}

family-IsWell : IsWell family
unfolding fresh_actor Loop.new
family-IsWell = record {
  next = refl;
  actors = (
    record { id = refl; below = ((omega arith, omega arith), tt); above = tt },
    (
      record { id = refl; below = ((omega arith, omega arith), tt); above = omega arith },
      (record { id = refl; below = tt; above = omega arith }, tt),
    ),
  );
}

run-IsWell_example : IsWell (run no_floats no_clock silent family).1
run-IsWell_example = run-IsWell no_floats no_clock silent family family-IsWell

deliver_messages_lem_example :
    (arrived : List Pending) × (get_elem? (deliver_messages family).actors 0
      ≡ some (with_mail arrived (actor 0 none (1 ∷ []))))
    × BySender arrived
    × ((f : ℕ)
        → keep (λ p. p.from == f) arrived
          ≡ keep (on_channel f (actor 0 none (1 ∷ [])).id) family.pending_messages)
unfolding fresh_actor
deliver_messages_lem_example =
    deliver_messages_lem 0 family (actor 0 none (1 ∷ [])) family-IsWell refl refl

IsBelow-child : IsBelow (children_in family.actors) (1 ∷ []) 2
unfolding fresh_actor
IsBelow-child = inner 1 2 [] (first 2 [])

fail_actor_lem_example :
    (IsBelow (children_in family.actors) (1 ∷ []) 2
      → get_elem? (fail_actor 1 match_exhausted family).1.actors 2
        ≡ some (fail_it (actor 2 (some 1) [])))
    × (¬ (IsBelow (children_in family.actors) (1 ∷ []) 2)
        → get_elem? (fail_actor 1 match_exhausted family).1.actors 2 ≡ some (actor 2 (some 1) []))
fail_actor_lem_example =
    fail_actor_lem 1 2 match_exhausted family (actor 1 (some 0) (2 ∷ [])) (actor 2 (some 1) [])
      family-IsWell refl refl

take_turn-IsCompletedAt_example :
    (get_elem? (fail_actor 1 match_exhausted family).1.actors 2
      ≡ some (fail_it (actor 2 (some 1) [])))
    × IsCompletedAt 2
        (take_turn no_floats no_clock silent 4 2 (fail_actor 1 match_exhausted family).1).1
unfolding fail_actor slice fresh_actor execute execute_bounded execute_for round turn frame_turn
    return_unit limit_reached within then_do pop_or_unit leave truncate Client.run Loop.new
    Loop.new_core
take_turn-IsCompletedAt_example =
    take_turn-IsCompletedAt no_floats no_clock silent 4 1 2 match_exhausted family
      (actor 1 (some 0) (2 ∷ [])) (actor 2 (some 1) []) unit family-IsWell refl refl IsBelow-child
      refl refl

-- The mock's answer for a fetch puts the quoted text between quotes.
mock_fetch :
    mock_handle no_floats net_fetch (string "a" ∷ [])
    ≡ ok (string "{\"mock\": true, \"url\": \"\"a\"\"}")
unfolding mock_handle show_value
mock_fetch = refl
