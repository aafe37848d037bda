-- ===== src/Machine/Loop.antt =====
-- crates/llmvm/src/vm.rs: `Vm`, its loop `execute`, and `run`, `execute_bounded` and
-- `set_entry_function`. The fields that only the loop reads stand beside the others, which are the
-- core. A reading of the clock is a function of the step, a parameter. The loop is on fuel: it ends
-- when the step counter passes `max_steps`, so one turn more than the steps that are left is enough.
use boruna.Prelude.{
  ℕ, zero, suc, ◌-◌, ◌%◌, false, ◌&&◌, [], ◌∷◌, Option, none, some, Result, ok, err, ltb, leb, ◌==◌,
  if◌then◌else◌, length, replicate,
}
use boruna.Bytecode.Value.{Value, unit}
use boruna.Vm.Client.{Client, finish, ask, note}
use boruna.Vm.Error.{
  VmError, execution_limit_exceeded, wall_time_exceeded, budget_exhausted, mailbox_empty,
}
use boruna.Machine.Module.{Module}
use boruna.Machine.Platform.{Platform}
use boruna.Machine.State.{Core, M, call_function}
use boruna.Machine.Parts.{Turn, continue, stop}
use boruna.Machine.Exec.{turn}

pub record Vm : Type 0 where
  pub core : Core
  pub step_count : ℕ
  pub max_steps : ℕ
  pub max_wall_ms : Option ℕ
  pub start_time : Option ℕ
  pub budget : Option ℕ
  pub budget_start : ℕ

abbrev pub wall_time_check_every : ℕ
wall_time_check_every = 1024

unfoldable pub new_core : Module → Core
new_core m = record {
  code = m;
  stack = [];
  call_stack = [];
  globals = replicate (length m.globals) unit;
  ui_output = [];
  trace = [];
  trace_enabled = false;
  last_cap_events = [];
  actor_id = 0;
  mailbox = [];
  outgoing_messages = [];
  spawn_requests = [];
  next_spawn_id = 0;
  in_actor_context = false;
}

unfoldable pub new : Module → Vm
unfolding new_core
new m = record {
  core = new_core m;
  step_count = 0;
  max_steps = 10000000;
  max_wall_ms = none;
  start_time = none;
  budget = none;
  budget_start = 0;
}

-- a computation on the core, within a `Vm`
abbrev pub with_core : Vm → Core → Vm
with_core vm core = record vm { core = core }

unfoldable pub within : {A B E F : Type 0} → (A → Client B F) → (E → F) → Client A E → Client B F
within k f (finish a) = k a
within k f (ask c args s next) = ask c args (f s) (λ v. within k f (next v))
within k f (note n next) = note n (within k f next)

abbrev pub Ended : Type 0
Ended = Result Value VmError × Vm

pub data StepResult : Type 0 where
  completed : Value → StepResult
  yielded : ℕ → StepResult
  blocked : StepResult
  error : VmError → StepResult

module _ (platform : Platform) (clock : ℕ → ℕ) where
  -- the wall-clock check, every 1024 steps
  abbrev pub late : Vm → Option ℕ → Option ℕ → Option VmError
  late vm (some max_ms) (some start) =
      if (vm.step_count % wall_time_check_every == 0) && ltb max_ms (clock vm.step_count - start)
      then some (wall_time_exceeded max_ms)
      else none
  late vm _ _ = none

  abbrev pub exhausted : Vm → Option ℕ → Option VmError
  exhausted vm none = none
  exhausted vm (some budget) =
      if leb budget (vm.step_count - vm.budget_start) then some budget_exhausted else none

  abbrev pub first_of : Option VmError → Option VmError → Option VmError
  first_of (some e) other = some e
  first_of none other = other

  -- what ends the loop before a turn
  unfoldable pub limit_reached : Vm → Option VmError
  limit_reached vm =
      if ltb vm.max_steps vm.step_count
      then some (execution_limit_exceeded vm.max_steps)
      else first_of (late vm vm.max_wall_ms vm.start_time) (exhausted vm vm.budget)

  abbrev pub counted : Vm → Vm
  counted vm = record vm { step_count = suc vm.step_count }

  -- after a turn: the next one, by `again`, or the end
  abbrev pub after_turn :
      (Core → Client Ended Vm) → Vm → Result Turn VmError × Core → Client Ended Vm
  after_turn again vm (ok continue, core) = again core
  after_turn again vm (ok (stop v), core) = finish (ok v, with_core vm core)
  after_turn again vm (err e, core) = finish (err e, with_core vm core)

  -- one round of the loop, which goes on by `again`
  unfoldable pub round : (Core → Client Ended Vm) → Vm → Client Ended Vm
  unfolding limit_reached within turn
  round again vm = elim (limit_reached (counted vm)) [
    | some e ↦ finish (err e, counted vm)
    | none ↦ within (after_turn again (counted vm)) (with_core (counted vm)) (turn platform vm.core)
  ]

  unfoldable pub execute_for : ℕ → Vm → Client Ended Vm
  unfolding round
  execute_for zero vm = finish (err (execution_limit_exceeded vm.max_steps), vm)
  execute_for (suc k) vm = round (λ core. execute_for k (with_core (counted vm) core)) vm

  unfoldable pub execute : Vm → Client Ended Vm
  execute vm = execute_for (suc (vm.max_steps - vm.step_count)) vm

  abbrev pub start_of : Vm → Option ℕ → Option ℕ
  start_of vm none = some (clock vm.step_count)
  start_of vm (some start) = some start

  abbrev pub started : Vm → Vm
  started vm = record vm { start_time = start_of vm vm.start_time }

  abbrev pub stopped : Vm → Vm
  stopped vm = record vm { start_time = none }

  -- `run`: the entry is called, and the timer is cleared at the end
  abbrev pub after_entry : Vm → Result (Unit {0}) VmError × Core → Client Ended Vm
  after_entry vm (ok _, core) = execute (with_core vm core)
  after_entry vm (err e, core) = finish (err e, with_core vm core)

  unfoldable pub run : Vm → Client Ended Vm
  unfolding within call_function execute
  run vm =
      let vm' = record vm { start_time = some (clock vm.step_count) } in
      within (λ (r, end). finish (r, stopped end)) stopped
        (within (after_entry vm') (with_core vm') (call_function vm.core.code.entry [] vm'.core))

  -- how a slice ends: only a pause keeps the timer
  abbrev pub slice_end : Ended → StepResult × Vm
  slice_end (ok v, vm) = (completed v, stopped (record vm { budget = none }))
  slice_end (err budget_exhausted, vm) =
      (yielded (vm.step_count - vm.budget_start), record vm { budget = none })
  slice_end (err mailbox_empty, vm) = (blocked, record vm { budget = none })
  slice_end (err e, vm) = (error e, stopped (record vm { budget = none }))

  abbrev pub budgeted : ℕ → Vm → Vm
  budgeted budget vm = record vm { budget = some budget; budget_start = vm.step_count }

  unfoldable pub execute_bounded : ℕ → Vm → Client (StepResult × Vm) Vm
  unfolding within execute
  execute_bounded budget vm =
      within (λ o. finish (slice_end o)) (λ s. stopped (record s { budget = none }))
        (execute (budgeted budget (started vm)))

-- the entry of a slice: a call, if no frame is there
unfoldable pub set_entry_function : ℕ → M (Unit {0})
unfolding call_function
set_entry_function func_idx vm = elim vm.call_stack [
  | [] ↦ call_function func_idx [] vm
  | frame ∷ frames ↦ finish (ok tt, vm)
]
