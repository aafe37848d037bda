-- ===== src/Machine/Examples.antt =====
-- The interpreter at concrete modules.
use boruna.Prelude.{
  ℕ, ◌+◌, String, ◌≡◌, refl, true, false, Option, none, some, List, [], ◌∷◌, ◌++◌, arith, str_eq,
  Result, ok, err, replicate,
}
use boruna.Prelude.Int.{pos}
use boruna.Prelude.BTreeMap
use boruna.Bytecode.Capability.{Capability, time_now, llm_call, name, from_id, id}
use boruna.Bytecode.Value.{Value, fn_ref, int, unit}
use boruna.Vm.Error.{VmError, execution_limit_exceeded}
use boruna.Vm.EventLog
use boruna.Vm.EventLog.{EventLog}
use boruna.Vm.Policy.{allow_all}
use boruna.Vm.Gateway.{Handler, with_handler, is_allowed, over_budget, settle, dispatch, call}
use boruna.Vm.Client
use boruna.Vm.Client.{finish}
use boruna.Vm.Recorded.{calls_of}
use boruna.Machine.Opcode.{Op}
use boruna.Machine.Platform.{Platform}
use boruna.Machine.Module.{Function, Module}
use boruna.Machine.Arith.{add_values, ◌+ℤ◌}
use boruna.Machine.State.{
  CallFrame, call_function, fill_locals, pop, pop_args, push_value, then_do, truncate,
}
use boruna.Machine.Parts.{binary_op, leave, pop_or_unit, unary_op}
use boruna.Machine.Handlers.{exec_call, exec_cap_call, exec_push_const, exec_ret}
use boruna.Machine.Exec.{exec_op, frame_turn, return_unit, turn}
use boruna.Machine.Loop.{
  Ended, Vm, execute, execute_for, limit_reached, new, new_core, round, run, within,
}
use boruna.Machine.Binary.{from_bytes, to_bytes}
use boruna.Machine.Decoding.{from_bytes-to_bytes}
use boruna.Machine.Callgraph.{
  any_reaches, collect_code, collect_needed, contains, insert, known_capabilities,
  needed_capabilities, over_declared_capabilities, reaches_cap, sorted_set, transitively_invokes,
}
use boruna.Machine.Invokes.{Invokes, transitively_invokes_iff}
use boruna.Machine.Ends.{Ends}
use boruna.Machine.Safe.{Declared}
use boruna.Machine.Running.{Bounded, execute-enough, run-Bounded, new-Bounded}
use boruna.Machine.Confined.{calls_of_undeclared}
use boruna.Machine.Overflow.{execute_overflows}
use boruna.Machine.Slices.{core_end, core_of}

abbrev no_floats : Platform
no_floats = record {
  add = λ a b. 0;
  sub = λ a b. 0;
  mul = λ a b. 0;
  div = λ a b. 0;
  of_int = λ n. 0;
  show_float = λ f. "0";
  parse_float = λ s. none;
  to_uppercase = λ s. s;
  to_lowercase = λ s. s;
}

abbrev no_clock : ℕ → ℕ
no_clock n = 0

abbrev function_of : String → List Op → List Capability → Function
function_of name code caps = record {
  name = name;
  arity = 0;
  locals = 1;
  code = code;
  capabilities = caps;
  intent = none;
  match_tables = [];
}

-- 2 + 3, by a call; then the clock
abbrev adder : Module
adder = record {
  name = "adder";
  version = 1;
  constants = int (pos 2) ∷ int (pos 3) ∷ [];
  globals = [];
  types = [];
  functions =
      function_of "main" (Op.call 1 0 ∷ Op.cap_call 5 0 ∷ Op.add ∷ Op.ret ∷ []) (time_now ∷ [])
      ∷ function_of "sum" (Op.push_const 0 ∷ Op.push_const 1 ∷ Op.add ∷ Op.ret ∷ []) []
      ∷ [];
  entry = 0;
}

abbrev watch : Handler ℕ
watch s c args = (ok (int (pos s)), s + 1)

run-Bounded_example :
    Ends
      (Declared adder)
      (Bounded no_floats no_clock adder 10000000)
      (λ (o : Ended). Bounded no_floats no_clock adder 10000000 o.1)
      (run no_floats no_clock (new adder))
unfolding new
run-Bounded_example =
    run-Bounded no_floats no_clock adder 10000000 (new adder) (new-Bounded no_floats no_clock adder)
      (omega arith)

execute-enough_example :
    execute_for no_floats no_clock 10000009 (new adder) ≡ execute no_floats no_clock (new adder)
unfolding new
execute-enough_example = execute-enough no_floats no_clock 10000009 (new adder) (omega arith)

only_clock : (c : Capability) → Declared adder c → str_eq (name c) "llm.call" ≡ false
unfolding name id
only_clock llm_call h = cc
only_clock time_now h = refl
only_clock _ h = refl

calls_of_undeclared_example :
    calls_of "llm.call"
      (Client.run watch
        (run no_floats no_clock (new adder))
        (with_handler allow_all 7)
        EventLog.new).2.events
    ≡ calls_of "llm.call" EventLog.new.events
unfolding new
calls_of_undeclared_example =
    calls_of_undeclared watch no_floats no_clock adder 10000000 (new adder) "llm.call"
      (with_handler allow_all 7) EventLog.new (new-Bounded no_floats no_clock adder) (omega arith)
      only_clock

-- a function that calls one without code, for ever
abbrev looper : Module
looper = record {
  name = "looper";
  version = 1;
  constants = [];
  globals = [];
  types = [];
  functions = function_of "main" (Op.call 1 0 ∷ Op.jmp 0 ∷ []) [] ∷ function_of "idle" [] [] ∷ [];
  entry = 0;
}

abbrev main_frame : CallFrame
main_frame = record { func_idx = 0; ip = 0; stack_base = 0; locals = unit ∷ [] }

abbrev looping : ℕ → Vm
looping max = record (new looper) {
  core = record (new_core looper) { call_stack = main_frame ∷ [] };
  max_steps = max;
}

-- 5000 values, where the bound of the stack is 4096
execute_overflows_example :
    within core_end core_of (execute no_floats no_clock (looping 15000))
    ≡ finish (
      err (execution_limit_exceeded 15000),
      record (looping 15000).core { stack = replicate 5000 unit ++ (looping 15000).core.stack },
    )
unfolding new new_core
execute_overflows_example =
    execute_overflows no_floats no_clock (looping 15000) main_frame []
      (function_of "main" (Op.call 1 0 ∷ Op.jmp 0 ∷ []) []) (function_of "idle" [] []) 1 5000 refl
      refl refl refl refl refl refl refl refl refl (omega arith)

-- the first end of a run, with the clock at 7: 5 + 7
abbrev result_at : Client.Outcome Ended Vm ℕ → Option (Result Value VmError)
result_at (ok (r, vm), _, _) = some r
result_at (err _, _, _) = none

abbrev short : Module → Vm
short m = record (new m) { max_steps = 20 }

adder_runs :
    result_at (
      Client.run watch
        (run no_floats no_clock (short adder))
        (with_handler allow_all 7)
        EventLog.new)
    ≡ some (ok (int (pos 12)))
unfolding new new_core run execute execute_for round turn frame_turn exec_op exec_call exec_cap_call
    exec_push_const exec_ret limit_reached within call_function push_value pop pop_args then_do
    unary_op binary_op pop_or_unit leave truncate return_unit fill_locals with_handler is_allowed
    over_budget settle dispatch call BTreeMap.get BTreeMap.insert name from_id id Client.run
    add_values ◌+ℤ◌
adder_runs = refl

-- an entry that makes a list of text by a helper, which asks a model
abbrev helped : Module
helped = record adder {
  functions =
      function_of "main" (Op.call 1 0 ∷ Op.ret ∷ []) []
      ∷ function_of "helper" (Op.cap_call 7 0 ∷ Op.ret ∷ []) (llm_call ∷ [])
      ∷ [];
}

transitively_invokes_iff_example :
    (transitively_invokes helped 0 llm_call ≡ true → Invokes helped llm_call 0)
    × (Invokes helped llm_call 0 → transitively_invokes helped 0 llm_call ≡ true)
transitively_invokes_iff_example = transitively_invokes_iff helped llm_call 0

helped_invokes : transitively_invokes helped 0 llm_call ≡ true
unfolding transitively_invokes reaches_cap any_reaches contains insert id
helped_invokes = refl

-- The same helper by a function value is not seen.
abbrev indirect : Module
indirect = record helped {
  constants = fn_ref 1 ∷ [];
  functions =
      function_of "main" (Op.push_const 0 ∷ Op.call_indirect 0 ∷ Op.ret ∷ []) []
      ∷ function_of "helper" (Op.cap_call 7 0 ∷ Op.ret ∷ []) (llm_call ∷ [])
      ∷ [];
}

indirect_missed : transitively_invokes indirect 0 llm_call ≡ false
unfolding transitively_invokes reaches_cap any_reaches contains insert id
indirect_missed = refl

-- what a function needs, and what it declares without need
helped_needs : needed_capabilities helped 0 ≡ llm_call ∷ []
unfolding needed_capabilities collect_needed collect_code known_capabilities contains insert from_id
helped_needs = refl

adder_exact : over_declared_capabilities adder 0 ≡ []
unfolding over_declared_capabilities needed_capabilities collect_needed collect_code
    known_capabilities sorted_set contains insert from_id id
adder_exact = refl

-- a module as one byte
from_bytes-to_bytes_example :
    (bytes : List ℕ) × (to_bytes (λ m. ok (7 ∷ [])) adder ≡ ok bytes)
    × (from_bytes (λ bytes. ok adder) (bytes ++ (9 ∷ [])) ≡ ok adder)
from_bytes-to_bytes_example =
    from_bytes-to_bytes (λ m. ok (7 ∷ [])) (λ bytes. ok adder) adder (7 ∷ []) (9 ∷ []) refl refl
      refl (omega arith)
