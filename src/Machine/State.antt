-- ===== src/Machine/State.antt =====
-- crates/llmvm/src/vm.rs: the state of a `Vm` and the operations on its stack and its frames. What
-- the loop reads and an instruction does not (the step counter and the limits) is in Machine.Loop;
-- the gateway and the event log are those of the run. The stack and the call stack begin at their
-- top. An instruction is a client: it may ask the gateway for a call, and ends in a result or an
-- error with the state.
use boruna.Prelude.{
  ℕ, zero, suc, String, Bool, List, [], ◌∷◌, Option, none, some, Result, ok, err, ltb, leb,
  if◌then◌else◌, length, get_elem?, set, replicate,
}
use boruna.Bytecode.Capability.{Capability}
use boruna.Bytecode.Value.{Value, unit}
use boruna.Vm.Client.{Client, Note, finish, ask, note}
use boruna.Vm.Error.{VmError, stack_underflow, stack_overflow, invalid_function, invalid_local}
use boruna.Machine.Opcode.{Op}
use boruna.Machine.Module.{Function, Module}

abbrev pub max_stack : ℕ
max_stack = 4096

abbrev pub max_call_depth : ℕ
max_call_depth = 256

-- crates/llmvm/src/actor.rs: `Message`
pub record Message : Type 0 where
  pub from : ℕ
  pub payload : Value

pub record CallFrame : Type 0 where
  pub func_idx : ℕ
  pub ip : ℕ
  pub stack_base : ℕ
  pub locals : List Value

-- a line of the trace: the function, the place, the instruction and the depth of the stack
pub record TraceLine : Type 0 where
  pub function : String
  pub ip : ℕ
  pub op : Op
  pub stack_depth : ℕ

pub record Core : Type 0 where
  pub code : Module
  pub stack : List Value
  pub call_stack : List CallFrame
  pub globals : List Value
  pub ui_output : List Value
  pub trace : List TraceLine
  pub trace_enabled : Bool
  pub last_cap_events : List String
  pub actor_id : ℕ
  pub mailbox : List Message
  pub outgoing_messages : List (ℕ × Value)
  pub spawn_requests : List ℕ
  pub next_spawn_id : ℕ
  pub in_actor_context : Bool

-- a result, or an error, and the state that is left
abbrev pub M : Type 0 → Type 0
M A = Core → Client (Result A VmError × Core) Core

abbrev pub settled :
    {A B : Type 0} → (A → M B) → Result A VmError × Core → Client (Result B VmError × Core) Core
settled f (ok a, vm) = f a vm
settled f (err e, vm) = finish (err e, vm)

unfoldable pub then_do :
    {A B : Type 0}
    → (A → M B)
    → Client (Result A VmError × Core) Core
    → Client (Result B VmError × Core) Core
then_do f (finish o) = settled f o
then_do f (ask c args s next) = ask c args s (λ v. then_do f (next v))
then_do f (note n next) = note n (then_do f next)

infixl 5 ◌>>=◌ ◌>>◌
abbrev pub ◌>>=◌ : {A B : Type 0} → M A → (A → M B) → M B
◌>>=◌ m f vm = then_do f (m vm)

abbrev pub ◌>>◌ : {A B : Type 0} → M A → M B → M B
m >> k = m >>= λ _. k

abbrev pub return : {A : Type 0} → A → M A
return a vm = finish (ok a, vm)

abbrev pub fail : {A : Type 0} → VmError → M A
fail e vm = finish (err e, vm)

abbrev pub lift : {A : Type 0} → Result A VmError → M A
lift r vm = finish (r, vm)

abbrev pub or_fail : {A : Type 0} → VmError → Option A → M A
or_fail e none = fail e
or_fail e (some a) = return a

-- a read and a write of the state
abbrev pub gets : {A : Type 0} → (Core → A) → M A
gets f vm = finish (ok (f vm), vm)

abbrev pub modify : (Core → Core) → M (Unit {0})
modify f vm = finish (ok tt, f vm)

-- `self.event_log.log_*` and `self.gateway.call`
abbrev pub log : Note → M (Unit {0})
log n vm = note n (finish (ok tt, vm))

abbrev pub request : Capability → List Value → M Value
request c args vm = ask c args vm (λ v. finish (ok v, vm))

unfoldable pub push_value : Value → M (Unit {0})
push_value v vm =
    if leb max_stack (length vm.stack)
    then finish (err (stack_overflow max_stack), vm)
    else finish (ok tt, record vm { stack = v ∷ vm.stack })

abbrev pub pop_from : List Value → M Value
pop_from [] vm = finish (err stack_underflow, vm)
pop_from (v ∷ rest) vm = finish (ok v, record vm { stack = rest })

unfoldable pub pop : M Value
pop vm = pop_from vm.stack vm

-- `n` times `pop`, the last in front: the arguments in their order
unfoldable pub pop_args : ℕ → List Value → M (List Value)
unfolding then_do pop
pop_args zero args = return args
pop_args (suc n) args = do v ← pop; pop_args n (v ∷ args)

-- `truncate`, from the top
unfoldable pub truncate : ℕ → List Value → List Value
truncate n [] = []
truncate n (v ∷ rest) =
    let less = truncate n rest in if ltb n (length (v ∷ rest)) then less else v ∷ rest

abbrev pub func_at : Core → ℕ → Option Function
func_at vm i = get_elem? vm.code.functions i

-- the locals of a call: the arguments in front, unit behind
unfoldable pub fill_locals : List Value → List Value → List Value
fill_locals [] args = []
fill_locals (u ∷ us) [] = u ∷ us
fill_locals (u ∷ us) (a ∷ args) = a ∷ fill_locals us args

abbrev pub enter : ℕ → List Value → Function → Core → Core
enter func_idx args f vm = record vm {
  call_stack =
      record {
        func_idx = func_idx;
        ip = 0;
        stack_base = length vm.stack;
        locals = fill_locals (replicate f.locals unit) args;
      }
      ∷ vm.call_stack;
}

unfoldable pub call_function : ℕ → List Value → M (Unit {0})
unfolding fill_locals
call_function func_idx args vm = elim (func_at vm func_idx) [
  | none ↦ finish (err (invalid_function func_idx), vm)
  | some f ↦
      if leb max_call_depth (length vm.call_stack)
      then finish (err (stack_overflow max_call_depth), vm)
      else finish (ok tt, enter func_idx args f vm)
]

abbrev pub top_frame : List CallFrame → Option CallFrame
top_frame [] = none
top_frame (f ∷ _) = some f

abbrev pub local_in : Option CallFrame → ℕ → Result Value VmError
local_in none idx = err stack_underflow
local_in (some f) idx = elim (get_elem? f.locals idx) [
  | some v ↦ ok v
  | none ↦ err (invalid_local idx)
]

unfoldable pub get_local : ℕ → M Value
get_local idx vm = finish (local_in (top_frame vm.call_stack) idx, vm)

abbrev pub with_local : List CallFrame → ℕ → Value → M (Unit {0})
with_local [] idx v vm = finish (err stack_underflow, vm)
with_local (f ∷ frames) idx v vm =
    if leb (length f.locals) idx
    then finish (err (invalid_local idx), vm)
    else finish
        (ok tt, record vm { call_stack = record f { locals = set f.locals idx v } ∷ frames })

unfoldable pub set_local : ℕ → Value → M (Unit {0})
set_local idx v vm = with_local vm.call_stack idx v vm

-- the top frame goes on at an instruction
abbrev pub move_to : ℕ → List CallFrame → List CallFrame
move_to target [] = []
move_to target (f ∷ frames) = record f { ip = target } ∷ frames

unfoldable pub jump : ℕ → M (Unit {0})
jump target vm = finish (ok tt, record vm { call_stack = move_to target vm.call_stack })
