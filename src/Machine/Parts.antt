-- ===== src/Machine/Parts.antt =====
-- crates/llmvm/src/vm.rs: the instructions, and one turn of the loop of `execute` after its checks.
-- What an instruction prints to stderr is left out.
use boruna.Prelude.{
  ℕ, String, Bool, true, false, ◌||◌, List, [], ◌∷◌, Option, none, some, ok, err, leb, ◌==◌,
  if◌then◌else◌, length, get_elem?, set, find, any,
}
use boruna.Prelude.Int.{ℤ, pos, negsuc}
use boruna.Bytecode.Capability.{Capability, id}
use boruna.Bytecode.Value.{
  Value, unit, bool, string, nothing, just, okay, error, record_of, enum_of, actor_id, fn_ref,
  type_name, int_eq,
}
use boruna.Vm.Client.{finish}
use boruna.Vm.Error.{VmError, stack_underflow, invalid_global, type_error, mailbox_empty}
use boruna.Machine.Module.{MatchArm, Function}
use boruna.Machine.Builtins.{Answer, items_of, wrong}
use boruna.Machine.State.{
  CallFrame, Core, M, Message, fail, jump, lift, modify, pop, push_value, return, then_do, truncate,
  ◌>>=◌, ◌>>◌,
}

-- how a turn ends: with the next one, or with a value
pub data Turn : Type 0 where
  continue : Turn
  stop : Value → Turn

-- `binary_op`, and the like for one and for three operands; the last operand is on top
unfoldable pub unary_op : (Value → Answer) → M Turn
unfolding then_do pop push_value
unary_op f = do a ← pop; r ← lift (f a); push_value r; return continue

unfoldable pub binary_op : (Value → Value → Answer) → M Turn
unfolding then_do pop push_value
binary_op f = do b ← pop; a ← pop; r ← lift (f a b); push_value r; return continue

unfoldable pub ternary_op : (Value → Value → Value → Answer) → M Turn
unfolding then_do pop push_value
ternary_op f = do c ← pop; b ← pop; a ← pop; r ← lift (f a b c); push_value r; return continue

-- `self.stack.pop().unwrap_or(Value::Unit)`
abbrev pub pop_or_unit_from : List Value → M Value
pop_or_unit_from [] vm = finish (ok unit, vm)
pop_or_unit_from (v ∷ rest) vm = finish (ok v, record vm { stack = rest })

unfoldable pub pop_or_unit : M Value
pop_or_unit vm = pop_or_unit_from vm.stack vm

-- the top frame is left: the stack is cut at its base
abbrev pub leave_from : List CallFrame → M (Unit {0})
leave_from [] vm = finish (ok tt, vm)
leave_from (f ∷ frames) vm =
    finish (ok tt, record vm { call_stack = frames; stack = truncate f.stack_base vm.stack })

unfoldable pub leave : M (Unit {0})
unfolding truncate
leave vm = leave_from vm.call_stack vm

abbrev pub set_global : ℕ → Value → M (Unit {0})
set_global idx v vm =
    if leb (length vm.globals) idx
    then finish (err (invalid_global idx), vm)
    else finish (ok tt, record vm { globals = set vm.globals idx v })

abbrev pub function_index : Value → M ℕ
function_index (fn_ref idx) = return idx
function_index other = fail (type_error "function reference" (type_name other))

abbrev pub actor_target : Value → M ℕ
actor_target (actor_id id) = return id
actor_target other = fail (type_error "ActorId" (type_name other))

-- the tag of a value in a match, and what a matched arm finds on the stack
unfoldable pub match_tag : Value → ℤ
match_tag (enum_of _ variant _) = pos variant
match_tag (bool true) = pos 1
match_tag (bool false) = pos 0
match_tag nothing = negsuc 1
match_tag (just _) = negsuc 2
match_tag (okay _) = negsuc 3
match_tag (error _) = negsuc 4
match_tag _ = negsuc 0

unfoldable pub inner_value : Value → Value
inner_value (enum_of _ _ payload) = payload
inner_value (just v) = v
inner_value (okay v) = v
inner_value (error v) = v
inner_value other = other

abbrev pub arm_for : ℤ → List MatchArm → Option MatchArm
arm_for tag table = find (λ (arm : MatchArm). int_eq arm.tag tag || int_eq arm.tag (negsuc 0)) table

abbrev pub field_at : ℕ → Value → Answer
field_at idx (record_of _ fields) = elim (get_elem? (items_of fields) idx) [
  | some v ↦ ok v
  | none ↦ err (type_error "valid field index" "out of bounds")
]
field_at idx v = wrong "Record" v

abbrev pub has_capability : Function → Capability → Bool
has_capability f c = any (λ d. id d == id c) f.capabilities

abbrev pub top_value : List Value → M Value
top_value [] = fail stack_underflow
top_value (v ∷ _) = return v

abbrev pub take_message : List Message → Core → Core
take_message rest vm = record vm { mailbox = rest }

abbrev pub message_or_wait : ℕ → List Message → Bool → M (Unit {0})
message_or_wait ip (m ∷ rest) in_actor = do modify (take_message rest); push_value m.payload
message_or_wait ip [] true = do jump ip; fail mailbox_empty
message_or_wait ip [] false = push_value unit

abbrev pub text_or : (Value → String) → Value → String
text_or show (string s) = s
text_or show v = show v

abbrev pub unless_passed : Bool → VmError → M Turn
unless_passed true e = return continue
unless_passed false e = fail e
