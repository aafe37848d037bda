-- ===== src/Machine/Handlers.antt =====
-- crates/llmvm/src/vm.rs: the instructions that are more than a function of their operands.
use Prim.Native.String.{◌++◌}
use boruna.Prelude.{
  ℕ, suc, String, List, [], map, Option, none, some, if◌then◌else◌, get_elem?, take, push,
}
use boruna.Bytecode.Capability.{from_id, name}
use boruna.Bytecode.Value.{Value, record_of, list, actor_id, is_truthy}
use boruna.Vm.EventLog.{ContractKind, as_str}
use boruna.Vm.Client.{emitted, checked}
use boruna.Vm.Error.{
  VmError, invalid_constant, invalid_global, capability_denied, unknown_capability,
  contract_violation, match_exhausted,
}
use boruna.Machine.Module.{Function}
use boruna.Machine.Platform.{Platform}
use boruna.Machine.Builtins.{values_of}
use boruna.Machine.Display.{show_value}
use boruna.Machine.State.{
  CallFrame, Core, M, call_function, fail, get_local, gets, jump, log, modify, or_fail, pop,
  pop_args, push_value, request, return, set_local, top_frame, ◌>>=◌, ◌>>◌,
}
use boruna.Machine.Parts.{
  Turn, actor_target, arm_for, continue, function_index, has_capability, inner_value, leave,
  match_tag, message_or_wait, pop_or_unit, set_global, stop, text_or, top_value, unless_passed,
}

module _ (platform : Platform) where
  abbrev show : Value → String
  show = show_value platform

  -- the arguments in front of the locals of the top frame
  abbrev pub counterexample : Function → Option CallFrame → List String
  counterexample f none = []
  counterexample f (some frame) = map show (take f.arity frame.locals)

  abbrev pub violation : Function → ℕ → Core → VmError
  violation f msg vm =
      contract_violation
        (elim (get_elem? vm.code.constants msg) [ some v ↦ show v | none ↦ "contract violation" ])
        (counterexample f (top_frame vm.call_stack))

  unfoldable pub exec_push_const : ℕ → M Turn
  exec_push_const idx = do
    constants ← gets (λ vm. vm.code.constants)
    v ← or_fail (invalid_constant idx) (get_elem? constants idx)
    push_value v
    return continue

  unfoldable pub exec_load_local : ℕ → M Turn
  exec_load_local idx = do v ← get_local idx; push_value v; return continue

  unfoldable pub exec_store_local : ℕ → M Turn
  exec_store_local idx = do v ← pop; set_local idx v; return continue

  unfoldable pub exec_load_global : ℕ → M Turn
  exec_load_global idx = do
    globals ← gets (λ vm. vm.globals)
    v ← or_fail (invalid_global idx) (get_elem? globals idx)
    push_value v
    return continue

  unfoldable pub exec_store_global : ℕ → M Turn
  exec_store_global idx = do v ← pop; set_global idx v; return continue

  unfoldable pub exec_call : ℕ → ℕ → M Turn
  exec_call target arity = do args ← pop_args arity []; call_function target args; return continue

  unfoldable pub exec_call_indirect : ℕ → M Turn
  exec_call_indirect arity = do
    callee ← pop
    target ← function_index callee
    args ← pop_args arity []
    call_function target args
    return continue

  unfoldable pub exec_ret : M Turn
  exec_ret = do result ← pop_or_unit; leave; push_value result; return continue

  unfoldable pub exec_jmp : ℕ → M Turn
  exec_jmp offset = do jump offset; return continue

  unfoldable pub exec_jmp_if : ℕ → M Turn
  exec_jmp_if offset = do v ← pop; if is_truthy v then jump offset else return tt; return continue

  unfoldable pub exec_jmp_if_not : ℕ → M Turn
  exec_jmp_if_not offset = do
    v ← pop
    if is_truthy v then return tt else jump offset
    return continue

  unfoldable pub exec_match_on : Function → ℕ → M Turn
  exec_match_on f table_idx = do
    v ← pop
    table ← or_fail match_exhausted (get_elem? f.match_tables table_idx)
    arm ← or_fail match_exhausted (arm_for (match_tag v) table)
    push_value (inner_value v)
    jump arm.target
    return continue

  unfoldable pub exec_make_record : ℕ → ℕ → M Turn
  exec_make_record type_id field_count = do
    fields ← pop_args field_count []
    push_value (record_of type_id (values_of fields))
    return continue

  unfoldable pub exec_spawn_actor : ℕ → M Turn
  exec_spawn_actor func_idx = do
    child_id ← gets (λ vm. vm.next_spawn_id)
    modify (λ vm. record vm {
      next_spawn_id = suc vm.next_spawn_id;
      spawn_requests = push vm.spawn_requests func_idx;
    })
    push_value (actor_id child_id)
    return continue

  unfoldable pub exec_send_msg : M Turn
  exec_send_msg = do
    payload ← pop
    target ← pop
    to ← actor_target target
    modify (λ vm. record vm { outgoing_messages = push vm.outgoing_messages (to, payload) })
    return continue

  unfoldable pub exec_receive_msg : ℕ → M Turn
  exec_receive_msg ip = do
    mailbox ← gets (λ vm. vm.mailbox)
    in_actor ← gets (λ vm. vm.in_actor_context)
    message_or_wait ip mailbox in_actor
    return continue

  unfoldable pub exec_assert : Function → ℕ → ContractKind → ℕ → M Turn
  exec_assert f msg kind index = do
    v ← pop
    log (checked f.name (as_str kind) index (is_truthy v))
    e ← gets (violation f msg)
    unless_passed (is_truthy v) e

  unfoldable pub exec_guard_seal : M Turn
  exec_guard_seal = do
    label ← pop
    v ← pop
    log (checked (text_or show label) "output" 0 (is_truthy v))
    unless_passed (is_truthy v)
        (contract_violation ("output guard `" ++ text_or show label ++ "` failed") [])

  unfoldable pub exec_cap_call : Function → ℕ → ℕ → M Turn
  exec_cap_call f cap_id arg_count = do
    c ← or_fail (unknown_capability cap_id) (from_id cap_id)
    if has_capability f c then return tt else fail (capability_denied c)
    args ← pop_args arg_count []
    result ← request c args
    modify (λ vm. record vm { last_cap_events = push vm.last_cap_events (name c) })
    push_value result
    return continue

  unfoldable pub exec_pop_op : M Turn
  exec_pop_op = do _ ← pop; return continue

  unfoldable pub exec_dup : M Turn
  exec_dup = do stack ← gets (λ vm. vm.stack); v ← top_value stack; push_value v; return continue

  unfoldable pub exec_emit_ui : M Turn
  exec_emit_ui = do
    tree ← pop
    log (emitted tree)
    modify (λ vm. record vm { ui_output = push vm.ui_output tree })
    return continue

  unfoldable pub exec_make_list : ℕ → M Turn
  exec_make_list count = do
    items ← pop_args count []
    push_value (list (values_of items))
    return continue

  unfoldable pub exec_halt : M Turn
  exec_halt = do v ← pop_or_unit; return (stop v)
