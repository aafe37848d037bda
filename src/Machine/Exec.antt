-- ===== src/Machine/Exec.antt =====
-- crates/llmvm/src/vm.rs: the instructions, and one turn of the loop of `execute` after its checks.
-- What an instruction prints to stderr is left out.
use boruna.Prelude.{
  ℕ, suc, Bool, true, false, not, ◌&&◌, ◌||◌, List, [], ◌∷◌, none, some, ok, err, length, get_elem?,
  push,
}
use boruna.Bytecode.Value.{unit, bool, enum_of, is_truthy, value_eq}
use boruna.Vm.Client.{finish}
use boruna.Vm.Error.{invalid_function}
use boruna.Machine.Opcode.{Op}
use boruna.Machine.Module.{Function}
use boruna.Machine.Platform.{Platform}
use boruna.Machine.Arith.{
  add_values, sub_values, mul_values, div_values, rem_values, neg_value, compare_with, is_lt, is_le,
  is_gt, is_ge,
}
use boruna.Machine.Builtins.{
  append_item, bool_text, concat_lists, float_text, get_item, get_key, has_key, head_of, int_text,
  is_empty_list, join_texts, length_of_list, list_length, map_key_list, map_length, map_value_list,
  push_item, remove_key, replace_text, reverse_list, set_key, slice_text, split_text, tail_of,
}
use boruna.Machine.State.{
  CallFrame, Core, M, TraceLine, func_at, modify, move_to, return, then_do, ◌>>=◌, ◌>>◌,
}
use boruna.Machine.Parts.{
  Turn, binary_op, continue, field_at, leave, pop_or_unit, stop, ternary_op, unary_op,
}
use boruna.Machine.Evals.{
  eval_concat, eval_float_parse, eval_int_parse, eval_parse_int, eval_str_contains,
  eval_str_starts_with, eval_string_chars, eval_string_contains, eval_string_ends_with,
  eval_string_len, eval_string_starts_with, eval_string_to_lower, eval_string_to_upper,
  eval_string_trim, eval_try_parse_int,
}
use boruna.Machine.Handlers.{
  exec_assert, exec_call, exec_call_indirect, exec_cap_call, exec_dup, exec_emit_ui,
  exec_guard_seal, exec_halt, exec_jmp, exec_jmp_if, exec_jmp_if_not, exec_load_global,
  exec_load_local, exec_make_list, exec_make_record, exec_match_on, exec_pop_op, exec_push_const,
  exec_receive_msg, exec_ret, exec_send_msg, exec_spawn_actor, exec_store_global, exec_store_local,
}

module _ (platform : Platform) where
  -- the instruction at `ip` of the function `f`; the frame already stands at `ip + 1`
  unfoldable pub exec_op : Function → ℕ → Op → M Turn
  unfolding unary_op binary_op ternary_op exec_push_const exec_load_local exec_store_local
      exec_load_global exec_store_global exec_call exec_call_indirect exec_ret exec_jmp exec_jmp_if
      exec_jmp_if_not exec_match_on exec_make_record exec_spawn_actor exec_send_msg exec_receive_msg
      exec_assert exec_guard_seal exec_cap_call exec_pop_op exec_dup exec_emit_ui exec_make_list
      exec_halt
  exec_op f ip (Op.push_const idx) = exec_push_const platform idx
  exec_op f ip (Op.load_local idx) = exec_load_local platform idx
  exec_op f ip (Op.store_local idx) = exec_store_local platform idx
  exec_op f ip (Op.load_global idx) = exec_load_global platform idx
  exec_op f ip (Op.store_global idx) = exec_store_global platform idx
  exec_op f ip (Op.call target arity) = exec_call platform target arity
  exec_op f ip (Op.call_indirect arity) = exec_call_indirect platform arity
  exec_op f ip Op.ret = exec_ret platform
  exec_op f ip (Op.jmp offset) = exec_jmp platform offset
  exec_op f ip (Op.jmp_if offset) = exec_jmp_if platform offset
  exec_op f ip (Op.jmp_if_not offset) = exec_jmp_if_not platform offset
  exec_op f ip (Op.match_on table_idx) = exec_match_on platform f table_idx
  exec_op f ip (Op.make_record type_id field_count) = exec_make_record platform type_id field_count
  exec_op f ip (Op.make_enum type_id variant) = unary_op (λ v. ok (enum_of type_id variant v))
  exec_op f ip (Op.get_field idx) = unary_op (field_at idx)
  exec_op f ip (Op.spawn_actor func_idx) = exec_spawn_actor platform func_idx
  exec_op f ip Op.send_msg = exec_send_msg platform
  exec_op f ip Op.receive_msg = exec_receive_msg platform ip
  exec_op f ip (Op.assert msg kind index) = exec_assert platform f msg kind index
  exec_op f ip Op.guard_seal = exec_guard_seal platform
  exec_op f ip (Op.cap_call cap_id arg_count) = exec_cap_call platform f cap_id arg_count
  exec_op f ip Op.add = binary_op (add_values platform)
  exec_op f ip Op.sub = binary_op (sub_values platform)
  exec_op f ip Op.mul = binary_op (mul_values platform)
  exec_op f ip Op.div = binary_op (div_values platform)
  exec_op f ip Op.modulo = binary_op (rem_values platform)
  exec_op f ip Op.neg = unary_op (neg_value platform)
  exec_op f ip Op.eq = binary_op (λ a b. ok (bool (value_eq a b)))
  exec_op f ip Op.neq = binary_op (λ a b. ok (bool (not (value_eq a b))))
  exec_op f ip Op.lt = binary_op (compare_with is_lt)
  exec_op f ip Op.lte = binary_op (compare_with is_le)
  exec_op f ip Op.gt = binary_op (compare_with is_gt)
  exec_op f ip Op.gte = binary_op (compare_with is_ge)
  exec_op f ip Op.not_op = unary_op (λ v. ok (bool (not (is_truthy v))))
  exec_op f ip Op.and_op = binary_op (λ a b. ok (bool (is_truthy a && is_truthy b)))
  exec_op f ip Op.or_op = binary_op (λ a b. ok (bool (is_truthy a || is_truthy b)))
  exec_op f ip Op.concat = binary_op eval_concat
  exec_op f ip Op.pop_op = exec_pop_op platform
  exec_op f ip Op.dup = exec_dup platform
  exec_op f ip Op.emit_ui = exec_emit_ui platform
  exec_op f ip (Op.make_list count) = exec_make_list platform count
  exec_op f ip Op.list_len = unary_op list_length
  exec_op f ip Op.list_get = binary_op get_item
  exec_op f ip Op.list_push = binary_op push_item
  exec_op f ip Op.parse_int = unary_op eval_parse_int
  exec_op f ip Op.try_parse_int = unary_op eval_try_parse_int
  exec_op f ip Op.str_contains = binary_op eval_str_contains
  exec_op f ip Op.str_starts_with = binary_op eval_str_starts_with
  exec_op f ip Op.int_to_string = unary_op int_text
  exec_op f ip Op.float_to_string = unary_op (float_text platform)
  exec_op f ip Op.string_len = unary_op eval_string_len
  exec_op f ip Op.string_chars = unary_op eval_string_chars
  exec_op f ip Op.string_contains = binary_op eval_string_contains
  exec_op f ip Op.string_starts_with = binary_op eval_string_starts_with
  exec_op f ip Op.string_ends_with = binary_op eval_string_ends_with
  exec_op f ip Op.string_to_upper = unary_op (eval_string_to_upper platform)
  exec_op f ip Op.string_to_lower = unary_op (eval_string_to_lower platform)
  exec_op f ip Op.string_trim = unary_op eval_string_trim
  exec_op f ip Op.string_join = binary_op join_texts
  exec_op f ip Op.list_len_builtin = unary_op length_of_list
  exec_op f ip Op.list_is_empty = unary_op is_empty_list
  exec_op f ip Op.list_head = unary_op head_of
  exec_op f ip Op.list_tail = unary_op tail_of
  exec_op f ip Op.list_append = binary_op append_item
  exec_op f ip Op.list_concat = binary_op concat_lists
  exec_op f ip Op.list_reverse = unary_op reverse_list
  exec_op f ip Op.string_split = binary_op split_text
  exec_op f ip Op.string_replace = ternary_op replace_text
  exec_op f ip Op.string_slice = ternary_op slice_text
  exec_op f ip Op.int_parse = unary_op eval_int_parse
  exec_op f ip Op.float_parse = unary_op (eval_float_parse platform)
  exec_op f ip Op.bool_to_string = unary_op bool_text
  exec_op f ip Op.map_get = binary_op get_key
  exec_op f ip Op.map_set = ternary_op set_key
  exec_op f ip Op.map_remove = binary_op remove_key
  exec_op f ip Op.map_contains_key = binary_op has_key
  exec_op f ip Op.map_keys = unary_op map_key_list
  exec_op f ip Op.map_values = unary_op map_value_list
  exec_op f ip Op.map_len = unary_op map_length
  exec_op f ip Op.debug = unary_op ok
  exec_op f ip Op.debug_msg = binary_op (λ msg v. ok v)
  exec_op f ip Op.nop = return continue
  exec_op f ip Op.halt = exec_halt platform

  -- a line of the trace, and the frame moved on: what comes before an instruction
  abbrev pub trace_if : Bool → TraceLine → Core → Core
  trace_if true line vm = record vm { trace = push vm.trace line }
  trace_if false line vm = vm

  abbrev pub traced : Function → ℕ → Op → Core → Core
  traced f ip op vm =
      trace_if vm.trace_enabled
        (record { function = f.name; ip = ip; op = op; stack_depth = length vm.stack }) vm

  abbrev pub advanced : ℕ → Core → Core
  advanced ip vm = record vm { call_stack = move_to (suc ip) vm.call_stack }

  -- the end of the code: the frame returns unit
  unfoldable pub return_unit : M Turn
  unfolding then_do leave
  return_unit = do leave; modify (λ vm. record vm { stack = unit ∷ vm.stack }); return continue

  -- a turn in a frame; the function of a frame is there, since `call_function` has looked it up
  unfoldable pub frame_turn : CallFrame → M Turn
  unfolding exec_op return_unit
  frame_turn frame vm = elim (func_at vm frame.func_idx) [
    | none ↦ finish (err (invalid_function frame.func_idx), vm)
    | some f ↦ elim (get_elem? f.code frame.ip) [
      | none ↦ return_unit vm
      | some op ↦ exec_op f frame.ip op (advanced frame.ip (traced f frame.ip op vm))
    ]
  ]

  abbrev pub turn_of : List CallFrame → M Turn
  turn_of [] = do v ← pop_or_unit; return (stop v)
  turn_of (frame ∷ _) = frame_turn frame

  unfoldable pub turn : M Turn
  unfolding then_do pop_or_unit frame_turn
  turn vm = turn_of vm.call_stack vm
