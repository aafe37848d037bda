-- ===== src/Machine/Instructions.antt =====
-- crates/llmvm/src/vm.rs: the instructions, each by the steps it consists of.
use boruna.Prelude.{
  ℕ, suc, ◌≤◌, ◌≡◌, refl, Bool, true, false, not, ◌&&◌, ◌||◌, List, [], ◌∷◌, ok, arith,
  if◌then◌else◌, get_elem?, push,
}
use boruna.Bytecode.Capability.{Capability, from_id, id, name}
use boruna.Bytecode.Value.{
  Value, unit, bool, record_of, enum_of, list, is_truthy, value_eq, fn_ref, actor_id,
}
use boruna.Vm.Error.{
  VmError, capability_denied, contract_violation, invalid_constant, invalid_global, mailbox_empty,
  match_exhausted, stack_underflow, unknown_capability,
}
use boruna.Vm.Client.{emitted, checked}
use boruna.Machine.Opcode.{Op}
use boruna.Machine.Platform.{Platform}
use boruna.Machine.Module.{MatchArm, Function, Module}
use boruna.Machine.State.{
  Core, M, Message, call_function, fail, jump, max_stack, modify, pop, pop_args, push_value,
  request, return, then_do, ◌>>=◌, ◌>>◌,
}
use boruna.Machine.Parts.{
  actor_target, arm_for, binary_op, continue, field_at, function_index, has_capability, inner_value,
  match_tag, message_or_wait, stop, take_message, ternary_op, text_or, top_value, unary_op,
  unless_passed,
}
use boruna.Machine.Builtins.{
  Answer, append_item, bool_text, concat_lists, float_text, get_item, get_key, has_key, head_of,
  int_text, is_empty_list, join_texts, length_of_list, list_length, map_key_list, map_length,
  map_value_list, push_item, remove_key, replace_text, reverse_list, set_key, slice_text,
  split_text, tail_of, values_of,
}
use boruna.Machine.Display.{show_value}
use boruna.Machine.Arith.{
  add_values, sub_values, mul_values, div_values, rem_values, neg_value, compare_with, is_lt, is_le,
  is_gt, is_ge,
}
use Prim.Native.String.{◌++◌}
use boruna.Vm.EventLog.{as_str}
use boruna.Machine.Evals.{
  eval_concat, eval_float_parse, eval_int_parse, eval_parse_int, eval_str_contains,
  eval_str_starts_with, eval_string_chars, eval_string_contains, eval_string_ends_with,
  eval_string_len, eval_string_starts_with, eval_string_to_lower, eval_string_to_upper,
  eval_string_trim, eval_try_parse_int,
}
use boruna.Machine.Handlers.{violation}
use boruna.Machine.Exec.{exec_op}
use boruna.Machine.Ends.{
  Keeps, Keeps-bind, Keeps-fail, Keeps-gets, Keeps-if, Keeps-lift, Keeps-log, Keeps-modify,
  Keeps-or_fail, Keeps-request, Keeps-return,
}
use boruna.Machine.Safe.{
  Declared, IsSafe, call_function-Safe, get_local-Safe, jump-Safe, leave-Safe, pop-Safe,
  pop_args-Safe, pop_or_unit-Safe, push_value-Safe, set_global-Safe, set_local-Safe,
}

module _ (m : Module) (n : ℕ) (enough : max_stack ≤ n) where
  abbrev D : Capability → Type 0
  D = Declared m

  abbrev I : Core → Type 0
  I = IsSafe m n

  abbrev Kept : {A : Type 0} → M A → Type 0
  Kept = Keeps D I

  bind : {A B : Type 0} {k : M A} {f : A → M B} → Kept k → ((a : A) → Kept (f a)) → Kept (k >>= f)
  bind = Keeps-bind D I

  go_on : Kept (return continue)
  go_on = Keeps-return D I continue

  pushed : (v : Value) → Kept (do push_value v; return continue)
  pushed v = bind (push_value-Safe m n enough v) (λ _. go_on)

  popped : {A : Type 0} {f : Value → M A} → ((v : Value) → Kept (f v)) → Kept (pop >>= f)
  popped h = bind (pop-Safe m n enough) h

  unary_op-Safe : (f : Value → Answer) → Kept (unary_op f)
  unfolding unary_op
  unary_op-Safe f = popped (λ a. bind (Keeps-lift D I (f a)) pushed)

  binary_op-Safe : (f : Value → Value → Answer) → Kept (binary_op f)
  unfolding binary_op
  binary_op-Safe f = popped (λ b. popped (λ a. bind (Keeps-lift D I (f a b)) pushed))

  ternary_op-Safe : (f : Value → Value → Value → Answer) → Kept (ternary_op f)
  unfolding ternary_op
  ternary_op-Safe f =
      popped (λ c. popped (λ b. popped (λ a. bind (Keeps-lift D I (f a b c)) pushed)))

  -- a change of what the invariant does not read
  aside : (f : Core → Core) → ((vm : Core) → I vm → I (f vm)) → Kept (do modify f; return continue)
  aside f h = bind (Keeps-modify D I f h) (λ _. go_on)

  top_value-Safe : (stack : List Value) → Kept (top_value stack)
  top_value-Safe [] = Keeps-fail D I stack_underflow
  top_value-Safe (v ∷ _) = Keeps-return D I v

  function_index-Safe : (v : Value) → Kept (function_index v)
  function_index-Safe unit = Keeps-fail D I _
  function_index-Safe (fn_ref idx) = Keeps-return D I idx
  function_index-Safe _ = Keeps-fail D I _

  actor_target-Safe : (v : Value) → Kept (actor_target v)
  actor_target-Safe unit = Keeps-fail D I _
  actor_target-Safe (actor_id id) = Keeps-return D I id
  actor_target-Safe _ = Keeps-fail D I _

  unless_passed-Safe : (b : Bool) (e : VmError) → Kept (unless_passed b e)
  unless_passed-Safe true e = go_on
  unless_passed-Safe false e = Keeps-fail D I e

  message_or_wait-Safe :
      (ip : ℕ) (mailbox : List Message) (in_actor : Bool)
      → Kept (message_or_wait ip mailbox in_actor)
  message_or_wait-Safe ip (msg ∷ rest) in_actor =
      bind (Keeps-modify D I (take_message rest) (λ vm s. ground arith))
        (λ _. push_value-Safe m n enough msg.payload)
  message_or_wait-Safe ip [] true =
      bind (jump-Safe m n enough ip) (λ _. Keeps-fail D I mailbox_empty)
  message_or_wait-Safe ip [] false = push_value-Safe m n enough unit

  -- what follows a guard may use that it passed
  guarded :
      {A : Type 0} (b : Bool) (e : VmError) {k : M A}
      → (b ≡ true → Kept k)
      → Kept (do if b then return tt else fail e; k)
  unfolding then_do
  guarded true e h = bind (Keeps-return D I tt) (λ _. h refl)
  guarded false e h = record { keeps = λ vm s. s }

  called :
      (target arity : ℕ)
      → Kept (do args ← pop_args arity []; call_function target args; return continue)
  called target arity =
      bind (pop_args-Safe m n enough arity [])
        (λ args. bind (call_function-Safe m n enough target args) (λ _. go_on))

  jumped : (target : ℕ) → Kept (do jump target; return continue)
  jumped target = bind (jump-Safe m n enough target) (λ _. go_on)

  module _ (platform : Platform) (f : Function)
      (declared : (c : Capability) → has_capability f c ≡ true → Declared m c) where
    requested :
        (c : Capability) (args : List Value) → has_capability f c ≡ true → Kept (request c args)
    requested c args h = Keeps-request D I c args (declared c h)

    pub exec_op-Safe : (ip : ℕ) (op : Op) → Kept (exec_op platform f ip op)
    unfolding exec_op
    exec_op-Safe ip (Op.push_const idx) =
        bind (Keeps-gets D I (λ vm. vm.code.constants)) (λ constants.
          bind (Keeps-or_fail D I (invalid_constant idx) (get_elem? constants idx)) pushed)
    exec_op-Safe ip (Op.load_local idx) = bind (get_local-Safe m n enough idx) pushed
    exec_op-Safe ip (Op.store_local idx) =
        popped (λ v. bind (set_local-Safe m n enough idx v) (λ _. go_on))
    exec_op-Safe ip (Op.load_global idx) =
        bind (Keeps-gets D I (λ vm. vm.globals))
          (λ globals. bind (Keeps-or_fail D I (invalid_global idx) (get_elem? globals idx)) pushed)
    exec_op-Safe ip (Op.store_global idx) =
        popped (λ v. bind (set_global-Safe m n enough idx v) (λ _. go_on))
    exec_op-Safe ip (Op.call target arity) = called target arity
    exec_op-Safe ip (Op.call_indirect arity) =
        popped (λ callee. bind (function_index-Safe callee) (λ target. called target arity))
    exec_op-Safe ip Op.ret =
        bind (pop_or_unit-Safe m n enough)
          (λ result. bind (leave-Safe m n enough) (λ _. pushed result))
    exec_op-Safe ip (Op.jmp offset) = jumped offset
    exec_op-Safe ip (Op.jmp_if offset) = popped (λ v.
        bind (Keeps-if D I (is_truthy v) (jump-Safe m n enough offset) (Keeps-return D I tt))
          (λ _. go_on))
    exec_op-Safe ip (Op.jmp_if_not offset) = popped (λ v.
        bind (Keeps-if D I (is_truthy v) (Keeps-return D I tt) (jump-Safe m n enough offset))
          (λ _. go_on))
    exec_op-Safe ip (Op.match_on table_idx) = popped (λ v.
        bind (Keeps-or_fail D I match_exhausted (get_elem? f.match_tables table_idx)) (λ table.
          bind (Keeps-or_fail D I match_exhausted (arm_for (match_tag v) table))
            (λ (arm : MatchArm).
              bind (push_value-Safe m n enough (inner_value v)) (λ _. jumped arm.target))))
    exec_op-Safe ip (Op.make_record type_id field_count) =
        bind (pop_args-Safe m n enough field_count [])
          (λ fields. pushed (record_of type_id (values_of fields)))
    exec_op-Safe ip (Op.make_list count) =
        bind (pop_args-Safe m n enough count []) (λ items. pushed (list (values_of items)))
    exec_op-Safe ip (Op.spawn_actor func_idx) =
        bind (Keeps-gets D I (λ vm. vm.next_spawn_id)) (λ child_id.
          bind
            (Keeps-modify D I
              (λ vm. record vm {
                next_spawn_id = suc vm.next_spawn_id;
                spawn_requests = push vm.spawn_requests func_idx;
              })
              (λ vm s. ground arith))
            (λ _. pushed (actor_id child_id)))
    exec_op-Safe ip Op.send_msg = popped (λ payload. popped (λ target.
        bind (actor_target-Safe target) (λ to.
          aside (λ vm. record vm { outgoing_messages = push vm.outgoing_messages (to, payload) })
            (λ vm s. ground arith))))
    exec_op-Safe ip Op.receive_msg = bind (Keeps-gets D I (λ vm. vm.mailbox)) (λ mailbox.
        bind (Keeps-gets D I (λ vm. vm.in_actor_context))
          (λ in_actor. bind (message_or_wait-Safe ip mailbox in_actor) (λ _. go_on)))
    exec_op-Safe ip (Op.assert msg kind index) = popped (λ v.
        bind (Keeps-log D I (checked f.name (as_str kind) index (is_truthy v))) (λ _.
          bind (Keeps-gets D I (violation platform f msg))
            (λ e. unless_passed-Safe (is_truthy v) e)))
    exec_op-Safe ip Op.guard_seal = popped (λ label. popped (λ v.
        bind
          (Keeps-log D I (checked (text_or (show_value platform) label) "output" 0 (is_truthy v)))
          (λ _. unless_passed-Safe (is_truthy v) (
            contract_violation
              ("output guard `" ++ text_or (show_value platform) label ++ "` failed") []))))
    exec_op-Safe ip (Op.cap_call cap_id arg_count) =
        bind (Keeps-or_fail D I (unknown_capability cap_id) (from_id cap_id)) (λ c.
          guarded (has_capability f c) (capability_denied c) (λ h.
            bind (pop_args-Safe m n enough arg_count []) (λ args.
              bind (requested c args h) (λ result.
                bind
                  (Keeps-modify D I
                    (λ vm. record vm { last_cap_events = push vm.last_cap_events (name c) })
                    (λ vm s. ground arith))
                  (λ _. pushed result)))))
    exec_op-Safe ip Op.pop_op = popped (λ _. go_on)
    exec_op-Safe ip Op.dup =
        bind (Keeps-gets D I (λ vm. vm.stack)) (λ stack. bind (top_value-Safe stack) pushed)
    exec_op-Safe ip Op.emit_ui = popped (λ tree. bind (Keeps-log D I (emitted tree)) (λ _.
        aside (λ vm. record vm { ui_output = push vm.ui_output tree }) (λ vm s. ground arith)))
    exec_op-Safe ip Op.nop = go_on
    exec_op-Safe ip Op.halt = bind (pop_or_unit-Safe m n enough) (λ v. Keeps-return D I (stop v))
    exec_op-Safe ip (Op.make_enum type_id variant) =
        unary_op-Safe (λ v. ok (enum_of type_id variant v))
    exec_op-Safe ip (Op.get_field idx) = unary_op-Safe (field_at idx)
    exec_op-Safe ip Op.neg = unary_op-Safe (neg_value platform)
    exec_op-Safe ip Op.not_op = unary_op-Safe (λ v. ok (bool (not (is_truthy v))))
    exec_op-Safe ip Op.list_len = unary_op-Safe list_length
    exec_op-Safe ip Op.parse_int = unary_op-Safe eval_parse_int
    exec_op-Safe ip Op.try_parse_int = unary_op-Safe eval_try_parse_int
    exec_op-Safe ip Op.int_to_string = unary_op-Safe int_text
    exec_op-Safe ip Op.float_to_string = unary_op-Safe (float_text platform)
    exec_op-Safe ip Op.string_len = unary_op-Safe eval_string_len
    exec_op-Safe ip Op.string_chars = unary_op-Safe eval_string_chars
    exec_op-Safe ip Op.string_to_upper = unary_op-Safe (eval_string_to_upper platform)
    exec_op-Safe ip Op.string_to_lower = unary_op-Safe (eval_string_to_lower platform)
    exec_op-Safe ip Op.string_trim = unary_op-Safe eval_string_trim
    exec_op-Safe ip Op.list_len_builtin = unary_op-Safe length_of_list
    exec_op-Safe ip Op.list_is_empty = unary_op-Safe is_empty_list
    exec_op-Safe ip Op.list_head = unary_op-Safe head_of
    exec_op-Safe ip Op.list_tail = unary_op-Safe tail_of
    exec_op-Safe ip Op.list_reverse = unary_op-Safe reverse_list
    exec_op-Safe ip Op.int_parse = unary_op-Safe eval_int_parse
    exec_op-Safe ip Op.float_parse = unary_op-Safe (eval_float_parse platform)
    exec_op-Safe ip Op.bool_to_string = unary_op-Safe bool_text
    exec_op-Safe ip Op.map_keys = unary_op-Safe map_key_list
    exec_op-Safe ip Op.map_values = unary_op-Safe map_value_list
    exec_op-Safe ip Op.map_len = unary_op-Safe map_length
    exec_op-Safe ip Op.debug = unary_op-Safe ok
    exec_op-Safe ip Op.add = binary_op-Safe (add_values platform)
    exec_op-Safe ip Op.sub = binary_op-Safe (sub_values platform)
    exec_op-Safe ip Op.mul = binary_op-Safe (mul_values platform)
    exec_op-Safe ip Op.div = binary_op-Safe (div_values platform)
    exec_op-Safe ip Op.modulo = binary_op-Safe (rem_values platform)
    exec_op-Safe ip Op.eq = binary_op-Safe (λ a b. ok (bool (value_eq a b)))
    exec_op-Safe ip Op.neq = binary_op-Safe (λ a b. ok (bool (not (value_eq a b))))
    exec_op-Safe ip Op.lt = binary_op-Safe (compare_with is_lt)
    exec_op-Safe ip Op.lte = binary_op-Safe (compare_with is_le)
    exec_op-Safe ip Op.gt = binary_op-Safe (compare_with is_gt)
    exec_op-Safe ip Op.gte = binary_op-Safe (compare_with is_ge)
    exec_op-Safe ip Op.and_op = binary_op-Safe (λ a b. ok (bool (is_truthy a && is_truthy b)))
    exec_op-Safe ip Op.or_op = binary_op-Safe (λ a b. ok (bool (is_truthy a || is_truthy b)))
    exec_op-Safe ip Op.concat = binary_op-Safe eval_concat
    exec_op-Safe ip Op.list_get = binary_op-Safe get_item
    exec_op-Safe ip Op.list_push = binary_op-Safe push_item
    exec_op-Safe ip Op.str_contains = binary_op-Safe eval_str_contains
    exec_op-Safe ip Op.str_starts_with = binary_op-Safe eval_str_starts_with
    exec_op-Safe ip Op.string_contains = binary_op-Safe eval_string_contains
    exec_op-Safe ip Op.string_starts_with = binary_op-Safe eval_string_starts_with
    exec_op-Safe ip Op.string_ends_with = binary_op-Safe eval_string_ends_with
    exec_op-Safe ip Op.string_join = binary_op-Safe join_texts
    exec_op-Safe ip Op.list_append = binary_op-Safe append_item
    exec_op-Safe ip Op.list_concat = binary_op-Safe concat_lists
    exec_op-Safe ip Op.string_split = binary_op-Safe split_text
    exec_op-Safe ip Op.map_get = binary_op-Safe get_key
    exec_op-Safe ip Op.map_remove = binary_op-Safe remove_key
    exec_op-Safe ip Op.map_contains_key = binary_op-Safe has_key
    exec_op-Safe ip Op.debug_msg = binary_op-Safe (λ msg v. ok v)
    exec_op-Safe ip Op.string_replace = ternary_op-Safe replace_text
    exec_op-Safe ip Op.string_slice = ternary_op-Safe slice_text
    exec_op-Safe ip Op.map_set = ternary_op-Safe set_key
