-- ===== src/Machine/Opcode.antt =====
-- crates/llmbc/src/opcode.rs: `Op`.
use boruna.Prelude.{ℕ}
use boruna.Vm.EventLog.{ContractKind}

pub data Op : Type 0 where
  push_const load_local store_local load_global store_global : ℕ → Op
  call : ℕ → ℕ → Op
  call_indirect : ℕ → Op
  ret : Op
  jmp jmp_if jmp_if_not match_on : ℕ → Op
  make_record make_enum : ℕ → ℕ → Op
  get_field spawn_actor : ℕ → Op
  send_msg receive_msg : Op
  assert : ℕ → ContractKind → ℕ → Op
  guard_seal : Op
  cap_call : ℕ → ℕ → Op
  add sub mul div modulo neg : Op
  eq neq lt lte gt gte : Op
  not_op and_op or_op : Op
  concat pop_op dup emit_ui : Op
  make_list : ℕ → Op
  list_len list_get list_push : Op
  parse_int str_contains str_starts_with try_parse_int int_to_string float_to_string : Op
  string_len string_chars string_contains string_starts_with string_ends_with : Op
  string_to_upper string_to_lower string_trim string_join : Op
  list_len_builtin list_is_empty list_head list_tail list_append list_concat list_reverse : Op
  string_split string_replace string_slice int_parse float_parse bool_to_string : Op
  map_get map_set map_remove map_contains_key map_keys map_values map_len : Op
  debug debug_msg nop halt : Op

unfoldable pub to_byte_tag : Op → ℕ
to_byte_tag (push_const _) = 0x01
to_byte_tag (load_local _) = 0x02
to_byte_tag (store_local _) = 0x03
to_byte_tag (load_global _) = 0x04
to_byte_tag (store_global _) = 0x05
to_byte_tag (call _ _) = 0x06
to_byte_tag (call_indirect _) = 0x14
to_byte_tag ret = 0x07
to_byte_tag (jmp _) = 0x08
to_byte_tag (jmp_if _) = 0x09
to_byte_tag (jmp_if_not _) = 0x0A
to_byte_tag (match_on _) = 0x0B
to_byte_tag (make_record _ _) = 0x0C
to_byte_tag (make_enum _ _) = 0x0D
to_byte_tag (get_field _) = 0x0E
to_byte_tag (spawn_actor _) = 0x0F
to_byte_tag send_msg = 0x10
to_byte_tag receive_msg = 0x11
to_byte_tag (assert _ _ _) = 0x12
to_byte_tag (cap_call _ _) = 0x13
to_byte_tag guard_seal = 0x15
to_byte_tag add = 0x20
to_byte_tag sub = 0x21
to_byte_tag mul = 0x22
to_byte_tag div = 0x23
to_byte_tag modulo = 0x24
to_byte_tag neg = 0x25
to_byte_tag eq = 0x30
to_byte_tag neq = 0x31
to_byte_tag lt = 0x32
to_byte_tag lte = 0x33
to_byte_tag gt = 0x34
to_byte_tag gte = 0x35
to_byte_tag not_op = 0x40
to_byte_tag and_op = 0x41
to_byte_tag or_op = 0x42
to_byte_tag concat = 0x50
to_byte_tag pop_op = 0x60
to_byte_tag dup = 0x61
to_byte_tag emit_ui = 0x70
to_byte_tag (make_list _) = 0x80
to_byte_tag list_len = 0x81
to_byte_tag list_get = 0x82
to_byte_tag list_push = 0x83
to_byte_tag parse_int = 0x84
to_byte_tag str_contains = 0x85
to_byte_tag str_starts_with = 0x86
to_byte_tag try_parse_int = 0x87
to_byte_tag int_to_string = 0x88
to_byte_tag float_to_string = 0x89
to_byte_tag string_len = 0x8A
to_byte_tag string_chars = 0x8B
to_byte_tag string_contains = 0x8C
to_byte_tag string_starts_with = 0x8D
to_byte_tag string_ends_with = 0x8E
to_byte_tag string_to_upper = 0x8F
to_byte_tag string_to_lower = 0x90
to_byte_tag string_trim = 0x91
to_byte_tag string_join = 0x92
to_byte_tag list_len_builtin = 0x93
to_byte_tag list_is_empty = 0x94
to_byte_tag list_head = 0x95
to_byte_tag list_tail = 0x96
to_byte_tag list_append = 0x97
to_byte_tag list_concat = 0x98
to_byte_tag list_reverse = 0x99
to_byte_tag string_split = 0x9A
to_byte_tag string_replace = 0x9B
to_byte_tag string_slice = 0x9C
to_byte_tag int_parse = 0x9D
to_byte_tag float_parse = 0x9E
to_byte_tag bool_to_string = 0x9F
to_byte_tag map_get = 0xA0
to_byte_tag map_set = 0xA1
to_byte_tag map_remove = 0xA2
to_byte_tag map_contains_key = 0xA3
to_byte_tag map_keys = 0xA4
to_byte_tag map_values = 0xA5
to_byte_tag map_len = 0xA6
to_byte_tag debug = 0xA7
to_byte_tag debug_msg = 0xA8
to_byte_tag nop = 0xFE
to_byte_tag halt = 0xFF
