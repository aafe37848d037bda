-- ===== src/Bytecode/Examples.antt =====
-- Capabilities and values at concrete inputs.
use boruna.Prelude.{◌≡◌, refl, true, false, some, none, [], ◌∷◌}
use boruna.Prelude.Int.{negsuc}
use boruna.Bytecode.Capability.{from_id, from_name, llm_call, hash_input}
use boruna.Bytecode.Value.{Value, float, int, list, nil, cons, value_eq}

alias_is_read : from_name "llm" ≡ some llm_call
unfolding from_name
alias_is_read = refl

unknown_id : from_id 11 ≡ none
unfolding from_id
unknown_id = refl

one_fed : hash_input (record { name = "random"; version = "1" } ∷ []) ≡ "random\t1\n"
unfolding hash_input
one_fed = refl

abbrev nan_list : Value
nan_list = list (cons (int (negsuc 4)) (cons (float 0x7FF8000000000000) nil))

nan_differs : value_eq nan_list nan_list ≡ false
unfolding value_eq
nan_differs = refl

zeros_are_equal : value_eq (float 0) (float 0x8000000000000000) ≡ true
unfolding value_eq
zeros_are_equal = refl
