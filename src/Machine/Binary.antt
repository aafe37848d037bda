-- ===== src/Machine/Binary.antt =====
-- crates/llmbc/src/module.rs: a module is built, and its binary form. A byte is a number; the JSON
-- form is `serde_json`, a parameter in both directions.
use boruna.Prelude.{
  ℕ, zero, suc, ◌+◌, ◌*◌, ◌/◌, ◌%◌, ◌^◌, String, Bool, true, false, not, ◌&&◌, List, [], ◌∷◌, ◌++◌,
  Result, ok, err, ltb, ◌==◌, if◌then◌else◌, length, get_elem?, take, push, unwrap_or,
}
use boruna.Bytecode.Value.{Value}
use boruna.Vm.Error.{
  BytecodeError, invalid_magic, unsupported_version, invalid_bytecode, serialization,
}
use boruna.Machine.Module.{Function, Module}

abbrev pub magic : List ℕ
magic = 0x4C ∷ 0x4C ∷ 0x4D ∷ 0x42 ∷ []

abbrev pub bytecode_version : ℕ
bytecode_version = 1

abbrev pub empty_module : String → Module
empty_module name = record {
  name = name;
  version = bytecode_version;
  constants = [];
  globals = [];
  types = [];
  functions = [];
  entry = 0;
}

-- the index of the new constant or function, as a `u32`
abbrev pub add_const : Value → Module → ℕ × Module
add_const v m = (length m.constants % 2 ^ 32, record m { constants = push m.constants v })

abbrev pub add_function : Function → Module → ℕ × Module
add_function f m = (length m.functions % 2 ^ 32, record m { functions = push m.functions f })

-- `to_le_bytes` of a `u16` and of a `u32`
abbrev pub le_bytes_16 : ℕ → List ℕ
le_bytes_16 n = n % 256 ∷ n / 256 % 256 ∷ []

abbrev pub le_bytes_32 : ℕ → List ℕ
le_bytes_32 n = n % 256 ∷ n / 256 % 256 ∷ n / 65536 % 256 ∷ n / 16777216 % 256 ∷ []

abbrev pub framed : Module → Result (List ℕ) String → Result (List ℕ) BytecodeError
framed m (err e) = err (serialization e)
framed m (ok json) =
    ok (magic ++ le_bytes_16 m.version ++ le_bytes_32 (length json % 2 ^ 32) ++ json)

unfoldable pub to_bytes : (Module → Result (List ℕ) String) → Module → Result (List ℕ) BytecodeError
to_bytes to_vec m = framed m (to_vec m)

abbrev pub bytes_eq : List ℕ → List ℕ → Bool
bytes_eq [] [] = true
bytes_eq (a ∷ l) (b ∷ r) = (a == b) && bytes_eq l r
bytes_eq _ _ = false

abbrev pub drop : ℕ → List ℕ → List ℕ
drop zero bytes = bytes
drop (suc n) [] = []
drop (suc n) (b ∷ bytes) = drop n bytes

-- the byte at a place, where there is one
abbrev pub byte_at : ℕ → List ℕ → ℕ
byte_at i bytes = unwrap_or 0 (get_elem? bytes i)

abbrev pub version_at : List ℕ → ℕ
version_at bytes = byte_at 4 bytes + 256 * byte_at 5 bytes

abbrev pub len_at : List ℕ → ℕ
len_at bytes =
    byte_at 6 bytes + 256 * byte_at 7 bytes + 65536 * byte_at 8 bytes + 16777216 * byte_at 9 bytes

abbrev pub parsed : Result Module String → Result Module BytecodeError
parsed (ok m) = ok m
parsed (err e) = err (serialization e)

unfoldable pub from_bytes : (List ℕ → Result Module String) → List ℕ → Result Module BytecodeError
from_bytes from_slice bytes =
    if ltb (length bytes) 10
    then err (invalid_bytecode "too short")
    else if not (bytes_eq (take 4 bytes) magic)
    then err invalid_magic
    else if not (version_at bytes == bytecode_version)
    then err (unsupported_version (version_at bytes))
    else if ltb (length bytes) (10 + len_at bytes)
    then err (invalid_bytecode "truncated payload")
    else parsed (from_slice (take (len_at bytes) (drop 10 bytes)))
