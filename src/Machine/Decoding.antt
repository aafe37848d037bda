-- ===== src/Machine/Decoding.antt =====
-- crates/llmbc/src/module.rs: `from_bytes` on what `to_bytes` writes.
use mathlib.Core.List.{append-nil}
use boruna.Prelude.{
  ℕ, ◌+◌, ◌*◌, ◌/◌, ◌%◌, ◌^◌, ◌<◌, ◌≡◌, refl, sym, ap, ◌∙◌, String, Bool, false, List, [], ◌∷◌,
  ◌++◌, Result, ok, err, arith, ltb, if◌then◌else◌, length, length-append, take,
}
use boruna.Vm.Error.{BytecodeError, invalid_bytecode}
use boruna.Machine.Module.{Module}
use boruna.Machine.Binary.{
  bytecode_version, from_bytes, framed, le_bytes_16, le_bytes_32, len_at, magic, parsed, to_bytes,
}

take-append : (json rest : List ℕ) → take (length json) (json ++ rest) ≡ json
take-append [] rest = refl
take-append (b ∷ json) rest = ap (λ l. b ∷ l) (take-append json rest)

le_bytes_32_lem :
    (n : ℕ)
    → n < 2 ^ 32
    → n % 256 + 256 * (n / 256 % 256) + 65536 * (n / 65536 % 256) + 16777216 * (n / 16777216 % 256)
      ≡ n
le_bytes_32_lem n h = omega (arith, h)

mod_32 : (n : ℕ) → n < 2 ^ 32 → n % 2 ^ 32 ≡ n
mod_32 n h = omega (arith, h)

-- the bytes of a payload, with what follows
abbrev written : List ℕ → List ℕ → List ℕ
written json rest =
    0x4C ∷ 0x4C ∷ 0x4D ∷ 0x42 ∷ 1 ∷ 0 ∷ (le_bytes_32 (length json) ++ (json ++ rest))

from_bytes-written :
    (from_slice : List ℕ → Result Module String) (json rest : List ℕ)
    → length json < 2 ^ 32
    → from_bytes from_slice (written json rest) ≡ parsed (from_slice json)
unfolding from_bytes
from_bytes-written from_slice json rest h =
    let n = length json in
    let long : ltb (length (written json rest)) 10 ≡ false = ground arith in
    let enough : ltb (length (written json rest)) (10 + n) ≡ false =
      ground (arith, length-append json rest) in
    ap (λ short. sized short (len_at (written json rest))) long
    ∙ ap (sized false) (le_bytes_32_lem n h)
    ∙ ap (payload n) enough
    ∙ ap (λ bytes. parsed (from_slice bytes)) (take-append json rest)
  where
    -- what is left of the decoder once the magic and the version are read
    payload : ℕ → Bool → Result Module BytecodeError
    payload len truncated =
        if truncated
        then err (invalid_bytecode "truncated payload")
        else parsed (from_slice (take len (json ++ rest)))

    sized : Bool → ℕ → Result Module BytecodeError
    sized short len =
        if short
        then err (invalid_bytecode "too short")
        else payload len (ltb (length (written json rest)) (10 + len))

-- A module of the current version, whose JSON form is shorter than 4 GiB and is read back as the
-- module, is read back from its binary form, also where other bytes follow.
pub from_bytes-to_bytes :
    (to_vec : Module → Result (List ℕ) String) (from_slice : List ℕ → Result Module String)
    (m : Module) (json rest : List ℕ)
    → to_vec m ≡ ok json
    → from_slice json ≡ ok m
    → m.version ≡ bytecode_version
    → length json < 2 ^ 32
    → (bytes : List ℕ) × (to_bytes to_vec m ≡ ok bytes)
      × (from_bytes from_slice (bytes ++ rest) ≡ ok m)
unfolding to_bytes
from_bytes-to_bytes to_vec from_slice m json rest e back version short = (
  written json [],
  ap (framed m) e
      ∙ ap (λ v. ok (magic ++ le_bytes_16 v ++ le_bytes_32 (length json % 2 ^ 32) ++ json)) version
      ∙ ap (λ n. ok (magic ++ le_bytes_16 1 ++ le_bytes_32 n ++ json)) (mod_32 (length json) short)
      ∙ ap (λ l. ok (magic ++ le_bytes_16 1 ++ le_bytes_32 (length json) ++ l))
          (sym (append-nil json)),
  ap
        (λ l.
          from_bytes from_slice
            (magic ++ le_bytes_16 1 ++ le_bytes_32 (length json) ++ (l ++ rest)))
        (append-nil json)
      ∙ from_bytes-written from_slice json rest short
      ∙ ap parsed back,
)
