-- ===== src/Bytecode/Identifiers.antt =====
-- crates/llmbc/src/capability.rs: identifiers, names and the report agree.
use Prim.Native.Nat.{Ordering}
use Prim.Native.String.{compare}
use boruna.Prelude.{
  ℕ, String, ◌≡◌, refl, ◌↔◌, ap, sym, ◌∙◌, List, [], ◌∷◌, some, some, arith, keep, str_eq, map,
}
use boruna.Bytecode.Capability.{
  Capability, from_id, id, name, from_name, CapabilityIdentity, identities, capability_set_report,
  net_fetch, version,
}

from_id-id : (c : Capability) → from_id (id c) ≡ some c
unfolding from_id id
from_id-id net_fetch = refl
from_id-id _ = refl

id_of_from_id : (n : ℕ) (c : Capability) → from_id n ≡ some c → id c ≡ n
unfolding from_id id
id_of_from_id n c h = ground arith

-- A number is read as a capability exactly if it is that capability's identifier.
from_id_iff : (n : ℕ) (c : Capability) → (from_id n ≡ some c) ↔ (id c ≡ n)
from_id_iff n c = (id_of_from_id n c, λ e. ap from_id (sym e) ∙ from_id-id c)

-- The name of a capability is read back as that capability, and it is the name of one entry of the
-- report, whose version is that of the capability.
from_name-name :
    (c : Capability)
    → (from_name (name c) ≡ some c)
      × (keep (λ (i : CapabilityIdentity). str_eq i.name (name c)) identities
          ≡ record { name = name c; version = version c } ∷ [])
unfolding from_name name identities
from_name-name net_fetch = (refl, refl)
from_name-name _ = (refl, refl)

abbrev pub IsAscending : List String → Type 0
IsAscending [] = Unit
IsAscending (a ∷ []) = Unit
IsAscending (a ∷ b ∷ rest) = (compare a b ≡ Ordering.lt) × IsAscending (b ∷ rest)

-- The report lists capabilities in ascending order of their names, and two binaries of any names and
-- versions report the same capability set hash.
capability_set_report_lem :
    (sha256_hex : String → String) (binary_name binary_version other_name other_version : String)
    → let r = capability_set_report sha256_hex binary_name binary_version in
      IsAscending (map (λ (i : CapabilityIdentity). i.name) r.capabilities)
      × (r.capability_set_hash
          ≡ (capability_set_report sha256_hex other_name other_version).capability_set_hash)
unfolding capability_set_report identities name
capability_set_report_lem sha256_hex binary_name binary_version other_name other_version =
    ((refl, (refl, (refl, (refl, (refl, (refl, (refl, (refl, (refl, (refl, tt)))))))))), refl)
