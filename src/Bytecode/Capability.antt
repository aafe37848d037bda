-- ===== src/Bytecode/Capability.antt =====
-- crates/llmbc/src/capability.rs
use Prim.Native.String
use boruna.Prelude.{
  ℕ, String, List, [], ◌∷◌, Option, none, some, str_eq, ◌==◌, ◌||◌, if◌then◌else◌, map,
}

pub data Capability : Type 0 where
  net_fetch fs_read fs_write db_query ui_render time_now random llm_call actor_spawn : Capability
  actor_send step_input : Capability

unfoldable pub from_id : ℕ → Option Capability
from_id id =
    if id == 0
    then some net_fetch
    else if id == 1
    then some fs_read
    else if id == 2
    then some fs_write
    else if id == 3
    then some db_query
    else if id == 4
    then some ui_render
    else if id == 5
    then some time_now
    else if id == 6
    then some random
    else if id == 7
    then some llm_call
    else if id == 8
    then some actor_spawn
    else if id == 9
    then some actor_send
    else if id == 10
    then some step_input
    else none

unfoldable pub id : Capability → ℕ
id net_fetch = 0
id fs_read = 1
id fs_write = 2
id db_query = 3
id ui_render = 4
id time_now = 5
id random = 6
id llm_call = 7
id actor_spawn = 8
id actor_send = 9
id step_input = 10

unfoldable pub name : Capability → String
name net_fetch = "net.fetch"
name fs_read = "fs.read"
name fs_write = "fs.write"
name db_query = "db.query"
name ui_render = "ui.render"
name time_now = "time.now"
name random = "random"
name llm_call = "llm.call"
name actor_spawn = "actor.spawn"
name actor_send = "actor.send"
name step_input = "step.input"

unfoldable pub from_name : String → Option Capability
from_name s =
    if str_eq s "net.fetch" || str_eq s "net"
    then some net_fetch
    else if str_eq s "fs.read"
    then some fs_read
    else if str_eq s "fs.write"
    then some fs_write
    else if str_eq s "db.query" || str_eq s "db"
    then some db_query
    else if str_eq s "ui.render" || str_eq s "ui"
    then some ui_render
    else if str_eq s "time.now" || str_eq s "time"
    then some time_now
    else if str_eq s "random"
    then some random
    else if str_eq s "llm.call" || str_eq s "llm"
    then some llm_call
    else if str_eq s "actor.spawn" || str_eq s "actor_spawn"
    then some actor_spawn
    else if str_eq s "actor.send" || str_eq s "actor_send"
    then some actor_send
    else if str_eq s "step.input" || str_eq s "step_input"
    then some step_input
    else none

unfoldable pub version : Capability → String
version c = "1"

-- `Capability::ALL`
abbrev pub all_capabilities : List Capability
all_capabilities =
    actor_send ∷ actor_spawn ∷ db_query ∷ fs_read ∷ fs_write ∷ llm_call ∷ net_fetch ∷ random
    ∷ step_input ∷ time_now ∷ ui_render ∷ []

pub record CapabilityIdentity : Type 0 where
  pub name : String
  pub version : String

pub record CapabilitySetReport : Type 0 where
  pub protocol_version : ℕ
  pub name : String
  pub version : String
  pub capabilities : List CapabilityIdentity
  pub capability_set_hash : String

abbrev pub capability_report_protocol_version : ℕ
capability_report_protocol_version = 1

-- the text that the hasher is fed, entry by entry
unfoldable pub hash_input : List CapabilityIdentity → String
hash_input [] = ""
hash_input (c ∷ rest) =
    String.◌++◌ c.name
      (String.◌++◌ "\t" (String.◌++◌ c.version (String.◌++◌ "\n" (hash_input rest))))

-- the identities of all capabilities, in the order of `Capability::ALL`
unfoldable pub identities : List CapabilityIdentity
identities = map (λ c. record { name = name c; version = version c }) all_capabilities

-- SHA-256 of a text, in lower-case hex, is a parameter.
module _ (sha256_hex : String → String) where
  unfoldable pub compute_capability_set_hash : List CapabilityIdentity → String
  unfolding hash_input
  compute_capability_set_hash entries = String.◌++◌ "sha256:" (sha256_hex (hash_input entries))

  unfoldable pub capability_set_report : String → String → CapabilitySetReport
  capability_set_report binary_name binary_version = record {
    protocol_version = capability_report_protocol_version;
    name = binary_name;
    version = binary_version;
    capabilities = identities;
    capability_set_hash = compute_capability_set_hash identities;
  }
