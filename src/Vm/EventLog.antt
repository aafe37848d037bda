-- ===== src/Vm/EventLog.antt =====
-- crates/llmvm/src/replay.rs: `Event` and `EventLog`. `serde_json` is a parameter of `from_json`.
use boruna.Prelude.{
  ℕ, String, Bool, List, [], ◌∷◌, Option, none, some, Result, ok, err, push, ltb, if◌then◌else◌,
}
use boruna.Bytecode.Capability.{Capability, name}
use boruna.Bytecode.Value.{Value}

-- crates/llmbc/src/opcode.rs: `ContractKind`
pub data ContractKind : Type 0 where
  requires ensures : ContractKind

unfoldable pub as_str : ContractKind → String
as_str requires = "requires"
as_str ensures = "ensures"

pub data Event : Type 0 where
  cap_call : String → List Value → Event
  cap_result : String → Value → Event
  actor_spawn : ℕ → String → Event
  message_send : ℕ → ℕ → Value → Event
  message_receive : ℕ → Value → Event
  ui_emit : Value → Event
  scheduler_tick : ℕ → ℕ → Event
  contract_check : String → String → ℕ → Bool → Event

pub record EventLog : Type 0 where
  pub version : ℕ
  pub events : List Event

abbrev pub event_log_version : ℕ
event_log_version = 2

abbrev pub max_supported_version : ℕ
max_supported_version = 2

abbrev pub new : EventLog
new = record { version = event_log_version; events = [] }

abbrev pub log_event : Event → EventLog → EventLog
log_event e log = record log { events = push log.events e }

abbrev pub log_cap_call : Capability → List Value → EventLog → EventLog
log_cap_call c args log = log_event (cap_call (name c) args) log

abbrev pub log_cap_result : Capability → Value → EventLog → EventLog
log_cap_result c result log = log_event (cap_result (name c) result) log

abbrev pub log_actor_spawn : ℕ → String → EventLog → EventLog
log_actor_spawn actor_id function log = log_event (actor_spawn actor_id function) log

abbrev pub log_message_send : ℕ → ℕ → Value → EventLog → EventLog
log_message_send from to payload log = log_event (message_send from to payload) log

abbrev pub log_ui_emit : Value → EventLog → EventLog
log_ui_emit tree log = log_event (ui_emit tree) log

abbrev pub log_message_receive : ℕ → Value → EventLog → EventLog
log_message_receive actor_id payload log = log_event (message_receive actor_id payload) log

abbrev pub log_scheduler_tick : ℕ → ℕ → EventLog → EventLog
log_scheduler_tick round active_actor log = log_event (scheduler_tick round active_actor) log

abbrev pub log_contract_check : String → ContractKind → ℕ → Bool → EventLog → EventLog
log_contract_check function kind index passed log =
    log_event (contract_check function (as_str kind) index passed) log

abbrev pub log_output_check : String → Bool → EventLog → EventLog
log_output_check label passed log = log_event (contract_check label "output" 0 passed) log

-- The third-party parser gives the log or a message; `message` is the text of the refusal.
unfoldable pub from_json :
    (String → Result EventLog String) → (ℕ → String) → String → Result EventLog String
from_json parse message json = elim (parse json) [
  | err e ↦ err e
  | ok log ↦ if ltb max_supported_version log.version then err (message log.version) else ok log
]

abbrev pub result_of : Event → Option Value
result_of (cap_result _ result) = some result
result_of _ = none

unfoldable pub results_in : List Event → List Value
results_in [] = []
results_in (cap_result _ result ∷ rest) = result ∷ results_in rest
results_in (_ ∷ rest) = results_in rest

unfoldable pub capability_results : EventLog → List Value
capability_results log = results_in log.events
