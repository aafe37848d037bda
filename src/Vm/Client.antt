-- ===== src/Vm/Client.antt =====
-- A deterministic client of the gateway, such as the interpreter loop of crates/llmvm/src/vm.rs: it
-- asks for a call, goes on with the result, and ends at the first error of a call (the `?` of
-- `self.gateway.call(..)?`) in the state that stands beside the call. Between the calls it may log
-- user interface trees and contract checks.
use boruna.Prelude.{ℕ, String, Bool, List, Result, ok, err}
use boruna.Bytecode.Capability.{Capability}
use boruna.Bytecode.Value.{Value}
use boruna.Vm.EventLog.{EventLog, Event, ui_emit, contract_check, log_event}
use boruna.Vm.Error.{VmError}
use boruna.Vm.Gateway.{Handler, Gateway, call}

pub data Note : Type 0 where
  emitted : Value → Note
  checked : String → String → ℕ → Bool → Note

abbrev pub event_of : Note → Event
event_of (emitted tree) = ui_emit tree
event_of (checked function kind index passed) = contract_check function kind index passed

pub data Client (A : Type 0) (E : Type 0) : Type 0 where
  finish : A → Client A E
  ask : Capability → List Value → E → (Value → Client A E) → Client A E
  note : Note → Client A E → Client A E

-- what a run leaves: its result, or the error of a call and the state at that call
abbrev pub Outcome : Type 0 → Type 0 → Type 0 → Type 0
Outcome A E S = Result A (VmError × E) × Gateway S × EventLog

module _ {A E S : Type 0} where
  -- how the outcome of a call is taken
  abbrev pub proceed :
      E
      → Result Value VmError × Gateway S × EventLog
      → (Value → Gateway S → EventLog → Outcome A E S)
      → Outcome A E S
  proceed s (ok v, g, log) next = next v g log
  proceed s (err e, g, log) next = (err (e, s), g, log)

module _ {A E S : Type 0} (handle : Handler S) where
  unfoldable pub run : Client A E → Gateway S → EventLog → Outcome A E S
  run (finish v) g log = (ok v, g, log)
  run (ask c args s next) g log =
      proceed s (call handle g c args log) (λ v g' log'. run (next v) g' log')
  run (note n next) g log = run next g (log_event (event_of n) log)
