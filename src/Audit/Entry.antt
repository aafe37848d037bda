-- ===== src/Audit/Entry.antt =====
-- The data of orchestrator/src/audit/log.rs. A text that enters a hash is the list of its bytes.
use boruna.Prelude.{ℕ, String, Bool, List, Option}

abbrev pub Bytes : Type 0
Bytes = List ℕ

pub data AuditEvent : Type 0 where
  workflow_started : String → String → AuditEvent
  step_started : String → String → AuditEvent
  step_completed : String → String → ℕ → AuditEvent
  step_failed : String → String → AuditEvent
  capability_invoked : String → String → Bool → AuditEvent
  policy_evaluated : String → String → String → AuditEvent
  budget_consumed : String → ℕ → ℕ → AuditEvent
  approval_requested : String → String → AuditEvent
  approval_granted : String → String → AuditEvent
  approval_denied : String → String → AuditEvent
  external_trigger_received : String → String → AuditEvent
  workflow_completed : String → ℕ → AuditEvent

pub record Redaction : Type 0 where
  pub content_sha256 : Bytes
  pub reason : Option String

pub record AuditEntry : Type 0 where
  pub sequence : ℕ
  pub prev_hash : Bytes
  pub content_sha256 : Bytes
  pub event : AuditEvent
  pub redacted : Option Redaction
  pub entry_hash : Bytes

pub data RedactError : Type 0 where
  out_of_range : ℕ → RedactError
  legacy_unsupported : RedactError
  already_redacted : ℕ → RedactError
  field_not_found : String → RedactError
  serde : String → RedactError
