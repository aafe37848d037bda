-- ===== src/Audit/Log.antt =====
-- orchestrator/src/audit/log.rs: the operations of `AuditLog`, a log being the list of its
-- entries. SHA-256 and `serde_json` are parameters.
use mathlib.Core.Option
use boruna.Prelude.{
  ℕ, zero, suc, ◌%◌, ◌/◌, String, Bool, true, false, List, [], ◌∷◌, ◌++◌, Option, none, some,
  Result, ok, err, length, get_elem?, set, replicate, last, push, unwrap_or, keep, map, is_none,
  not, ◌==◌, ◌&&◌,
}
use boruna.Audit.Json.{Json, object, member, blank_all_strings, blank_field}
use boruna.Audit.Entry.{
  Bytes, AuditEvent, Redaction, AuditEntry, RedactError, out_of_range, legacy_unsupported,
  already_redacted, field_not_found, serde,
}

-- What the log takes from the crates `sha2` and `serde_json`: the digest in lower-case hex, and
-- the conversions between an event, its JSON text and its JSON value.
pub record Crypto : Type 0 where
  pub sha256_hex : Bytes → Bytes
  pub to_string : AuditEvent → Option Bytes
  pub to_value : AuditEvent → Result Json String
  pub from_value : Json → Result AuditEvent String

-- `==` of two texts
unfoldable pub bytes_eq : Bytes → Bytes → Bool
bytes_eq [] [] = true
bytes_eq (a ∷ s) (b ∷ t) = a == b && bytes_eq s t
bytes_eq _ _ = false

-- `u64::to_le_bytes` at `k` bytes
unfoldable pub to_le_bytes : ℕ → ℕ → Bytes
to_le_bytes zero n = []
to_le_bytes (suc k) n = (n % 256) ∷ to_le_bytes k (n / 256)

-- `"0".repeat(64)`
abbrev pub genesis : Bytes
genesis = replicate 64 b'0'

abbrev pub hash_of : Option AuditEntry → Bytes
hash_of none = genesis
hash_of (some e) = e.entry_hash

unfoldable pub hash : List AuditEntry → Bytes
hash entries = hash_of (last entries)

unfoldable pub redacted_sequences : List AuditEntry → List ℕ
redacted_sequences entries = map (λ e. e.sequence) (keep (λ e. not (is_none e.redacted)) entries)

module _ (c : Crypto) where
  open c use {sha256_hex, to_string, to_value, from_value}

  unfoldable pub content_hash : AuditEvent → Bytes
  content_hash event = sha256_hex (unwrap_or [] (to_string event))

  unfoldable pub compute_entry_hash : ℕ → Bytes → Bytes → Bytes
  compute_entry_hash sequence prev_hash content =
      sha256_hex (to_le_bytes 8 sequence ++ (prev_hash ++ content))

  unfoldable pub compute_hash_legacy : ℕ → Bytes → AuditEvent → Bytes
  compute_hash_legacy sequence prev_hash event =
      sha256_hex (to_le_bytes 8 sequence ++ (prev_hash ++ unwrap_or [] (to_string event)))

  -- the entry that `append` pushes
  unfoldable pub new_entry : List AuditEntry → AuditEvent → AuditEntry
  unfolding hash
  new_entry entries event =
      let content = content_hash event in
      record {
        sequence = length entries;
        prev_hash = hash entries;
        content_sha256 = content;
        event = event;
        redacted = none;
        entry_hash = compute_entry_hash (length entries) (hash entries) content;
      }

  unfoldable pub append : List AuditEntry → AuditEvent → List AuditEntry × Bytes
  append entries event =
      let entry = new_entry entries event in (push entries entry, entry.entry_hash)

  -- the test of the event or of its redaction marker against the commitment
  unfoldable pub binds : Option Redaction → AuditEntry → Bool
  binds (some r) entry = bytes_eq r.content_sha256 entry.content_sha256
  binds none entry = bytes_eq (content_hash entry.event) entry.content_sha256

  -- the tests of one entry after that of `prev_hash`; the first argument is its `content_sha256`
  unfoldable pub check_content : Bytes → AuditEntry → Bool
  check_content [] e = bytes_eq (compute_hash_legacy e.sequence e.prev_hash e.event) e.entry_hash
  check_content (b ∷ bs) e =
      elim (bytes_eq (compute_entry_hash e.sequence e.prev_hash e.content_sha256) e.entry_hash) [
        | true ↦ binds e.redacted e
        | false ↦ false
      ]

  -- the loop of `verify`
  unfoldable pub verify_from : Bytes → List AuditEntry → Result (Unit {0}) ℕ
  verify_from expected_prev [] = ok tt
  verify_from expected_prev (e ∷ rest) = elim (bytes_eq e.prev_hash expected_prev) [
    | false ↦ err e.sequence
    | true ↦ elim (check_content e.content_sha256 e) [
      | false ↦ err e.sequence
      | true ↦ verify_from e.entry_hash rest
    ]
  ]

  unfoldable pub verify : List AuditEntry → Result (Unit {0}) ℕ
  verify entries = verify_from genesis entries

  unfoldable pub from_entries_verified : List AuditEntry → Result (List AuditEntry) ℕ
  from_entries_verified entries = elim (verify entries) [ ok _ ↦ ok entries | err n ↦ err n ]

  -- The event is `{"Variant": {fields...}}`: the target is a field of the inner object.
  unfoldable pub blank_target : String → Json → Option Json
  blank_target name (object (member tag (object fields) more)) =
      Option.map (λ blanked. object (member tag (object blanked) more)) (blank_field name fields)
  blank_target name value = none

  unfoldable pub blank : Option String → Json → Result Json RedactError
  blank none value = ok (blank_all_strings value)
  blank (some name) value = elim (blank_target name value) [
    | none ↦ err (field_not_found name)
    | some v ↦ ok v
  ]

  -- the placeholder that replaces the event
  unfoldable pub placeholder : Option String → AuditEvent → Result AuditEvent RedactError
  placeholder field event = elim (to_value event) [
    | err e ↦ err (serde e)
    | ok value ↦ elim (blank field value) [
      | err e ↦ err e
      | ok blanked ↦ elim (from_value blanked) [ err e ↦ err (serde e) | ok v ↦ ok v ]
    ]
  ]

  abbrev pub redacted_with : AuditEntry → AuditEvent → Option String → AuditEntry
  redacted_with e event reason = record e {
    event = event;
    redacted = some (record { content_sha256 = e.content_sha256; reason = reason });
  }

  -- the guards and the change of one entry; the first two arguments are the fields it tests
  unfoldable pub redact :
      Bytes
      → Option Redaction
      → AuditEntry
      → ℕ
      → Option String
      → Option String
      → Result AuditEntry RedactError
  redact [] r e index field reason = err legacy_unsupported
  redact (b ∷ bs) (some r) e index field reason = err (already_redacted index)
  redact (b ∷ bs) none e index field reason = elim (placeholder field e.event) [
    | err x ↦ err x
    | ok event ↦ ok (redacted_with e event reason)
  ]

  -- the new entries and the commitment that is returned
  unfoldable pub redact_entry :
      List AuditEntry
      → ℕ
      → Option String
      → Option String
      → Result (List AuditEntry × Bytes) RedactError
  redact_entry entries index field reason = elim (get_elem? entries index) [
    | none ↦ err (out_of_range index)
    | some e ↦ elim (redact e.content_sha256 e.redacted e index field reason) [
      | err x ↦ err x
      | ok e' ↦ ok (set entries index e', e.content_sha256)
    ]
  ]
