-- ===== src/Audit/Examples.antt =====
-- The audit log at concrete inputs, over a toy digest that cuts its input to 64 bytes.
use boruna.Prelude.{
  ℕ, zero, suc, ◌≡◌, refl, ap, String, List, [], ◌∷◌, ◌++◌, none, some, Result, ok, err, arith,
  length, take, replicate, get_elem?, ◌⊎◌, map, ◌≤◌, All, sym,
}
use boruna.Audit.Json.{Json, object, member, end, string, blank_all_strings, blank_field}
use boruna.Audit.Entry.{
  Bytes, AuditEvent, step_started, approval_granted, AuditEntry, legacy_unsupported,
}
use boruna.Audit.Log.{
  Crypto, append, new_entry, verify, verify_from, redact_entry, hash, redact, placeholder, blank,
  blank_target, compute_entry_hash, content_hash, to_le_bytes, bytes_eq, check_content, binds,
}
use boruna.Audit.Append.{verify-append}
use boruna.Audit.Redact.{Keeps, redact_entry-Keeps}
use boruna.Audit.Tamper.{
  IsBroken, commitment, hash-eq_commitments, hash-eq_events, text, IsU64, IsLive,
}
use boruna.Audit.Built.{Built, new, appended, Built-verify, IsNumbered}

abbrev event_value : AuditEvent → Result Json String
event_value e =
    ok (object (member "ApprovalGranted" (object (member "approver" (string "ann") end)) end))

abbrev toy : Crypto
toy = record {
  sha256_hex = λ x. take 64 (x ++ replicate 64 b'a');
  to_string = λ e. some (b'{' ∷ b'}' ∷ []);
  to_value = event_value;
  from_value = λ j. ok (approval_granted "s" "[REDACTED]");
}

take_padded : (k m : ℕ) (x : Bytes) → k ≤ m → length (take k (x ++ replicate m b'a')) ≡ k
take_padded zero m x h = refl
take_padded (suc k) zero x h = absurd (omega arith)
take_padded (suc k) (suc m) [] h = ap suc (take_padded k m [] (omega arith))
take_padded (suc k) (suc m) (b ∷ x) h = ap suc (take_padded k (suc m) x (omega arith))

toy-length : (x : Bytes) → length (toy.sha256_hex x) ≡ 64
toy-length x = take_padded 64 64 x (omega arith)

abbrev start_step : AuditEvent
start_step = step_started "fetch" "00"

abbrev grant : AuditEvent
grant = approval_granted "s" "ann"

abbrev two_entries : List AuditEntry
two_entries = (append toy (append toy [] start_step).0 grant).0

abbrev two_entries-Built : Built toy two_entries
two_entries-Built = appended (appended new start_step) grant

Built-verify_example : (verify toy two_entries ≡ ok tt) × IsNumbered 0 two_entries
Built-verify_example = Built-verify toy toy-length two_entries-Built

two_entries-verify : verify toy two_entries ≡ ok tt
two_entries-verify = (Built-verify toy toy-length two_entries-Built).0

verify-append_example :
    (verify toy (append toy two_entries grant).0 ≡ ok tt)
    × ((append toy two_entries grant).1 ≡ hash (append toy two_entries grant).0)
verify-append_example = verify-append toy toy-length two_entries grant two_entries-verify

-- the second event with its approver blanked
abbrev after_redaction : List AuditEntry
after_redaction = elim (redact_entry toy two_entries 1 (some "approver") none) [
  | ok r ↦ r.0
  | err _ ↦ []
]

abbrev kept_commitment : Bytes
kept_commitment = (new_entry toy (append toy [] start_step).0 grant).content_sha256

redacts_second :
    redact_entry toy two_entries 1 (some "approver") none ≡ ok (after_redaction, kept_commitment)
unfolding redact_entry redact placeholder blank blank_target blank_field blank_all_strings append
    new_entry hash compute_entry_hash content_hash to_le_bytes
redacts_second = refl

redact_entry-Keeps_example : Keeps toy two_entries after_redaction 1 kept_commitment
redact_entry-Keeps_example =
    redact_entry-Keeps toy two_entries after_redaction 1 (some "approver") none kept_commitment
      two_entries-verify redacts_second

numbers_fit : All IsU64 two_entries × All IsU64 after_redaction
unfolding redact_entry redact placeholder blank blank_target blank_field blank_all_strings append
    new_entry hash compute_entry_hash content_hash to_le_bytes
numbers_fit = omega arith

redacted_verifies : verify toy after_redaction ≡ ok tt
redacted_verifies = redact_entry-Keeps_example.verifies

hash-eq_commitments_example :
    IsBroken toy ⊎ (map (commitment toy) two_entries ≡ map (commitment toy) after_redaction)
hash-eq_commitments_example =
    hash-eq_commitments toy toy-length two_entries after_redaction numbers_fit.0 numbers_fit.1
      two_entries-verify redacted_verifies (sym redact_entry-Keeps_example.same_hash)

abbrev first_entry : AuditEntry
first_entry = new_entry toy [] start_step

firsts :
    (get_elem? two_entries 0 ≡ some first_entry)
    × (get_elem? after_redaction 0 ≡ some first_entry)
    × IsLive first_entry
unfolding redact_entry redact placeholder blank blank_target blank_field blank_all_strings append
    new_entry hash compute_entry_hash content_hash to_le_bytes
firsts = (refl, refl, record { commits = λ e. cc; unredacted = refl })

hash-eq_events_example : IsBroken toy ⊎ (text toy first_entry ≡ text toy first_entry)
hash-eq_events_example =
    hash-eq_events toy toy-length two_entries after_redaction 0 first_entry first_entry
      numbers_fit.0 numbers_fit.1 two_entries-verify redacted_verifies
      (sym redact_entry-Keeps_example.same_hash) firsts.0 firsts.1 firsts.2 firsts.2

-- A one-entry log whose hash was altered is refused, with the number of the bad entry.
altered_refused : verify toy ((record first_entry { entry_hash = b'0' ∷ [] }) ∷ []) ≡ err 0
unfolding verify verify_from check_content bytes_eq new_entry hash compute_entry_hash content_hash
    to_le_bytes binds
altered_refused = refl

-- A legacy entry is not redacted.
legacy_refused :
    redact_entry toy ((record first_entry { content_sha256 = [] }) ∷ []) 0 none none
    ≡ err legacy_unsupported
unfolding redact_entry redact new_entry
legacy_refused = refl

abbrev denial : Json
denial = object (member "ApprovalDenied" (object (member "reason" (string "too late") end)) end)
