-- ===== src/Audit/Built.antt =====
-- orchestrator/src/audit/log.rs: the logs that a run can build, by appends and redactions.
use boruna.Prelude.{
  ℕ, zero, suc, ◌+◌, ◌≡◌, refl, sym, ◌∙◌, ap, String, List, [], ◌∷◌, Option, some, ok, arith,
  length, get_elem?, set, push,
}
use boruna.Audit.Entry.{Bytes, AuditEvent, AuditEntry}
use boruna.Audit.Log.{Crypto, append, new_entry, redact_entry, verify, verify_from}
use boruna.Audit.Append.{verify-append}
use boruna.Audit.Redact.{redact_entry-Keeps}

-- entries are numbered from `k` on
abbrev pub IsNumbered : ℕ → List AuditEntry → Type 0
IsNumbered k [] = Unit
IsNumbered k (e ∷ rest) = (e.sequence ≡ k) × IsNumbered (suc k) rest

IsNumbered-push :
    (k : ℕ) (entries : List AuditEntry) (e : AuditEntry)
    → IsNumbered k entries
    → e.sequence ≡ k + length entries
    → IsNumbered k (push entries e)
IsNumbered-push k [] e n p = (omega arith, tt)
IsNumbered-push k (x ∷ r) e n p = (n.0, IsNumbered-push (suc k) r e n.1 (omega arith))

IsNumbered-set :
    (k : ℕ) (entries : List AuditEntry) (i : ℕ) (e f : AuditEntry)
    → get_elem? entries i ≡ some e
    → e.sequence ≡ f.sequence
    → IsNumbered k entries
    → IsNumbered k (set entries i f)
IsNumbered-set k [] i e f g s n = tt
IsNumbered-set k (x ∷ r) zero e f g s n =
    let is : x ≡ e = cc in (sym s ∙ (ap (λ (y : AuditEntry). y.sequence) (sym is) ∙ n.0), n.1)
IsNumbered-set k (x ∷ r) (suc i) e f g s n = (n.0, IsNumbered-set (suc k) r i e f g s n.1)

module _ (c : Crypto) where
  -- the logs that `new`, `append` and `redact_entry` lead to
  pub data Built : List AuditEntry → Type 0 where
    new : Built []
    appended :
        {entries : List AuditEntry}
        → Built entries
        → (event : AuditEvent) → Built (append c entries event).0
    redacted :
        {entries after : List AuditEntry}
        → Built entries
        → (i : ℕ) (field reason : Option String) (commitment : Bytes)
        → redact_entry c entries i field reason ≡ ok (after, commitment)
        → Built after

  IsNumbered-append :
      (entries : List AuditEntry) (event : AuditEvent)
      → IsNumbered 0 entries
      → IsNumbered 0 (append c entries event).0
  unfolding append new_entry
  IsNumbered-append entries event n = IsNumbered-push 0 entries _ n (omega arith)

  -- Given a digest of 64 characters: every log that appends and redactions build from the empty
  -- log verifies, and its entries are numbered from 0.
  pub Built-verify :
      (digest_length : (x : Bytes) → length (c.sha256_hex x) ≡ 64) {entries : List AuditEntry}
      → Built entries
      → (verify c entries ≡ ok tt) × IsNumbered 0 entries
  Built-verify d new = ((unfold verify verify_from in refl), tt)
  Built-verify d (appended {entries} b event) =
      let (v, n) = Built-verify d b in
      ((verify-append c d entries event v).0, IsNumbered-append entries event n)
  Built-verify d (redacted {entries} {after} b i field reason commitment h) =
      let (v, n) = Built-verify d b in
      let k = redact_entry-Keeps c entries after i field reason commitment v h in
      let (e, f, found, is, same, _) = k.changed in
      (k.verifies, rw is (IsNumbered-set 0 entries i e f found same.sequence n))
