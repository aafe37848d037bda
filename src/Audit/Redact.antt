-- ===== src/Audit/Redact.antt =====
-- orchestrator/src/audit/log.rs: what `redact_entry` and `blank_all_strings` change and keep.
use mathlib.Core.Path.{subst}
use boruna.Prelude.{
  ℕ, zero, suc, ◌≡◌, refl, sym, ap, ◌∙◌, String, true, List, [], ◌∷◌, Option, none, some, Result,
  ok, err, arith, get_elem?, set, Option-cases, inl, inr,
}
use boruna.Audit.Json.{
  Json, Items, Members, null, bool, number, string, array, object, nil, cons, end, member,
  blank_all_strings, blank_items, blank_members, redaction_sentinel,
}
use boruna.Audit.Entry.{Bytes, AuditEvent, AuditEntry, Redaction, RedactError}
use boruna.Audit.Log.{
  Crypto, genesis, hash, check_content, binds, verify, redact, redact_entry, redacted_with,
  placeholder,
}
use boruna.Audit.Append.{
  bytes_eq_iff, check_content_at, Valid, Valid-cons, Valid-split, end_hash, hash-end_hash,
}

-- Two entries that the chain cannot tell apart.
pub record SameCommitment (e f : AuditEntry) : Type 0 where
  pub sequence : e.sequence ≡ f.sequence
  pub prev_hash : e.prev_hash ≡ f.prev_hash
  pub content : e.content_sha256 ≡ f.content_sha256
  pub entry_hash : e.entry_hash ≡ f.entry_hash

-- every string leaf is the sentinel
abbrev mutual
  pub IsBlank : Json → Type 0
  IsBlank null = Unit
  IsBlank (bool b) = Unit
  IsBlank (number n) = Unit
  IsBlank (string s) = s ≡ redaction_sentinel
  IsBlank (array a) = AreBlank a
  IsBlank (object o) = HasBlanks o

  pub AreBlank : Items → Type 0
  AreBlank nil = Unit
  AreBlank (cons x r) = IsBlank x × AreBlank r

  pub HasBlanks : Members → Type 0
  HasBlanks end = Unit
  HasBlanks (member k x r) = IsBlank x × HasBlanks r

mutual
  unfolding blank_all_strings

  IsBlank-json : (j : Json) → IsBlank (blank_all_strings j)
  IsBlank-json null = tt
  IsBlank-json (bool b) = tt
  IsBlank-json (number n) = tt
  IsBlank-json (string s) = refl
  IsBlank-json (array a) = AreBlank-items a
  IsBlank-json (object o) = HasBlanks-members o

  AreBlank-items : (a : Items) → AreBlank (blank_items a)
  AreBlank-items nil = tt
  AreBlank-items (cons x r) = (IsBlank-json x, AreBlank-items r)

  HasBlanks-members : (o : Members) → HasBlanks (blank_members o)
  HasBlanks-members end = tt
  HasBlanks-members (member k x r) = (IsBlank-json x, HasBlanks-members r)

mutual
  unfolding blank_all_strings

  blank-IsBlank : (j : Json) → IsBlank j → blank_all_strings j ≡ j
  blank-IsBlank null h = refl
  blank-IsBlank (bool b) h = refl
  blank-IsBlank (number n) h = refl
  blank-IsBlank (string s) h = cc
  blank-IsBlank (array a) h = ap array (blank-AreBlank a h)
  blank-IsBlank (object o) h = ap object (blank-HasBlanks o h)

  blank-AreBlank : (a : Items) → AreBlank a → blank_items a ≡ a
  blank-AreBlank nil h = refl
  blank-AreBlank (cons x r) h = cc (blank-IsBlank x h.0, blank-AreBlank r h.1)

  blank-HasBlanks : (o : Members) → HasBlanks o → blank_members o ≡ o
  blank-HasBlanks end h = refl
  blank-HasBlanks (member k x r) h = cc (blank-IsBlank x h.0, blank-HasBlanks r h.1)

-- After `blank_all_strings` every string leaf is the sentinel, and a value in which every string
-- leaf is the sentinel is left as it is.
blank_all_strings_lem :
    (j : Json) → IsBlank (blank_all_strings j) × (IsBlank j → blank_all_strings j ≡ j)
blank_all_strings_lem j = (IsBlank-json j, blank-IsBlank j)

module _ (c : Crypto) where
  check_content-redacted_with :
      (b : ℕ) (bs : Bytes) (e : AuditEntry) (event : AuditEvent) (reason : Option String)
      → check_content c (b ∷ bs) e ≡ true
      → check_content c (b ∷ bs) (redacted_with c e event reason) ≡ true
  unfolding check_content binds
  check_content-redacted_with b bs e event reason v =
      ground (arith, bytes_eq_iff e.content_sha256 e.content_sha256)

  -- The change of one entry keeps what the chain commits to, and its tests still pass.
  redact-SameCommitment :
      (content : Bytes) (r : Option Redaction) (e f : AuditEntry) (i : ℕ)
      (field reason : Option String)
      → e.content_sha256 ≡ content
      → redact c content r e i field reason ≡ ok f
      → check_content c content e ≡ true
      → SameCommitment e f × (check_content c f.content_sha256 f ≡ true)
  unfolding redact
  redact-SameCommitment [] r e f i field reason p h v = cc
  redact-SameCommitment (b ∷ bs) (some r) e f i field reason p h v = cc
  redact-SameCommitment (b ∷ bs) none e f i field reason p h v = go (placeholder c field e.event) h
    where
      go :
          (o : Result AuditEvent RedactError)
          → (elim o as (λ _. Result AuditEntry RedactError) [
            | ok event ↦ ok (redacted_with c e event reason)
            | err x ↦ err x
          ])
            ≡ ok f
          → SameCommitment e f × (check_content c f.content_sha256 f ≡ true)
      go (err x) q = cc
      go (ok event) q =
          let g = redacted_with c e event reason in
          let is : g ≡ f = cc in
          subst (λ y. SameCommitment e y × (check_content c y.content_sha256 y ≡ true)) is
            (
              record { sequence = refl; prev_hash = refl; content = refl; entry_hash = refl },
              subst (λ t. check_content c t g ≡ true) (sym p)
                  (check_content-redacted_with b bs e event reason v),
            )

  Valid-set :
      (prev : Bytes) (entries : List AuditEntry) (i : ℕ) (e f : AuditEntry)
      → get_elem? entries i ≡ some e
      → SameCommitment e f
      → check_content c f.content_sha256 f ≡ true
      → Valid c prev entries
      → Valid c prev (set entries i f) × (end_hash prev (set entries i f) ≡ end_hash prev entries)
  Valid-set prev [] i e f g s t v = cc
  Valid-set prev (x ∷ r) zero e f g s t v =
      let (same, checked, later) = Valid-split c prev x r v in
      let x_is : x ≡ e = cc in
      let hashes : f.entry_hash ≡ x.entry_hash = rw x_is (sym s.entry_hash) in
      (
        Valid-cons c prev f r
            (sym s.prev_hash ∙ (ap (λ (y : AuditEntry). y.prev_hash) (sym x_is) ∙ same)) t
            (rw hashes later),
        rw hashes,
      )
  Valid-set prev (x ∷ r) (suc i) e f g s t v =
      let (same, checked, later) = Valid-split c prev x r v in
      let (valid, ends) = Valid-set x.entry_hash r i e f g s t later in
      (Valid-cons c prev x (set r i f) same checked valid, ends)

  -- What a redaction that succeeds keeps of the log and of the entry.
  pub record Keeps (entries after : List AuditEntry) (i : ℕ) (commitment : Bytes) : Type 0 where
    pub verifies : verify c after ≡ ok tt
    pub same_hash : hash after ≡ hash entries
    pub changed :
        (e : AuditEntry) × (f : AuditEntry) × (get_elem? entries i ≡ some e)
        × (after ≡ set entries i f)
        × SameCommitment e f
        × (e.content_sha256 ≡ commitment)

  Keeps-of :
      (entries : List AuditEntry) (i : ℕ) (e f : AuditEntry)
      → get_elem? entries i ≡ some e
      → SameCommitment e f × (check_content c f.content_sha256 f ≡ true)
      → verify c entries ≡ ok tt
      → Keeps entries (set entries i f) i e.content_sha256
  unfolding verify
  Keeps-of entries i e f g s v =
      let (valid, ends) = Valid-set genesis entries i e f g s.0 s.1 v in
      record {
        verifies = valid;
        same_hash = hash-end_hash (set entries i f) ∙ (ends ∙ sym (hash-end_hash entries));
        changed = (e, f, g, refl, s.0, refl);
      }

  -- A redaction that succeeds on a log that verifies gives a log that verifies, with the same
  -- hash; it changes only the entry at the index, and keeps what the chain commits to there.
  pub redact_entry-Keeps :
      (entries after : List AuditEntry) (i : ℕ) (field reason : Option String) (commitment : Bytes)
      → verify c entries ≡ ok tt
      → redact_entry c entries i field reason ≡ ok (after, commitment)
      → Keeps entries after i commitment
  unfolding redact_entry verify
  redact_entry-Keeps entries after i field reason commitment v h =
      elim (Option-cases (get_elem? entries i)) [
        | inl e ↦ absurd (ground arith)
        | inr (e, found) ↦
            go e found (redact c e.content_sha256 e.redacted e i field reason) refl
              (rw (found, redact_entry) at h)
      ]
    where
      go :
          (e : AuditEntry) (found : get_elem? entries i ≡ some e)
          (o : Result AuditEntry RedactError)
          → redact c e.content_sha256 e.redacted e i field reason ≡ o
          → (elim o as (λ _. Result (List AuditEntry × Bytes) RedactError) [
            | err x ↦ err x
            | ok e' ↦ ok (set entries i e', e.content_sha256)
          ])
            ≡ ok (after, commitment)
          → Keeps entries after i commitment
      go e found (err x) is q = cc
      go e found (ok f) is q =
          let same : (set entries i f ≡ after) × (e.content_sha256 ≡ commitment) = ground arith in
          subst (λ a. Keeps entries a i commitment) same.0
            (subst (λ b. Keeps entries (set entries i f) i b) same.1
              (Keeps-of entries i e f found
                (redact-SameCommitment e.content_sha256 e.redacted e f i field reason refl is
                  (check_content_at c genesis entries i e found v))
                v))
