-- ===== src/Audit/Append.antt =====
-- orchestrator/src/audit/log.rs: what `verify` accepts, and that `append` keeps it.
use mathlib.Core.Path.{subst}
use boruna.Prelude.{
  ◌≡◌, refl, ◌↔◌, true, List, [], ◌∷◌, ok, arith, length, unwrap_or, push, last-push, get_elem?,
  some, zero, suc, ℕ,
}
use boruna.Audit.Entry.{Bytes, AuditEvent, AuditEntry}
use boruna.Audit.Log.{
  Crypto, bytes_eq, genesis, hash, append, new_entry, check_content, binds, verify_from, verify,
  content_hash,
}

pub bytes_eq_iff : (a b : Bytes) → (bytes_eq a b ≡ true) ↔ (a ≡ b)
unfolding bytes_eq
bytes_eq_iff [] [] = ground arith
bytes_eq_iff [] (b ∷ t) = ground arith
bytes_eq_iff (a ∷ s) [] = ground arith
bytes_eq_iff (a ∷ s) (b ∷ t) = ground (arith, bytes_eq_iff s t)

-- the hash that the next entry must carry, after `entries` that follow an entry of hash `prev`
abbrev pub end_hash : Bytes → List AuditEntry → Bytes
end_hash prev [] = prev
end_hash prev (e ∷ rest) = end_hash e.entry_hash rest

module _ (c : Crypto) where
  abbrev pub Valid : Bytes → List AuditEntry → Type 0
  Valid prev entries = verify_from c prev entries ≡ ok tt

  -- Both tests of an entry succeed exactly if the rest is what decides.
  pub Valid-cons :
      (prev : Bytes) (e : AuditEntry) (rest : List AuditEntry)
      → e.prev_hash ≡ prev
      → check_content c e.content_sha256 e ≡ true
      → Valid e.entry_hash rest
      → Valid prev (e ∷ rest)
  unfolding verify_from
  Valid-cons prev e rest p q v = ground (arith, bytes_eq_iff e.prev_hash prev)

  pub Valid-split :
      (prev : Bytes) (e : AuditEntry) (rest : List AuditEntry)
      → Valid prev (e ∷ rest)
      → (e.prev_hash ≡ prev) × (check_content c e.content_sha256 e ≡ true) × Valid e.entry_hash rest
  unfolding verify_from
  Valid-split prev e rest v = ground (arith, bytes_eq_iff e.prev_hash prev)

  Valid-push :
      (prev : Bytes) (entries : List AuditEntry) (e : AuditEntry)
      → Valid prev entries
      → e.prev_hash ≡ end_hash prev entries
      → check_content c e.content_sha256 e ≡ true
      → Valid prev (push entries e)
  unfolding verify_from
  Valid-push prev [] e v p q = Valid-cons prev e [] p q refl
  Valid-push prev (x ∷ r) e v p q =
      let (same, checked, later) = Valid-split prev x r v in
      Valid-cons prev x (push r e) same checked (Valid-push x.entry_hash r e later p q)

  -- the tests of an entry that stands in a log that verifies
  pub check_content_at :
      (prev : Bytes) (entries : List AuditEntry) (i : ℕ) (e : AuditEntry)
      → get_elem? entries i ≡ some e
      → Valid prev entries
      → check_content c e.content_sha256 e ≡ true
  check_content_at prev [] i e g v = cc
  check_content_at prev (x ∷ r) zero e g v =
      subst (λ y. check_content c y.content_sha256 y ≡ true) (cc) (Valid-split prev x r v).1
  check_content_at prev (x ∷ r) (suc i) e g v =
      check_content_at x.entry_hash r i e g (Valid-split prev x r v).2

pub hash-end_hash : (entries : List AuditEntry) → hash entries ≡ end_hash genesis entries
unfolding hash
hash-end_hash [] = refl
hash-end_hash (e ∷ []) = refl
hash-end_hash (e ∷ x ∷ r) = hash-end_hash (x ∷ r)

module _ (c : Crypto) (digest_length : (x : Bytes) → length (c.sha256_hex x) ≡ 64) where
  -- The entry that `append` builds passes its own tests.
  check_content-new_entry :
      (entries : List AuditEntry) (event : AuditEvent)
      → check_content c (content_hash c event) (new_entry c entries event) ≡ true
  unfolding check_content binds new_entry content_hash
  check_content-new_entry entries event = ground (
    arith,
    digest_length (unwrap_or [] (c.to_string event)),
    bytes_eq_iff (new_entry c entries event).entry_hash (new_entry c entries event).entry_hash,
    bytes_eq_iff (content_hash c event) (content_hash c event),
  )

  -- Given a digest of 64 characters: appending to a log that verifies gives a log that verifies,
  -- and returns the hash of that log.
  pub verify-append :
      (entries : List AuditEntry) (event : AuditEvent)
      → verify c entries ≡ ok tt
      → (verify c (append c entries event).0 ≡ ok tt)
        × ((append c entries event).1 ≡ hash (append c entries event).0)
  unfolding verify append
  verify-append entries event v = (
    Valid-push c genesis entries (new_entry c entries event) v
        (unfold new_entry in hash-end_hash entries)
        (unfold new_entry in check_content-new_entry entries event),
    unfold hash in rw last-push,
  )
