-- ===== src/Audit/Tamper.antt =====
-- orchestrator/src/audit/log.rs: what the hash of a log that verifies commits to. A forged log
-- with the same hash gives a collision of SHA-256, or a text whose digest is the genesis hash.
use mathlib.Core.Path.{subst}
use mathlib.Core.List.{List-discrete}
use native.Mathlib.Decide.{ℕ_discrete}
use boruna.Prelude.{
  ℕ, zero, suc, ◌^◌, ◌<◌, ◌≡◌, ◌≢◌, ◌⊎◌, inl, inr, refl, sym, ap, ◌∙◌, true, List, [], ◌∷◌, ◌++◌,
  Option, none, some, ok, arith, length, unwrap_or, All, map, get_elem?,
}
use boruna.Audit.Entry.{Bytes, AuditEvent, AuditEntry, Redaction}
use boruna.Audit.Log.{
  Crypto, genesis, hash, to_le_bytes, check_content, binds, verify, content_hash,
  compute_entry_hash, compute_hash_legacy,
}
use boruna.Audit.Encoding.{
  to_le_bytes_injective, append_cancel_prefix, rev_onto, rev_onto_injective, map-rev_onto,
}
use boruna.Audit.Append.{
  bytes_eq_iff, check_content_at, Valid, Valid-split, end_hash, hash-end_hash,
}

-- SHA-256 is broken: two texts with one digest, or a text whose digest is 64 zeros.
pub data IsBroken (c : Crypto) : Type 0 where
  collision : (x y : Bytes) → x ≢ y → c.sha256_hex x ≡ c.sha256_hex y → IsBroken c
  preimage : (x : Bytes) → c.sha256_hex x ≡ genesis → IsBroken c

-- what the chain hashes of an entry besides its number and its link
abbrev pub committed_of : Crypto → Bytes → AuditEvent → Bytes
committed_of c [] event = unwrap_or [] (c.to_string event)
committed_of c (b ∷ bs) event = b ∷ bs

abbrev pub committed : Crypto → AuditEntry → Bytes
committed c e = committed_of c e.content_sha256 e.event

abbrev pub commitment : Crypto → AuditEntry → ℕ × Bytes × Bytes
commitment c e = (e.sequence, e.prev_hash, committed c e)

-- `sequence` is a `u64`
abbrev pub IsU64 : AuditEntry → Type 0
IsU64 e = e.sequence < 2 ^ 64

-- the text that an entry's event is serialised to
abbrev pub text : Crypto → AuditEntry → Bytes
text c e = unwrap_or [] (c.to_string e.event)

-- an entry in the commitment format whose event is still there
pub record IsLive (e : AuditEntry) : Type 0 where
  pub commits : e.content_sha256 ≢ []
  pub unredacted : e.redacted ≡ none

module _ (c : Crypto) (digest_length : (x : Bytes) → length (c.sha256_hex x) ≡ 64) where
  -- the hashed text of an entry
  abbrev hashed : AuditEntry → Bytes
  hashed e = to_le_bytes 8 e.sequence ++ (e.prev_hash ++ committed c e)

  entry_hash-hashed :
      (content : Bytes) (e : AuditEntry)
      → e.content_sha256 ≡ content
      → check_content c content e ≡ true
      → e.entry_hash ≡ c.sha256_hex (hashed e)
  unfolding check_content compute_entry_hash compute_hash_legacy
  entry_hash-hashed [] e p v =
      rw p (
        sym
          ((bytes_eq_iff (compute_hash_legacy c e.sequence e.prev_hash e.event) e.entry_hash).0 v))
  entry_hash-hashed (b ∷ bs) e p v = rw p (
      subst (λ t. e.entry_hash ≡ c.sha256_hex (to_le_bytes 8 e.sequence ++ (e.prev_hash ++ t))) p
        (ground (
          arith,
          bytes_eq_iff (compute_entry_hash c e.sequence e.prev_hash e.content_sha256) e.entry_hash,
        )))

  -- Newest entry first: each link holds, down to the genesis hash.
  abbrev Linked : List AuditEntry → Bytes → Type 0
  Linked [] h = h ≡ genesis
  Linked (e ∷ older) h =
      (h ≡ e.entry_hash)
      × (e.entry_hash ≡ c.sha256_hex (hashed e))
      × IsU64 e
      × Linked older e.prev_hash

  Linked-length : (entries : List AuditEntry) (h : Bytes) → Linked entries h → length h ≡ 64
  Linked-length [] h l = ap length l
  Linked-length (e ∷ older) h l = rw (l.0, l.1) (digest_length (hashed e))

  Linked-of_Valid :
      (prev : Bytes) (entries acc : List AuditEntry)
      → Linked acc prev
      → All IsU64 entries
      → Valid c prev entries
      → Linked (rev_onto entries acc) (end_hash prev entries)
  Linked-of_Valid prev [] acc l u v = l
  Linked-of_Valid prev (e ∷ rest) acc l u v =
      let (same, checked, later) = Valid-split c prev e rest v in
      Linked-of_Valid e.entry_hash rest (e ∷ acc)
        (
          refl,
          entry_hash-hashed e.content_sha256 e refl checked,
          u.0,
          subst (Linked acc) (sym same) l,
        )
        u.1 later

  -- Equal digests: the same text, or a collision.
  compare_digests : (x y : Bytes) → c.sha256_hex x ≡ c.sha256_hex y → IsBroken c ⊎ (x ≡ y)
  compare_digests x y h = elim (List-discrete ℕ_discrete x y) [
    | yes e ↦ inr e
    | no n ↦ inl (collision x y n h)
  ]

  same_links :
      (e f : AuditEntry) (older older' : List AuditEntry)
      → IsU64 e
      → IsU64 f
      → Linked older e.prev_hash
      → Linked older' f.prev_hash
      → hashed e ≡ hashed f
      → commitment c e ≡ commitment c f
  same_links e f older older' u w l m h =
      let numbers =
        to_le_bytes_injective 8 e.sequence f.sequence (e.prev_hash ++ committed c e)
          (f.prev_hash ++ committed c f) u w h in
      let links =
        append_cancel_prefix e.prev_hash f.prev_hash (committed c e) (committed c f)
          (Linked-length older e.prev_hash l ∙ sym (Linked-length older' f.prev_hash m))
          numbers.1 in
      cc (numbers.0, links.0, links.1)

  Linked-agree :
      (xs ys : List AuditEntry) (h : Bytes)
      → Linked xs h
      → Linked ys h
      → IsBroken c ⊎ (map (commitment c) xs ≡ map (commitment c) ys)
  Linked-agree [] [] h l m = inr refl
  Linked-agree [] (f ∷ ys) h l m = inl (preimage (hashed f) (sym m.1 ∙ (sym m.0 ∙ l)))
  Linked-agree (e ∷ xs) [] h l m = inl (preimage (hashed e) (sym l.1 ∙ (sym l.0 ∙ m)))
  Linked-agree (e ∷ xs) (f ∷ ys) h l m =
      elim (compare_digests (hashed e) (hashed f) (sym l.1 ∙ (sym l.0 ∙ (m.0 ∙ m.1)))) [
        | inl broken ↦ inl broken
        | inr same ↦
            let here = same_links e f xs ys l.2 m.2 l.3 m.3 same in
            let prev : f.prev_hash ≡ e.prev_hash = cc here in
            elim (Linked-agree xs ys e.prev_hash l.3 (subst (Linked ys) prev m.3)) [
              | inl broken ↦ inl broken
              | inr rest ↦ inr (cc (here, rest))
            ]
      ]

  -- Given a digest of 64 characters and sequence numbers of 64 bits: two logs that verify and have
  -- the same hash hold, entry by entry, the same numbers, links and committed contents, unless
  -- SHA-256 is broken.
  pub hash-eq_commitments :
      (entries entries' : List AuditEntry)
      → All IsU64 entries
      → All IsU64 entries'
      → verify c entries ≡ ok tt
      → verify c entries' ≡ ok tt
      → hash entries ≡ hash entries'
      → IsBroken c ⊎ (map (commitment c) entries ≡ map (commitment c) entries')
  unfolding verify
  hash-eq_commitments entries entries' u u' v v' h =
      let l = Linked-of_Valid genesis entries [] refl u v in
      let l' = Linked-of_Valid genesis entries' [] refl u' v' in
      let heads : end_hash genesis entries' ≡ end_hash genesis entries =
        sym (hash-end_hash entries') ∙ (sym h ∙ hash-end_hash entries) in
      elim (Linked-agree (rev_onto entries []) (rev_onto entries' []) (end_hash genesis entries) l
        (subst (Linked (rev_onto entries' [])) heads l')) [
          | inl broken ↦ inl broken
          | inr same ↦ inr (
              rev_onto_injective _ _ (
                sym (map-rev_onto (commitment c) entries [])
                ∙ (same ∙ map-rev_onto (commitment c) entries' [])))
        ]

  digest_of_text :
      (content : Bytes) (r : Option Redaction) (e : AuditEntry)
      → e.content_sha256 ≡ content
      → e.redacted ≡ r
      → IsLive e
      → check_content c content e ≡ true
      → (c.sha256_hex (text c e) ≡ e.content_sha256) × (committed c e ≡ e.content_sha256)
  unfolding check_content binds content_hash
  digest_of_text [] r e p q live v = absurd (live.commits p)
  digest_of_text (b ∷ bs) (some r) e p q live v = cc (sym q ∙ live.unredacted)
  digest_of_text (b ∷ bs) none e p q live v =
      let checked : binds c e.redacted e ≡ true = ground arith in
      ((bytes_eq_iff (c.sha256_hex (text c e)) e.content_sha256).0 (rw q at checked), rw p)

  commitment_at :
      (xs ys : List AuditEntry) (i : ℕ) (e f : AuditEntry)
      → map (commitment c) xs ≡ map (commitment c) ys
      → get_elem? xs i ≡ some e
      → get_elem? ys i ≡ some f
      → commitment c e ≡ commitment c f
  commitment_at [] ys i e f h p q = cc
  commitment_at (x ∷ xs) [] i e f h p q = cc
  commitment_at (x ∷ xs) (y ∷ ys) zero e f h p q =
      let x_is : x ≡ e = cc in let y_is : y ≡ f = cc in cc
  commitment_at (x ∷ xs) (y ∷ ys) (suc i) e f h p q = commitment_at xs ys i e f (cc) p q

  -- Given a digest of 64 characters and sequence numbers of 64 bits: in two logs that verify and
  -- have the same hash, two events at the same place, both in the commitment format and not
  -- redacted, have the same JSON text, unless SHA-256 is broken.
  pub hash-eq_events :
      (entries entries' : List AuditEntry) (i : ℕ) (e f : AuditEntry)
      → All IsU64 entries
      → All IsU64 entries'
      → verify c entries ≡ ok tt
      → verify c entries' ≡ ok tt
      → hash entries ≡ hash entries'
      → get_elem? entries i ≡ some e
      → get_elem? entries' i ≡ some f
      → IsLive e
      → IsLive f
      → IsBroken c ⊎ (text c e ≡ text c f)
  unfolding verify
  hash-eq_events entries entries' i e f u u' v v' h p q live live' =
      elim (hash-eq_commitments entries entries' u u' v v' h) [
        | inl broken ↦ inl broken
        | inr same ↦
            let here = commitment_at entries entries' i e f same p q in
            let de =
              digest_of_text e.content_sha256 e.redacted e refl refl live
                (check_content_at c genesis entries i e p v) in
            let df =
              digest_of_text f.content_sha256 f.redacted f refl refl live'
                (check_content_at c genesis entries' i f q v') in
            compare_digests (text c e) (text c f)
              (de.0 ∙ (sym de.1 ∙ (ap (λ (t : ℕ × Bytes × Bytes). t.2) here ∙ (df.1 ∙ sym df.0))))
      ]
