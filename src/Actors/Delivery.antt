-- ===== src/Actors/Delivery.antt =====
-- crates/llmvm/src/actor.rs: what `deliver_messages` puts in the mailboxes.
use mathlib.Core.List.{append-nil, append_assoc}
use boruna.Prelude.{
  ℕ, ◌==◌, ◌≤◌, ◌≡◌, refl, sym, ap, ◌∙◌, Bool, true, false, ◌&&◌, List, [], ◌∷◌, ◌++◌, Option, some,
  arith, get_elem?, keep, map, if◌then◌else◌, All, inl, inr, Bool-cases,
}
use boruna.Actors.System.{
  Actor, ActorSystem, Pending, deliver_all, deliver_message, deliver_messages, deliver_one,
  insert_pending, is_failed, message_of, on_core, precedes, receives, sort_pending,
}
use boruna.Actors.Kin.{AllFit, IsWell, update_first-AllFit, get_elem?-update_first}

-- no message comes before one that precedes it
abbrev Ordered : List Pending → Type 0
Ordered [] = Unit
Ordered (p ∷ rest) = All (λ q. precedes q p ≡ false) rest × Ordered rest

-- the senders of a list of messages do not decrease
abbrev pub BySender : List Pending → Type 0
BySender [] = Unit
BySender (p ∷ rest) = All (λ q. p.from ≤ q.from) rest × BySender rest

All-insert_pending :
    (P : Pending → Type 0) (p : Pending) (l : List Pending)
    → P p
    → All P l
    → All P (insert_pending p l)
All-insert_pending P p [] hp h = (hp, tt)
All-insert_pending P p (q ∷ rest) hp h = elim (Bool-cases (precedes q p)) [
  | inl e ↦ rw e (h.0, All-insert_pending P p rest hp h.1)
  | inr e ↦ rw e (hp, h)
]

precedes_asym : (p q : Pending) → precedes q p ≡ true → precedes p q ≡ false
precedes_asym p q h = ground arith

precedes_trans :
    (p q r : Pending) → precedes q p ≡ false → precedes r q ≡ false → precedes r p ≡ false
precedes_trans p q r h h' = ground arith

after-all :
    (p q : Pending) (l : List Pending)
    → precedes q p ≡ false
    → All (λ r. precedes r q ≡ false) l
    → All (λ r. precedes r p ≡ false) l
after-all p q [] e h = tt
after-all p q (r ∷ rest) e h = (precedes_trans p q r e h.0, after-all p q rest e h.1)

insert_pending-Ordered : (p : Pending) (l : List Pending) → Ordered l → Ordered (insert_pending p l)
insert_pending-Ordered p [] h = (tt, tt)
insert_pending-Ordered p (q ∷ rest) h = elim (Bool-cases (precedes q p)) [
  | inl e ↦ rw e (
    All-insert_pending (λ r. precedes r q ≡ false) p rest (precedes_asym p q e) h.0,
    insert_pending-Ordered p rest h.1,
  )
  | inr e ↦ rw e ((e, after-all p q rest e h.0), h)
]

sort_pending-Ordered : (l : List Pending) → Ordered (sort_pending l)
unfolding sort_pending
sort_pending-Ordered [] = tt
sort_pending-Ordered (p ∷ rest) =
    insert_pending-Ordered p (sort_pending rest) (sort_pending-Ordered rest)

abbrev pub addressed : ℕ → Pending → Bool
addressed t p = p.to == t

keep-AllFrom :
    (t : ℕ) (p : Pending) (l : List Pending)
    → addressed t p ≡ true
    → All (λ q. precedes q p ≡ false) l
    → All (λ q. p.from ≤ q.from) (keep (addressed t) l)
keep-AllFrom t p [] e h = tt
keep-AllFrom t p (q ∷ rest) e h = elim (Bool-cases (addressed t q)) [
  | inl b ↦ rw b (ground (arith, h.0), keep-AllFrom t p rest e h.1)
  | inr b ↦ rw b (keep-AllFrom t p rest e h.1)
]

keep-BySender : (t : ℕ) (l : List Pending) → Ordered l → BySender (keep (addressed t) l)
keep-BySender t [] h = tt
keep-BySender t (p ∷ rest) h = elim (Bool-cases (addressed t p)) [
  | inl b ↦ rw b (keep-AllFrom t p rest b h.0, keep-BySender t rest h.1)
  | inr b ↦ rw b (keep-BySender t rest h.1)
]

-- the messages of one sender to one receiver
abbrev pub on_channel : ℕ → ℕ → Pending → Bool
on_channel f t p = (p.from == f) && (p.to == t)

keep-insert_pending :
    (f t : ℕ) (p : Pending) (l : List Pending)
    → keep (on_channel f t) (insert_pending p l) ≡ keep (on_channel f t) (p ∷ l)
keep-insert_pending f t p [] = refl
keep-insert_pending f t p (q ∷ rest) = elim (Bool-cases (precedes q p)) [
  | inl e ↦ ground (arith, e, keep-insert_pending f t p rest)
  | inr e ↦ rw e refl
]

keep-sort_pending :
    (f t : ℕ) (l : List Pending) → keep (on_channel f t) (sort_pending l) ≡ keep (on_channel f t) l
unfolding sort_pending
keep-sort_pending f t [] = refl
keep-sort_pending f t (p ∷ rest) =
    keep-insert_pending f t p (sort_pending rest) ∙ ground (arith, keep-sort_pending f t rest)

keep-keep :
    (f t : ℕ) (l : List Pending)
    → keep (λ p. p.from == f) (keep (addressed t) l) ≡ keep (on_channel f t) l
keep-keep f t [] = refl
keep-keep f t (p ∷ rest) = ground (arith, keep-keep f t rest)

module _ {S : Type 0} where
  -- an actor with more messages in its mailbox
  abbrev pub with_mail : List Pending → Actor S → Actor S
  with_mail ps a = on_core (λ vm. record vm { mailbox = vm.mailbox ++ map message_of ps }) a

  delivered_step :
      (p : Pending) (rest : List Pending) (a : Actor S)
      → is_failed a.status ≡ false
      → with_mail
          (keep (addressed a.id) rest)
          (if receives p.to a then deliver_message (message_of p) a else a)
        ≡ with_mail (keep (addressed a.id) (p ∷ rest)) a
  delivered_step p rest a live = elim (Bool-cases (addressed a.id p)) [
    | inl b ↦
        let r : receives p.to a ≡ true = ground (arith, b, live) in
        rw (b, r)
          (ap (λ m. on_core (λ vm. record vm { mailbox = m }) a)
            (append_assoc a.vm.core.mailbox (message_of p ∷ [])
              (map message_of (keep (addressed a.id) rest))))
    | inr b ↦ let r : receives p.to a ≡ false = ground (arith, b, live) in rw (b, r) refl
  ]

  deliver_all_lem :
      (i : ℕ) (ps : List Pending) (sys : ActorSystem S) (a : Actor S)
      → AllFit 0 sys.next_id sys.actors
      → get_elem? sys.actors i ≡ some a
      → is_failed a.status ≡ false
      → get_elem? (deliver_all ps sys).actors i ≡ some (with_mail (keep (addressed a.id) ps) a)
  unfolding deliver_all deliver_one
  deliver_all_lem i [] sys a w e live =
      e
      ∙ sym (
          ap (λ m. some (on_core (λ vm. record vm { mailbox = m }) a))
            (append-nil a.vm.core.mailbox))
  deliver_all_lem i (p ∷ rest) sys a w e live = elim (Bool-cases (receives p.to a)) [
    | inl r ↦
        deliver_all_lem i rest (deliver_one p sys) (f a) fits (here ∙ ap then_it r) live
        ∙ sym (ap mailed r)
        ∙ ap some (delivered_step p rest a live)
    | inr r ↦
        deliver_all_lem i rest (deliver_one p sys) a fits (here ∙ ap then_it r) live
        ∙ sym (ap mailed r)
        ∙ ap some (delivered_step p rest a live)
  ]
    where
      f : Actor S → Actor S
      f = deliver_message (message_of p)

      then_it : Bool → Option (Actor S)
      then_it b = some (if b then f a else a)

      mailed : Bool → Option (Actor S)
      mailed b = some (with_mail (keep (addressed a.id) rest) (if b then f a else a))

      here : get_elem? (deliver_one p sys).actors i ≡ then_it (receives p.to a)
      here =
          get_elem?-update_first (receives p.to) f (λ x y hx hy. ground (arith, hx, hy)) i 0
            sys.next_id sys.actors a w e

      fits : AllFit 0 sys.next_id (deliver_one p sys).actors
      fits =
          update_first-AllFit 0 sys.next_id (receives p.to) f sys.actors
            (λ j b h. record { id = h.id; below = h.below; above = h.above }) w

  -- After a delivery, the mailbox of an actor that has not failed holds what it held and then messages
  -- in the order of their senders; of each sender these are the pending messages that the sender has
  -- sent to the actor, all of them, in the order in which they were sent.
  pub deliver_messages_lem :
      (i : ℕ) (sys : ActorSystem S) (a : Actor S)
      → IsWell sys
      → get_elem? sys.actors i ≡ some a
      → is_failed a.status ≡ false
      → (arrived : List Pending) × (get_elem? (deliver_messages sys).actors i
          ≡ some (with_mail arrived a))
        × BySender arrived
        × ((f : ℕ)
            → keep (λ p. p.from == f) arrived ≡ keep (on_channel f a.id) sys.pending_messages)
  unfolding deliver_messages
  deliver_messages_lem i sys a w e live =
      let sorted = sort_pending sys.pending_messages in
      (
        keep (addressed a.id) sorted,
        deliver_all_lem i sorted (record sys { pending_messages = [] }) a w.actors e live,
        keep-BySender a.id sorted (sort_pending-Ordered sys.pending_messages),
        λ f. keep-keep f a.id sorted ∙ keep-sort_pending f a.id sys.pending_messages,
      )
