-- ===== src/Kahn/Invariant.antt =====
-- The invariant of the loop of Kahn's algorithm, at every decrement of a degree.
use boruna.Prelude.{
  ℕ, ◌+◌, ◌-◌, ◌≡◌, sym, ◌∙◌, String, Bool, true, false, not, ◌&&◌, ◌||◌, List, [], ◌∷◌, none, some,
  arith, push, str_eq, eq_iff, if◌then◌else◌, ◌==◌, Option-cases, is_none, inl, inr,
}
use boruna.Prelude.BTreeMap
use boruna.Prelude.BTreeMap.{get-insert}
use boruna.Prelude.BTreeSet.{contains}
use boruna.Kahn.Loop.{Edge, Degrees, relax}
use boruna.Kahn.Counting.{
  IsDistinct, contains-push, IsDistinct-push, count, targets, open_in, open_in-push,
}

-- the node is in the queue or done
abbrev pub seen : List String → List String → String → Bool
seen done queue v = contains v queue || contains v done

-- `pending` are the ends of edges from done nodes whose degrees are still to be decremented.
module _ (known : String → Bool) (es : List Edge) where
  abbrev pub need : List String → List String → String → ℕ
  need done pending v = open_in es done v + count v pending

  pub record Inv (done pending queue : List String) (deg : Degrees) : Type 0 where
    pub queue_distinct : IsDistinct queue
    pub done_distinct : IsDistinct done
    pub fresh : (v : String) → contains v queue ≡ true → contains v done ≡ false
    pub settled : (v : String) → seen done queue v ≡ true → need done pending v ≡ 0
    pub closed : (v : String) → known v ≡ true → need done pending v ≡ 0 → seen done queue v ≡ true
    pub degrees : (v : String) (d : ℕ) → BTreeMap.get v deg ≡ some d → d ≡ need done pending v
    pub keys : (v : String) → is_none (BTreeMap.get v deg) ≡ not (known v)
    pub seen_known : (v : String) → seen done queue v ≡ true → known v ≡ true

  -- The head of the queue is done: the ends of its edges become pending.
  pub Inv-pop :
      (done : List String) (id : String) (queue : List String) (deg : Degrees)
      → Inv done [] (id ∷ queue) deg
      → Inv (push done id) (targets id es) queue deg
  unfolding contains
  Inv-pop done id queue deg i =
      let new : contains id done ≡ false = i.fresh id (ground (arith, eq_iff id id)) in
      record {
        queue_distinct = i.queue_distinct.1;
        done_distinct = IsDistinct-push id done new i.done_distinct;
        fresh = λ v h.
            ground (arith, contains-push v id done, eq_iff id v, i.queue_distinct, i.fresh v);
        settled = λ v h.
            sym (open_in-push es done id v new)
            ∙ ground (arith, contains-push v id done, i.settled v);
        closed = λ v k h.
            ground (arith, contains-push v id done, open_in-push es done id v new, i.closed v);
        degrees = λ v d h. ground (arith, open_in-push es done id v new, i.degrees v d);
        keys = i.keys;
        seen_known = λ v h. ground (arith, contains-push v id done, i.seen_known v);
      }

  -- An end that is no key is passed over.
  Inv-unknown :
      (done : List String) (t : String) (pending queue : List String) (deg : Degrees)
      → BTreeMap.get t deg ≡ none
      → Inv done (t ∷ pending) queue deg
      → Inv done pending queue deg
  Inv-unknown done t pending queue deg absent i =
      let unknown : known t ≡ false = ground (arith, i.keys t, absent) in
      record {
        queue_distinct = i.queue_distinct;
        done_distinct = i.done_distinct;
        fresh = i.fresh;
        settled = λ v h. ground (arith, i.settled v);
        closed = λ v k h. ground (arith, eq_iff t v, i.closed v);
        degrees = λ v d h. ground (arith, eq_iff t v, i.degrees v d);
        keys = i.keys;
        seen_known = i.seen_known;
      }

  abbrev pub queue_after : List String → String → ℕ → List String
  queue_after queue t d = if d - 1 == 0 then push queue t else queue

  seen-after :
      (done queue : List String) (t : String) (d : ℕ) (v : String)
      → seen done (queue_after queue t d) v ≡ (seen done queue v || ((d - 1 == 0) && str_eq t v))
  seen-after done queue t d v = ground (arith, contains-push v t queue)

  -- An end that is a key has its degree decremented, and is queued if that was its last open edge.
  Inv-known :
      (done : List String) (t : String) (pending queue : List String) (deg : Degrees) (d : ℕ)
      → BTreeMap.get t deg ≡ some d
      → Inv done (t ∷ pending) queue deg
      → Inv done pending (queue_after queue t d) (BTreeMap.insert t (d - 1) deg)
  Inv-known done t pending queue deg d found i =
      let is : d ≡ need done (t ∷ pending) t = i.degrees t d found in
      let unseen : seen done queue t ≡ false = ground (arith, eq_iff t t, i.settled t) in
      record {
        queue_distinct = ground (arith, IsDistinct-push t queue, i.queue_distinct);
        done_distinct = i.done_distinct;
        fresh = λ v h. ground (arith, contains-push v t queue, eq_iff t v, i.fresh v);
        settled = λ v h. ground (arith, seen-after done queue t d v, eq_iff t v, i.settled v);
        closed = λ v k h. ground (arith, seen-after done queue t d v, eq_iff t v, i.closed v);
        degrees = λ v e h. ground (arith, get-insert t v (d - 1) deg, eq_iff t v, i.degrees v e);
        keys = λ v. ground (arith, get-insert t v (d - 1) deg, eq_iff t v, i.keys v, found);
        seen_known = λ v h.
            ground
              (arith, seen-after done queue t d v, eq_iff t v, i.seen_known v, i.keys t, found);
      }

  pub Inv-relax :
      (done pending queue : List String) (deg : Degrees)
      → Inv done pending queue deg
      → Inv done [] (relax pending deg queue).1 (relax pending deg queue).0
  unfolding relax
  Inv-relax done [] queue deg i = i
  Inv-relax done (t ∷ pending) queue deg i = elim (Option-cases (BTreeMap.get t deg)) [
    | inl e ↦
        rw (e, relax) (Inv-relax done pending queue deg (Inv-unknown done t pending queue deg e i))
    | inr (d, e) ↦
        rw (e, relax)
          (Inv-relax done pending (queue_after queue t d) (BTreeMap.insert t (d - 1) deg)
            (Inv-known done t pending queue deg d e i))
  ]
