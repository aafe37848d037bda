-- ===== src/Kahn/Layers.antt =====
-- The invariant of the loop by levels, and what it returns.
use mathlib.Core.Path.{subst}
use mathlib.Core.List.{append-nil, append_assoc}
use boruna.Prelude.{
  ℕ, zero, suc, ◌+◌, ◌-◌, ◌<◌, ◌≡◌, refl, sym, ap, ◌∙◌, String, Bool, true, false, ◌||◌, List, [],
  ◌∷◌, ◌++◌, arith, length, length-append, push, if◌then◌else◌, ◌==◌, unwrap_or, Option-cases, inl,
  inr, map,
}
use boruna.Prelude.BTreeMap
use boruna.Prelude.BTreeSet.{contains}
use boruna.Kahn.Loop.{Edge, Degrees, Dependents, relax, zero_degree}
use boruna.Kahn.Counting.{IsDistinct, length-IsDistinct, targets, open_in}
use boruna.Kahn.Invariant.{Inv, Inv-pop, Inv-relax}
use boruna.Kahn.Waves.{relax_level, sort, levels_from, kahn_levels, contains-sort, IsDistinct-sort}
use boruna.Kahn.Sound.{IsGraph, Inv-start, is_key, length-keys}

front_push :
    (b : Bool) (front queue : List String) (t : String)
    → (if b then push (front ++ queue) t else front ++ queue)
      ≡ front ++ (if b then push queue t else queue)
front_push true front queue t = append_assoc front queue (t ∷ [])
front_push false front queue t = refl

-- What is before the queue is left alone by the inner loop.
pub relax-append :
    (ts : List String) (deg : Degrees) (front queue : List String)
    → relax ts deg (front ++ queue) ≡ ((relax ts deg queue).0, front ++ (relax ts deg queue).1)
unfolding relax
relax-append [] deg front queue = refl
relax-append (t ∷ ts) deg front queue = elim (Option-cases (BTreeMap.get t deg)) [
  | inl e ↦ rw (e, relax) (relax-append ts deg front queue)
  | inr (d, e) ↦
      rw (e, relax)
        (ap (relax ts (BTreeMap.insert t (d - 1) deg)) (front_push (d - 1 == 0) front queue t)
          ∙ relax-append ts (BTreeMap.insert t (d - 1) deg) front
              (if d - 1 == 0 then push queue t else queue))
]

-- The nodes of every level have no edge from a node that is not in an earlier level.
abbrev pub LayeredFrom : List Edge → List String → List (List String) → Type 0
LayeredFrom es done [] = Unit
LayeredFrom es done (level ∷ rest) =
    ((v : String) → contains v level ≡ true → open_in es done v ≡ 0)
    × LayeredFrom es (done ++ level) rest

abbrev pub flatten : List (List String) → List String
flatten [] = []
flatten (level ∷ rest) = level ++ flatten rest

module _ (known : String → Bool) (es : List Edge) where
  -- A queue with the same members, each once, will do.
  pub Inv-requeue :
      (done queue queue' : List String) (deg : Degrees)
      → ((v : String) → contains v queue' ≡ contains v queue)
      → IsDistinct queue'
      → Inv known es done [] queue deg
      → Inv known es done [] queue' deg
  Inv-requeue done queue queue' deg same d i = record {
    queue_distinct = d;
    done_distinct = i.done_distinct;
    fresh = λ v h. i.fresh v (sym (same v) ∙ h);
    settled = λ v h. i.settled v (ap (λ b. b || contains v done) (sym (same v)) ∙ h);
    closed = λ v k h. ap (λ b. b || contains v done) (same v) ∙ i.closed v k h;
    degrees = i.degrees;
    keys = i.keys;
    seen_known = λ v h. i.seen_known v (ap (λ b. b || contains v done) (sym (same v)) ∙ h);
  }

  module _ (ds : Dependents)
      (same : (u : String) → unwrap_or [] (BTreeMap.get u ds) ≡ targets u es) where
    Inv-relax_level :
        (current done next : List String) (deg : Degrees)
        → Inv known es done [] (current ++ next) deg
        → Inv known es
            (done ++ current)
            []
            (relax_level ds current deg next).1
            (relax_level ds current deg next).0
    unfolding relax_level
    Inv-relax_level [] done next deg i =
        subst (λ l. Inv known es l [] next deg) (sym (append-nil done)) i
    Inv-relax_level (id ∷ rest) done next deg i =
        let ts = unwrap_or [] (BTreeMap.get id ds) in
        let popped =
          subst (λ l. Inv known es (push done id) l (rest ++ next) deg) (sym (same id))
            (Inv-pop known es done id (rest ++ next) deg i) in
        let relaxed =
          subst (λ (p : Degrees × List String). Inv known es (push done id) [] p.1 p.0)
            (relax-append ts deg rest next)
            (Inv-relax known es (push done id) ts (rest ++ next) deg popped) in
        subst
          (λ l.
            Inv known es l [] (relax_level ds rest (relax ts deg next).0 (relax ts deg next).1).1
              (relax_level ds rest (relax ts deg next).0 (relax ts deg next).1).0)
          (append_assoc done (id ∷ []) rest)
          (Inv-relax_level rest (push done id) (relax ts deg next).1 (relax ts deg next).0 relaxed)

  -- the state after the loop
  pub record Layers (done : List String) (levels : List (List String)) : Type 0 where
    pub deg : Degrees
    pub inv : Inv known es (done ++ flatten levels) [] [] deg
    pub layered : LayeredFrom es done levels

  module _ (ids : List String) (in_ids : (v : String) → known v ≡ true → contains v ids ≡ true)
      (ds : Dependents)
      (same : (u : String) → unwrap_or [] (BTreeMap.get u ds) ≡ targets u es) where
    levels_from-Layers :
        (k : ℕ) (deg : Degrees) (current done : List String)
        → length ids < k + length done
        → Inv known es done [] current deg
        → Layers done (levels_from k ds deg current)
    unfolding levels_from
    levels_from-Layers zero deg current done f i = absurd (
        omega (
          arith,
          f,
          length-IsDistinct done ids i.done_distinct
              (λ v h. in_ids v (i.seen_known v (ground (arith, h)))),
        ))
    levels_from-Layers (suc k) deg [] done f i = record {
      deg = deg;
      inv = subst (λ l. Inv known es l [] [] deg) (sym (append-nil done)) i;
      layered = tt;
    }
    levels_from-Layers (suc k) deg (c ∷ cs) done f i =
        let start = subst (λ l. Inv known es done [] l deg) (sym (append-nil (c ∷ cs))) i in
        let (deg', next) = relax_level ds (c ∷ cs) deg [] in
        let after = Inv-relax_level ds same (c ∷ cs) done [] deg start in
        let rest =
          levels_from-Layers k deg' (sort next) (done ++ (c ∷ cs))
            (omega (arith, length-append done (c ∷ cs), f))
            (Inv-requeue (done ++ (c ∷ cs)) next (sort next) deg' (λ v. contains-sort v next)
              (IsDistinct-sort next after.queue_distinct) after) in
        record {
          deg = rest.deg;
          inv = subst (λ l. Inv known es l [] [] rest.deg) (append_assoc done (c ∷ cs) _) rest.inv;
          layered = (λ v h. omega (arith, i.settled v (ground (arith, h))), rest.layered);
        }

-- What the loop by levels returns for a graph.
pub kahn_levels-Layers :
    (es : List Edge) (ds : Dependents) (deg : Degrees)
    → IsGraph es ds deg
    → Layers (is_key deg) es [] (kahn_levels ds deg)
unfolding kahn_levels
kahn_levels-Layers es ds deg g =
    let start = Inv-start es ds deg g in
    levels_from-Layers (is_key deg) es (map (λ e. e.0) deg) (λ v h. h) ds g.ends (suc (length deg))
      deg (sort (zero_degree deg)) [] (omega (arith, length-keys deg))
      (Inv-requeue (is_key deg) es [] (zero_degree deg) (sort (zero_degree deg)) deg
        (λ v. contains-sort v (zero_degree deg))
        (IsDistinct-sort (zero_degree deg) start.queue_distinct) start)
