-- ===== src/Packages/Sorting.antt =====
-- packages/src/resolver/mod.rs: what the main loop of `topological_sort` returns.
use mathlib.Core.Path.{subst}
use mathlib.Core.List.{append-nil}
use boruna.Prelude.{
  ℕ, zero, suc, ◌+◌, ◌<◌, ◌≡◌, sym, ap, ◌∙◌, String, Bool, List, [], ◌∷◌, ◌++◌, arith, length,
  length-append, push, map, unwrap_or,
}
use boruna.Prelude.BTreeMap
use boruna.Prelude.BTreeSet.{contains}
use boruna.Kahn.Loop.{Edge, Degrees, Dependents, relax, zero_degree}
use boruna.Kahn.Counting.{IsDistinct, length-IsDistinct, targets, open_in}
use boruna.Kahn.Invariant.{Inv, Inv-pop, Inv-relax}
use boruna.Kahn.Sound.{
  IsGraph, Done, Respects, RespectsFrom-push, Inv-start, is_key, length-keys, contains-head,
}
use boruna.Kahn.Waves.{sort, contains-sort, IsDistinct-sort}
use boruna.Kahn.Layers.{Inv-requeue, relax-append}
use boruna.Packages.Resolver.{drain_sorted, sorted_order}

-- a queue whose later part is put in order
contains-tail :
    (v : String) (queue next : List String)
    → contains v (queue ++ sort next) ≡ contains v (queue ++ next)
unfolding contains
contains-tail v [] next = contains-sort v next
contains-tail v (x ∷ queue) next = ground (arith, contains-tail v queue next)

IsDistinct-tail :
    (queue next : List String) → IsDistinct (queue ++ next) → IsDistinct (queue ++ sort next)
IsDistinct-tail [] next d = IsDistinct-sort next d
IsDistinct-tail (x ∷ queue) next d =
    (contains-tail x queue next ∙ d.0, IsDistinct-tail queue next d.1)

module _ (es : List Edge) (ids : List String) (ds : Dependents)
    (same : (u : String) → unwrap_or [] (BTreeMap.get u ds) ≡ targets u es) where
  abbrev known : String → Bool
  known v = contains v ids

  -- one turn of the loop
  Inv-turn :
      (deg : Degrees) (id : String) (queue order : List String)
      → Inv known es order [] (id ∷ queue) deg
      → let (deg', next) = relax (unwrap_or [] (BTreeMap.get id ds)) deg [] in
        Inv known es (push order id) [] (queue ++ sort next) deg'
  Inv-turn deg id queue order i =
      let ts = unwrap_or [] (BTreeMap.get id ds) in
      let next = (relax ts deg []).1 in
      let deg' = (relax ts deg []).0 in
      let popped =
        subst (λ l. Inv known es (push order id) l queue deg) (sym (same id))
          (Inv-pop known es order id queue deg i) in
      let relaxed = Inv-relax known es (push order id) ts queue deg popped in
      let split = ap (relax ts deg) (sym (append-nil queue)) ∙ relax-append ts deg queue [] in
      let appended =
        subst (λ (p : Degrees × List String). Inv known es (push order id) [] p.1 p.0) split
          relaxed in
      Inv-requeue known es (push order id) (queue ++ next) (queue ++ sort next) deg'
        (λ v. contains-tail v queue next) (IsDistinct-tail queue next appended.queue_distinct)
        appended

  drain_sorted-Done :
      (k : ℕ) (deg : Degrees) (queue order : List String)
      → length ids < k + length order
      → Inv known es order [] queue deg
      → Respects es order
      → Done es ids ds same (drain_sorted k ds deg queue order)
  unfolding drain_sorted
  drain_sorted-Done zero deg queue order f i r = absurd (
      omega (
        arith,
        f,
        length-IsDistinct order ids i.done_distinct (λ v h. i.seen_known v (ground (arith, h))),
      ))
  drain_sorted-Done (suc k) deg [] order f i r = record { deg = deg; inv = i; respects = r }
  drain_sorted-Done (suc k) deg (id ∷ queue) order f i r =
      let first : open_in es order id + 0 ≡ 0 =
        i.settled id (ground (arith, contains-head id queue)) in
      let (deg', next) = relax (unwrap_or [] (BTreeMap.get id ds)) deg [] in
      drain_sorted-Done k deg' (queue ++ sort next) (push order id)
        (omega (arith, length-append order (id ∷ []), f)) (Inv-turn deg id queue order i)
        (RespectsFrom-push es [] order id r (omega (arith, first)))

-- What the loop returns for a graph.
pub sorted_order-Done :
    (es : List Edge) (ds : Dependents) (deg : Degrees)
    → (g : IsGraph es ds deg) → Done es (map (λ e. e.0) deg) ds g.ends (sorted_order ds deg)
unfolding sorted_order
sorted_order-Done es ds deg g =
    let start = Inv-start es ds deg g in
    drain_sorted-Done es (map (λ e. e.0) deg) ds g.ends (suc (length deg)) deg
      (sort (zero_degree deg)) [] (omega (arith, length-keys deg))
      (Inv-requeue (is_key deg) es [] (zero_degree deg) (sort (zero_degree deg)) deg
        (λ v. contains-sort v (zero_degree deg))
        (IsDistinct-sort (zero_degree deg) start.queue_distinct) start)
      tt
