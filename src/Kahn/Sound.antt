-- ===== src/Kahn/Sound.antt =====
-- What the loop of Kahn's algorithm returns: distinct keys, each after the sources of its edges; and all
-- of them, if the edges have no cycle.
use boruna.Prelude.{
  ℕ, zero, suc, ◌+◌, ◌<◌, ◌≡◌, refl, sym, ap, ◌∙◌, String, Bool, true, false, not, List, [], ◌∷◌,
  ◌++◌, Option, none, some, arith, length, push, eq_iff, ◌==◌, unwrap_or, map, is_none,
  Option-cases, inl, inr, length-append,
}
use mathlib.Core.Path.{subst}
use mathlib.Core.List.{append-nil, append_assoc}
use text.Mathlib.TextPositions.{compare_refl}
use boruna.Prelude.BTreeMap
use boruna.Prelude.BTreeMap.{BTreeMap}
use boruna.Prelude.SortedMap.{IsSorted, Above}
use boruna.Prelude.BTreeSet.{contains}
use boruna.Kahn.Loop.{Edge, Degrees, Dependents, zero_degree, relax, drain, kahn}
use boruna.Kahn.Counting.{IsDistinct, length-IsDistinct, targets, open_in}
use boruna.Kahn.Invariant.{Inv, Inv-pop, Inv-relax}

-- Along the list, every edge into a node comes from a node before it.
abbrev pub RespectsFrom : List Edge → List String → List String → Type 0
RespectsFrom es done [] = Unit
RespectsFrom es done (v ∷ rest) = (open_in es done v ≡ 0) × RespectsFrom es (push done v) rest

abbrev pub Respects : List Edge → List String → Type 0
Respects es order = RespectsFrom es [] order

pub RespectsFrom-push :
    (es : List Edge) (done xs : List String) (v : String)
    → RespectsFrom es done xs
    → open_in es (done ++ xs) v ≡ 0
    → RespectsFrom es done (push xs v)
RespectsFrom-push es done [] v r h = (ap (λ l. open_in es l v) (sym (append-nil done)) ∙ h, tt)
RespectsFrom-push es done (x ∷ xs) v r h = (
  r.0,
  RespectsFrom-push es (push done x) xs v r.1
      (ap (λ l. open_in es l v) (append_assoc done (x ∷ []) xs) ∙ h),
)

-- the keys of the degrees, as a test
abbrev pub is_key : Degrees → String → Bool
is_key deg v = contains v (map (λ e. e.0) deg)

pub is_none-get {ℓ} :
    {V : Type ℓ} (v : String) (m : BTreeMap V)
    → is_none (BTreeMap.get v m) ≡ not (contains v (map (λ e. e.0) m))
unfolding BTreeMap.get contains
is_none-get v [] = refl
is_none-get v ((k, d) ∷ m) = ground (arith, is_none-get v m)

pub length-keys : (deg : Degrees) → length (map (λ (e : String × ℕ). e.0) deg) ≡ length deg
length-keys [] = refl
length-keys (e ∷ deg) = ap suc (length-keys deg)

pub contains-head : (id : String) (queue : List String) → contains id (id ∷ queue) ≡ true
unfolding contains
contains-head id queue = ground (arith, eq_iff id id)

abbrev is_zero : Option ℕ → Bool
is_zero none = false
is_zero (some d) = d == 0

zero_degree-Above :
    (k : String) (deg : Degrees) → Above k deg → contains k (zero_degree deg) ≡ false
unfolding contains zero_degree
zero_degree-Above k [] a = refl
zero_degree-Above k ((j, d) ∷ deg) a =
    ground (arith, eq_iff j k, compare_refl k, zero_degree-Above k deg a.1)

contains-zero_degree :
    (v : String) (deg : Degrees)
    → IsSorted deg
    → contains v (zero_degree deg) ≡ is_zero (BTreeMap.get v deg)
unfolding contains zero_degree BTreeMap.get
contains-zero_degree v [] s = refl
contains-zero_degree v ((k, d) ∷ deg) s =
    ground (arith, eq_iff k v, zero_degree-Above k deg s.0, contains-zero_degree v deg s.1)

IsDistinct-zero_degree : (deg : Degrees) → IsSorted deg → IsDistinct (zero_degree deg)
unfolding zero_degree
IsDistinct-zero_degree [] s = tt
IsDistinct-zero_degree ((k, d) ∷ deg) s =
    ground (arith, zero_degree-Above k deg s.0, IsDistinct-zero_degree deg s.1)

module _ (es : List Edge) (ids : List String) (ds : Dependents)
    (same : (u : String) → unwrap_or [] (BTreeMap.get u ds) ≡ targets u es) where
  -- the state after the loop
  pub record Done (order : List String) : Type 0 where
    pub deg : Degrees
    pub inv : Inv (λ v. contains v ids) es order [] [] deg
    pub respects : Respects es order

  drain-Done :
      (k : ℕ) (deg : Degrees) (queue order : List String)
      → length ids < k + length order
      → Inv (λ v. contains v ids) es order [] queue deg
      → Respects es order
      → Done (drain k ds deg queue order)
  unfolding drain
  drain-Done zero deg queue order f i r = absurd (
      omega (
        arith,
        f,
        length-IsDistinct order ids i.done_distinct (λ v h. i.seen_known v (ground (arith, h))),
      ))
  drain-Done (suc k) deg [] order f i r = record { deg = deg; inv = i; respects = r }
  drain-Done (suc k) deg (id ∷ queue) order f i r =
      let ts = unwrap_or [] (BTreeMap.get id ds) in
      let first : open_in es order id + 0 ≡ 0 =
        i.settled id (ground (arith, contains-head id queue)) in
      let popped =
        subst (λ l. Inv (λ v. contains v ids) es (push order id) l queue deg) (sym (same id))
          (Inv-pop (λ v. contains v ids) es order id queue deg i) in
      drain-Done k (relax ts deg queue).0 (relax ts deg queue).1 (push order id)
        (omega (arith, length-append order (id ∷ []), f))
        (Inv-relax (λ v. contains v ids) es (push order id) ts queue deg popped)
        (RespectsFrom-push es [] order id r (omega (arith, first)))

-- What the loop is given: degrees in order of their keys that count the edges into each key, and the
-- ends of the edges from each node.
pub record IsGraph (es : List Edge) (ds : Dependents) (deg : Degrees) : Type 0 where
  pub sorted : IsSorted deg
  pub counts : (v : String) (d : ℕ) → BTreeMap.get v deg ≡ some d → d ≡ open_in es [] v
  pub ends : (u : String) → unwrap_or [] (BTreeMap.get u ds) ≡ targets u es

pub Inv-start :
    (es : List Edge) (ds : Dependents) (deg : Degrees)
    → IsGraph es ds deg
    → Inv (is_key deg) es [] [] (zero_degree deg) deg
unfolding contains
Inv-start es ds deg g = record {
  queue_distinct = IsDistinct-zero_degree deg g.sorted;
  done_distinct = tt;
  fresh = λ v h. refl;
  settled = λ v h.
      by_degree v (λ d e. ground (arith, zeros v, g.counts v d)) (λ e. ground (arith, zeros v));
  closed = λ v k h.
      by_degree v (λ d e. ground (arith, zeros v, g.counts v d))
        (λ e. ground (arith, is_none-get v deg));
  degrees = λ v d h. ground (arith, g.counts v d);
  keys = λ v. is_none-get v deg;
  seen_known = λ v h. ground (arith, zeros v, is_none-get v deg);
}
  where
    zeros : (v : String) → contains v (zero_degree deg) ≡ is_zero (BTreeMap.get v deg)
    zeros v = contains-zero_degree v deg g.sorted

    by_degree :
        {P : Type 0} (v : String)
        → ((d : ℕ) → BTreeMap.get v deg ≡ some d → P)
        → (BTreeMap.get v deg ≡ none → P)
        → P
    by_degree v f h = elim (Option-cases (BTreeMap.get v deg)) [ inl e ↦ h e | inr (d, e) ↦ f d e ]

pub kahn-Done :
    (es : List Edge) (ds : Dependents) (deg : Degrees)
    → (g : IsGraph es ds deg) → Done es (map (λ e. e.0) deg) ds g.ends (kahn ds deg)
unfolding kahn
kahn-Done es ds deg g =
    drain-Done es (map (λ e. e.0) deg) ds g.ends (suc (length deg)) deg (zero_degree deg) []
      (omega (arith, length-keys deg)) (Inv-start es ds deg g) tt
