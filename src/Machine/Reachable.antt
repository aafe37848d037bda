-- ===== src/Machine/Reachable.antt =====
-- crates/llmbc/src/module.rs: `transitively_invokes` finds the functions that are reached by calls.
use mathlib.Core.Path.{subst}
use boruna.Prelude.{
  ℕ, zero, suc, ◌==◌, ◌<◌, ◌≡◌, refl, sym, ap, ◌∙◌, Bool, true, false, List, [], ◌∷◌, Option, none,
  some, arith, length, get_elem?, if◌then◌else◌, All, ◌⊎◌, inl, inr, Bool-cases,
}
use boruna.Bytecode.Capability.{Capability}
use boruna.Machine.Opcode.{Op}
use boruna.Machine.Module.{Function, Module}
use boruna.Machine.Parts.{has_capability}
use boruna.Machine.Callgraph.{
  any_reaches, callee, contains, insert, or_rest, reach_callee, reaches_cap, visit,
}
use boruna.Machine.Visited.{
  contains-insert, with_callee, callees, unvisited, Grows, unvisited-Grows, Grows-insert,
  unvisited-insert, get-lt-length,
}

module _ (m : Module) (cap : Capability) where
  -- a function that lacks the capability, with its callees in the set
  abbrev pub AllIn : List ℕ → List ℕ → Type 0
  AllIn v cs = All (λ c. contains c v ≡ true) cs

  AllIn-Grows : (v v' cs : List ℕ) → Grows v v' → AllIn v cs → AllIn v' cs
  AllIn-Grows v v' [] g h = tt
  AllIn-Grows v v' (c ∷ cs) g h = (g c h.0, AllIn-Grows v v' cs g h.1)

  abbrev pub Clean : List ℕ → ℕ → Type 0
  Clean v x =
      (f : Function)
      → get_elem? m.functions x ≡ some f
      → (has_capability f cap ≡ false) × AllIn v (callees f.code)

  -- what a walk that finds nothing adds to the visited set
  pub record Covers (v v' : List ℕ) : Type 0 where
    pub grows : Grows v v'
    pub clean : (x : ℕ) → contains x v' ≡ true → (contains x v ≡ true) ⊎ Clean v' x

  Covers-refl : (v : List ℕ) → Covers v v
  Covers-refl v = record { grows = λ x h. h; clean = λ x h. inl h }

  Covers-trans : (v v1 v2 : List ℕ) → Covers v v1 → Covers v1 v2 → Covers v v2
  Covers-trans v v1 v2 p q = record {
    grows = λ x h. q.grows x (p.grows x h);
    clean = λ x h. elim (q.clean x h) [
      | inr c ↦ inr c
      | inl h1 ↦ elim (p.clean x h1) [
        | inl h0 ↦ inl h0
        | inr c ↦ inr (λ f e.
            let (lacks, ins) = c f e in (lacks, AllIn-Grows v1 v2 (callees f.code) q.grows ins))
      ]
    ];
  }

  abbrev pub n : ℕ
  n = length m.functions

  -- a walk with enough fuel that finds nothing covers what it visits
  abbrev pub Searches : ℕ → (ℕ → List ℕ → Bool × List ℕ) → Type 0
  Searches k reach =
      (c : ℕ) (v : List ℕ)
      → unvisited n v < k
      → (reach c v).0 ≡ false
      → Covers v (reach c v).1 × (contains c (reach c v).1 ≡ true)

  abbrev Covered : List ℕ → List ℕ → Bool × List ℕ → Type 0
  Covered v cs r = r.0 ≡ false → Covers v r.1 × AllIn r.1 cs

  or_rest-Covered :
      (k c : ℕ) (v cs : List ℕ) (r : Bool × List ℕ) (rest : List ℕ → Bool × List ℕ)
      → unvisited n v < k
      → (r.0 ≡ false → Covers v r.1 × (contains c r.1 ≡ true))
      → ((w : List ℕ) → unvisited n w < k → Covered w cs (rest w))
      → Covered v (c ∷ cs) (or_rest r rest)
  or_rest-Covered k c v cs (true, w) rest lt h hr e = absurd cc
  or_rest-Covered k c v cs (false, w) rest lt h hr e =
      let (here, inside) = h refl in
      let less : unvisited n w < k = omega (arith, unvisited-Grows n v w here.grows, lt) in
      let (later, ins) = hr w less e in
      (Covers-trans v w (rest w).1 here later, (later.grows c inside, ins))

  reach_callee-Covered :
      (k : ℕ) (reach : ℕ → List ℕ → Bool × List ℕ) (o : Option ℕ) (v cs : List ℕ)
      (rest : List ℕ → Bool × List ℕ)
      → Searches k reach
      → unvisited n v < k
      → ((w : List ℕ) → unvisited n w < k → Covered w cs (rest w))
      → Covered v (with_callee o cs) (reach_callee reach o v rest)
  reach_callee-Covered k reach none v cs rest s lt hr = hr v lt
  reach_callee-Covered k reach (some c) v cs rest s lt hr =
      or_rest-Covered k c v cs (reach c v) rest lt (s c v lt) hr

  any_reaches-Covered :
      (k : ℕ) (reach : ℕ → List ℕ → Bool × List ℕ) (ops : List Op) (v : List ℕ)
      → Searches k reach
      → unvisited n v < k
      → Covered v (callees ops) (any_reaches reach ops v)
  unfolding any_reaches callees
  any_reaches-Covered k reach [] v s lt e = (Covers-refl v, tt)
  any_reaches-Covered k reach (op ∷ ops) v s lt e =
      reach_callee-Covered k reach (callee op) v (callees ops) (any_reaches reach ops) s lt
        (λ w less. any_reaches-Covered k reach ops w s less) e

  -- the visit of a function that was not visited, whatever stands at its place
  visit-Covers :
      (k idx : ℕ) (reach : ℕ → List ℕ → Bool × List ℕ) (o : Option Function) (v : List ℕ)
      → Searches k reach
      → get_elem? m.functions idx ≡ o
      → contains idx v ≡ false
      → unvisited n v < suc k
      → (visit cap reach o (insert idx v)).0 ≡ false
      → Covers v (visit cap reach o (insert idx v)).1
        × (contains idx (visit cap reach o (insert idx v)).1 ≡ true)
  visit-Covers k idx reach none v s at new lt e = (
    record { grows = Grows-insert idx v; clean = clean },
    ground (arith, contains-insert idx idx v),
  )
    where
      clean :
          (x : ℕ)
          → contains x (insert idx v) ≡ true
          → (contains x v ≡ true) ⊎ Clean (insert idx v) x
      clean x h = elim (Bool-cases (idx == x)) [
        | inr b ↦ inl (ground (arith, contains-insert idx x v, h, b))
        | inl b ↦
            let same : idx ≡ x = ground (arith, b) in
            inr
              (λ f there. let there' = ap (λ i. get_elem? m.functions i) same ∙ there in absurd cc)
      ]
  visit-Covers k idx reach (some f) v s at new lt e = go (has_capability f cap) refl e
    where
      entered : List ℕ
      entered = insert idx v

      walked : Bool × List ℕ
      walked = any_reaches reach f.code entered

      less : unvisited n entered < k
      less = omega (arith, unvisited-insert n idx v (get-lt-length idx m.functions f at) new, lt)

      covers :
          has_capability f cap ≡ false
          → Covers entered walked.1 × AllIn walked.1 (callees f.code)
          → Covers v walked.1 × (contains idx walked.1 ≡ true)
      covers lacks (inner, ins) = (
        record {
          grows = λ x h. inner.grows x (Grows-insert idx v x h);
          clean = λ x h. elim (inner.clean x h) [
            | inr c ↦ inr c
            | inl old ↦ elim (Bool-cases (idx == x)) [
              | inr b ↦ inl (ground (arith, contains-insert idx x v, old, b))
              | inl b ↦
                  let same : idx ≡ x = ground (arith, b) in
                  inr (λ g there.
                    let there' = ap (λ i. get_elem? m.functions i) same ∙ there in
                    let is : f ≡ g = cc in
                    subst (λ h. (has_capability h cap ≡ false) × AllIn walked.1 (callees h.code)) is
                      (lacks, ins))
            ]
          ];
        },
        inner.grows idx (ground (arith, contains-insert idx idx v)),
      )

      go :
          (b : Bool)
          → has_capability f cap ≡ b
          → (if b then (true, entered) else walked).0 ≡ false
          → Covers v (if b then (true, entered) else walked).1
            × (contains idx (if b then (true, entered) else walked).1 ≡ true)
      go true h e' = absurd cc
      go false h e' = covers h (any_reaches-Covered k reach f.code entered s less e')

  pub reaches_cap-Searches : (k : ℕ) → Searches k (reaches_cap m cap k)
  unfolding reaches_cap
  reaches_cap-Searches zero idx v lt e = absurd (omega (arith, lt))
  reaches_cap-Searches (suc k) idx v lt e = elim (Bool-cases (contains idx v)) [
    | inl old ↦ rw (old, reaches_cap) (Covers-refl v, old)
    | inr new ↦
        let ih = reaches_cap-Searches k in
        let opened : reaches_cap m cap (suc k) idx v
            ≡ visit cap (reaches_cap m cap k) (get_elem? m.functions idx) (insert idx v) =
          rw (new, reaches_cap) refl in
        let found =
          visit-Covers k idx (reaches_cap m cap k) (get_elem? m.functions idx) v ih refl new lt
            (sym (ap (λ r. r.0) opened) ∙ e) in
        subst (λ (r : Bool × List ℕ). Covers v r.1 × (contains idx r.1 ≡ true)) (sym opened) found
  ]

-- one function reaches another by the calls and spawns that are written in the code
pub data Reaches (m : Module) : ℕ → ℕ → Type 0 where
  stay : (i : ℕ) → Reaches m i i
  step :
      (i c j : ℕ) (f : Function)
      → get_elem? m.functions i ≡ some f
      → contains c (callees f.code) ≡ true
      → Reaches m c j
      → Reaches m i j

-- the function at a place declares the capability
abbrev pub DeclaresAt : Module → Capability → ℕ → Type 0
DeclaresAt m cap i =
    (f : Function) × (get_elem? m.functions i ≡ some f) × (has_capability f cap ≡ true)

module _ (m : Module) (cap : Capability) where
  AllIn-contains :
      (v cs : List ℕ) (c : ℕ) → AllIn m cap v cs → contains c cs ≡ true → contains c v ≡ true
  unfolding contains
  AllIn-contains v [] c h e = absurd cc
  AllIn-contains v (d ∷ cs) c h e = elim (Bool-cases (d == c)) [
    | inl b ↦ let same : d ≡ c = ground (arith, b) in subst (λ x. contains x v ≡ true) same h.0
    | inr b ↦ AllIn-contains v cs c h.1 (ground (arith, b, e))
  ]

  pub covered_lacks :
      (v : List ℕ) (i j : ℕ)
      → Covers m cap [] v
      → contains i v ≡ true
      → Reaches m i j
      → ¬ (DeclaresAt m cap j)
  unfolding contains
  covered_lacks v i _ cover inside (stay _) (f, there, has) = elim (cover.clean i inside) [
    | inl x ↦ cc
    | inr c ↦ let lacks = (c f there).0 in cc
  ]
  covered_lacks v i j cover inside (step _ c _ f there called rest) d =
      elim (cover.clean i inside) [
        | inl x ↦ cc
        | inr clean ↦
            covered_lacks v c j cover (AllIn-contains v (callees f.code) c (clean f there).1 called)
              rest d
      ]
