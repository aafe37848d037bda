-- ===== src/Machine/Invokes.antt =====
-- crates/llmbc/src/module.rs: the answer of `transitively_invokes`.
use boruna.Prelude.{
  ℕ, zero, suc, ◌≡◌, refl, Bool, true, false, List, [], ◌∷◌, Option, none, some, arith, length,
  get_elem?, if◌then◌else◌, inl, inr, Bool-cases,
}
use boruna.Bytecode.Capability.{Capability}
use boruna.Machine.Opcode.{Op}
use boruna.Machine.Module.{Function, Module}
use boruna.Machine.Parts.{has_capability}
use boruna.Machine.Callgraph.{
  any_reaches, callee, contains, insert, or_rest, reach_callee, reaches_cap, transitively_invokes,
  visit,
}
use boruna.Machine.Visited.{callees, unvisited-le, with_callee}
use boruna.Machine.Reachable.{DeclaresAt, Reaches, covered_lacks, reaches_cap-Searches, stay, step}

module _ (m : Module) (cap : Capability) where
  -- a function that is reached and declares the capability
  abbrev pub Invokes : ℕ → Type 0
  Invokes i = (j : ℕ) × Reaches m i j × DeclaresAt m cap j

  -- a walk that finds something finds such a function
  abbrev Finds : (ℕ → List ℕ → Bool × List ℕ) → Type 0
  Finds reach = (c : ℕ) (v : List ℕ) → (reach c v).0 ≡ true → Invokes c

  abbrev Among : List ℕ → Type 0
  Among cs = (c : ℕ) × (contains c cs ≡ true) × Invokes c

  contains_self : (c : ℕ) (cs : List ℕ) → contains c (c ∷ cs) ≡ true
  unfolding contains
  contains_self c cs = ground arith

  Among-cons : (d : ℕ) (cs : List ℕ) → Among cs → Among (d ∷ cs)
  unfolding contains
  Among-cons d cs (c, inside, found) = (c, ground (arith, inside), found)

  reach_callee-Among :
      (reach : ℕ → List ℕ → Bool × List ℕ) (o : Option ℕ) (v cs : List ℕ)
      (rest : List ℕ → Bool × List ℕ)
      → Finds reach
      → ((w : List ℕ) → (rest w).0 ≡ true → Among cs)
      → (reach_callee reach o v rest).0 ≡ true
      → Among (with_callee o cs)
  reach_callee-Among reach none v cs rest s hr e = hr v e
  reach_callee-Among reach (some c) v cs rest s hr e = go (reach c v) (s c v) e
    where
      go :
          (r : Bool × List ℕ)
          → (r.0 ≡ true → Invokes c)
          → (or_rest r rest).0 ≡ true
          → Among (c ∷ cs)
      go (true, w) h e' = (c, contains_self c cs, h refl)
      go (false, w) h e' = Among-cons c cs (hr w e')

  any_reaches-Among :
      (reach : ℕ → List ℕ → Bool × List ℕ) (ops : List Op) (v : List ℕ)
      → Finds reach
      → (any_reaches reach ops v).0 ≡ true
      → Among (callees ops)
  unfolding any_reaches callees
  any_reaches-Among reach [] v s e = absurd cc
  any_reaches-Among reach (op ∷ ops) v s e =
      reach_callee-Among reach (callee op) v (callees ops) (any_reaches reach ops) s
        (λ w. any_reaches-Among reach ops w s) e

  visit-Invokes :
      (reach : ℕ → List ℕ → Bool × List ℕ) (idx : ℕ) (o : Option Function) (v : List ℕ)
      → Finds reach
      → get_elem? m.functions idx ≡ o
      → (visit cap reach o v).0 ≡ true
      → Invokes idx
  visit-Invokes reach idx none v s at e = absurd cc
  visit-Invokes reach idx (some f) v s at e = go (has_capability f cap) refl e
    where
      go :
          (b : Bool)
          → has_capability f cap ≡ b
          → (if b then (true, v) else any_reaches reach f.code v).0 ≡ true
          → Invokes idx
      go true h e' = (idx, stay idx, (f, at, h))
      go false h e' =
          let (c, called, (j, path, d)) = any_reaches-Among reach f.code v s e' in
          (j, step idx c j f at called path, d)

  reaches_cap-Finds : (k : ℕ) → Finds (reaches_cap m cap k)
  unfolding reaches_cap
  reaches_cap-Finds zero idx v e = absurd cc
  reaches_cap-Finds (suc k) idx v e = go (contains idx v) e (
      visit-Invokes (reaches_cap m cap k) idx (get_elem? m.functions idx) (insert idx v)
        (reaches_cap-Finds k) refl)
    where
      walked : Bool × List ℕ
      walked = visit cap (reaches_cap m cap k) (get_elem? m.functions idx) (insert idx v)

      go :
          (b : Bool)
          → (if b then (false, v) else walked).0 ≡ true
          → (walked.0 ≡ true → Invokes idx)
          → Invokes idx
      go true e' h = absurd cc
      go false e' h = h e'

  -- `transitively_invokes` answers yes exactly when the function reaches, by the calls and spawns that
  -- are written in the code of the functions on the way, a function that declares the capability.
  pub transitively_invokes_iff :
      (func_idx : ℕ)
      → (transitively_invokes m func_idx cap ≡ true → Invokes func_idx)
        × (Invokes func_idx → transitively_invokes m func_idx cap ≡ true)
  unfolding transitively_invokes
  transitively_invokes_iff func_idx =
      (reaches_cap-Finds (suc (length m.functions)) func_idx [], complete)
    where
      complete :
          Invokes func_idx → (reaches_cap m cap (suc (length m.functions)) func_idx []).0 ≡ true
      complete (j, path, d) =
          elim (Bool-cases (reaches_cap m cap (suc (length m.functions)) func_idx []).0) [
            | inl e ↦ e
            | inr e ↦
                let (cover, inside) =
                  reaches_cap-Searches m cap (suc (length m.functions)) func_idx []
                    (omega (arith, unvisited-le (length m.functions) [])) e in
                absurd (covered_lacks m cap _ func_idx j cover inside path d)
          ]
