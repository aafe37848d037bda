-- ===== src/Framework/History.antt =====
-- crates/llmfw/src/state.rs: what `rewind` finds after transitions.
use boruna.Prelude.{
  ℕ, zero, suc, ◌+◌, ◌==◌, ◌<◌, ◌≤◌, ◌≡◌, refl, sym, ap, ◌∙◌, String, List, [], ◌∷◌, ◌++◌, Option,
  some, ok, arith, length, length-append, get_elem?, push, ltb, if◌then◌else◌, Bool, true, false,
}
use mathlib.Core.List.{append-nil, append_assoc}
use boruna.Bytecode.Value.{Value}
use boruna.Framework.StateMachine
use boruna.Framework.StateMachine.{
  StateError, StateMachine, StateSnapshot, bounded, recorded, rewind, rewound, snapshot_of,
  transition,
}

recorded_cycle :
    (c : ℕ) (history : List StateSnapshot) (s : StateSnapshot)
    → recorded c history ≡ some s
    → s.cycle ≡ c
recorded_cycle c [] s e = absurd cc
recorded_cycle c (t ∷ rest) s e = go (t.cycle == c) refl e (recorded_cycle c rest s)
  where
    go :
        (b : Bool)
        → (t.cycle == c) ≡ b
        → (if b then some t else recorded c rest) ≡ some s
        → (recorded c rest ≡ some s → s.cycle ≡ c)
        → s.cycle ≡ c
    go true here e' h =
        let same : t ≡ s = cc in
        let cycle : t.cycle ≡ c = ground (arith, here) in
        sym (ap (λ (x : StateSnapshot). x.cycle) same) ∙ cycle
    go false here e' h = h e'

recorded-push :
    (c : ℕ) (history : List StateSnapshot) (s t : StateSnapshot)
    → recorded c history ≡ some s
    → recorded c (push history t) ≡ some s
recorded-push c [] s t e = absurd cc
recorded-push c (u ∷ rest) s t e = go (u.cycle == c) e (recorded-push c rest s t)
  where
    go :
        (b : Bool)
        → (if b then some u else recorded c rest) ≡ some s
        → (recorded c rest ≡ some s → recorded c (push rest t) ≡ some s)
        → (if b then some u else recorded c (push rest t)) ≡ some s
    go true e' h = e'
    go false e' h = h e'

module _ (to_string : Value → Option String) where
  -- one transition after the other
  abbrev pub transitions : List Value → StateMachine → StateMachine
  transitions [] sm = sm
  transitions (v ∷ vs) sm = transitions vs (transition to_string v sm)

  -- the snapshots of states in consecutive cycles
  numbered : ℕ → List Value → List StateSnapshot
  numbered k [] = []
  numbered k (v ∷ vs) = snapshot_of to_string k v ∷ numbered (suc k) vs

  history-transition :
      (v : Value) (sm : StateMachine)
      → length sm.history < sm.max_history
      → (transition to_string v sm).history
        ≡ push sm.history (snapshot_of to_string (suc sm.cycle) v)
  unfolding transition
  history-transition v sm h =
      let line = snapshot_of to_string (suc sm.cycle) v in
      let fits : ltb sm.max_history (length (push sm.history line)) ≡ false =
        ground (arith, length-append sm.history (line ∷ []), h) in
      rw fits refl

  history-transitions :
      (vs : List Value) (sm : StateMachine)
      → length sm.history + length vs ≤ sm.max_history
      → (transitions vs sm).history ≡ sm.history ++ numbered (suc sm.cycle) vs
  unfolding numbered transition
  history-transitions [] sm h = sym (append-nil sm.history)
  history-transitions (v ∷ vs) sm h =
      let line = snapshot_of to_string (suc sm.cycle) v in
      let first = history-transition v sm (omega (arith, h)) in
      history-transitions vs (transition to_string v sm)
        (omega (arith, h, ap length first, length-append sm.history (line ∷ [])))
      ∙ ap (λ l. l ++ numbered (suc (suc sm.cycle)) vs) first
      ∙ append_assoc sm.history (line ∷ []) (numbered (suc (suc sm.cycle)) vs)

  recorded-numbered :
      (i k c : ℕ) (vs : List Value) (v : Value)
      → get_elem? vs i ≡ some v
      → c ≡ k + i
      → recorded c (numbered k vs) ≡ some (snapshot_of to_string c v)
  unfolding numbered
  recorded-numbered i k c [] v at e = absurd cc
  recorded-numbered zero k c (w ∷ vs) v at e =
      let here : (k == c) ≡ true = ground (arith, e) in
      let same : w ≡ v = cc in
      let cycle : k ≡ c = omega (arith, e) in
      rw here (
        ap (λ n. some (snapshot_of to_string n w)) cycle
        ∙ ap (λ u. some (snapshot_of to_string c u)) same)
  recorded-numbered (suc i) k c (w ∷ vs) v at e =
      let other : (k == c) ≡ false = ground (arith, e) in
      rw other (recorded-numbered i (suc k) c vs v at (omega (arith, e)))

  -- After fewer than a thousand transitions from a first state, a rewind to any cycle so far succeeds,
  -- with the state of that cycle, and leaves the history as it is.
  pub rewind-transitions :
      (first : Value) (vs : List Value) (i : ℕ) (v : Value)
      → length vs < 1000
      → get_elem? (first ∷ vs) i ≡ some v
      → rewind i (transitions vs (StateMachine.new to_string first))
        ≡ ok (record (transitions vs (StateMachine.new to_string first)) { current = v; cycle = i })
  unfolding rewind StateMachine.new numbered
  rewind-transitions first vs i v h at =
      let sm = transitions vs (StateMachine.new to_string first) in
      ap (rewound i sm) (
        ap (recorded i)
          (history-transitions vs (StateMachine.new to_string first) (omega (arith, h)))
        ∙ recorded-numbered i 0 i (first ∷ vs) v at (omega arith))

  -- A rewind leaves the later snapshots in place. When the history is not full and holds a snapshot of
  -- the cycle after the target, then a rewind to the target, a transition to a new state and a rewind to
  -- the cycle of that transition end in the state of the old snapshot and not in the new state.
  pub rewind-transition-rewind :
      (target : ℕ) (sm : StateMachine) (s old : StateSnapshot) (v : Value)
      → recorded target sm.history ≡ some s
      → recorded (suc target) sm.history ≡ some old
      → length sm.history < sm.max_history
      → (back : StateMachine) × (rewind target sm ≡ ok back)
        × ((transition to_string v back).cycle ≡ suc target)
        × (rewind (suc target) (transition to_string v back)
            ≡ ok (record (transition to_string v back) { current = old.state; cycle = suc target }))
  unfolding rewind transition
  rewind-transition-rewind target sm s old v at later room =
      let back = record sm { current = s.state; cycle = s.cycle } in
      let line = snapshot_of to_string (suc s.cycle) v in
      let found =
        ap (recorded (suc target)) (history-transition v back room)
        ∙ recorded-push (suc target) sm.history old line later in
      (
        back,
        ap (rewound target sm) at,
        ap suc (recorded_cycle target sm.history s at),
        ap (rewound (suc target) (transition to_string v back)) found
            ∙ ap (λ n. ok (record (transition to_string v back) { current = old.state; cycle = n }))
                (recorded_cycle (suc target) sm.history old later),
      )
