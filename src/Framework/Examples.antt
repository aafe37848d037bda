-- ===== src/Framework/Examples.antt =====
-- The state machine at a few states.
use boruna.Prelude.{ℕ, String, ◌≡◌, refl, [], ◌∷◌, Option, none, ok, arith}
use boruna.Prelude.Int.{pos}
use boruna.Bytecode.Value.{Value, int, record_of, nil, cons, unit, value_eq}
use boruna.Machine.Builtins.{items_of}
use boruna.Framework.StateMachine
use boruna.Framework.StateMachine.{
  StateMachine, StateSnapshot, diff_fields, diff_values, field, recorded, rewind, snapshot_of,
  transition,
}
use boruna.Framework.History.{rewind-transition-rewind, rewind-transitions, transitions}

abbrev no_text : Value → Option String
no_text v = none

abbrev state : ℕ → Value
state n = int (pos n)

rewind-transitions_example :
    rewind 1 (transitions no_text (state 8 ∷ state 9 ∷ []) (StateMachine.new no_text (state 7)))
    ≡ ok
        (record (transitions no_text
          (state 8 ∷ state 9 ∷ [])
          (StateMachine.new no_text (state 7))) { current = state 8; cycle = 1 })
rewind-transitions_example =
    rewind-transitions no_text (state 7) (state 8 ∷ state 9 ∷ []) 1 (state 8) (omega arith) refl

-- two cycles, of which the second is undone and done again
abbrev twice : StateMachine
twice = record {
  current = state 8;
  history = snapshot_of no_text 0 (state 7) ∷ snapshot_of no_text 1 (state 8) ∷ [];
  cycle = 1;
  max_history = 1000;
}

rewind-transition-rewind_example :
    (back : StateMachine) × (rewind 0 twice ≡ ok back)
    × ((transition no_text (state 9) back).cycle ≡ 1)
    × (rewind 1 (transition no_text (state 9) back)
        ≡ ok (record (transition no_text (state 9) back) { current = state 8; cycle = 1 }))
rewind-transition-rewind_example =
    rewind-transition-rewind no_text 0 twice (snapshot_of no_text 0 (state 7))
      (snapshot_of no_text 1 (state 8)) (state 9) refl refl (omega arith)

-- the second field is new
one_field_more :
    diff_values
      (record_of 0 (cons (state 1) nil))
      (record_of 0 (cons (state 1) (cons (state 2) nil)))
    ≡ record { field_index = 1; field_name = field; old_value = unit; new_value = state 2 } ∷ []
unfolding diff_values diff_fields value_eq items_of
one_field_more = refl
