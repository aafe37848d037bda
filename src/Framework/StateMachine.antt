-- ===== src/Framework/StateMachine.antt =====
-- crates/llmfw/src/state.rs: `StateMachine`. The JSON forms of a state are `serde_json`, parameters;
-- the messages of the errors are kept as their data.
use boruna.Prelude.{
  ℕ, suc, String, List, [], ◌∷◌, ◌++◌, Option, none, some, Result, ok, err, ltb, ◌==◌,
  if◌then◌else◌, length, find, push, unwrap_or,
}
use boruna.Bytecode.Value.{Value, record_of, unit, value_eq}
use boruna.Machine.Builtins.{items_of}

pub record StateSnapshot : Type 0 where
  pub cycle : ℕ
  pub state : Value
  pub json : String

-- a field of the diff; its name is `field_` and the index, or `root`
pub data FieldName : Type 0 where
  field root : FieldName

pub record StateDiff : Type 0 where
  pub field_index : ℕ
  pub field_name : FieldName
  pub old_value : Value
  pub new_value : Value

pub record StateMachine : Type 0 where
  pub current : Value
  pub history : List StateSnapshot
  pub cycle : ℕ
  pub max_history : ℕ

pub data StateError : Type 0 where
  invalid_state_json : String → StateError
  not_in_history : ℕ → StateError

module _ (to_string : Value → Option String) where
  abbrev pub snapshot_of : ℕ → Value → StateSnapshot
  snapshot_of cycle v = record { cycle = cycle; state = v; json = unwrap_or "" (to_string v) }

  unfoldable pub new : Value → StateMachine
  new v = record { current = v; history = snapshot_of 0 v ∷ []; cycle = 0; max_history = 1000 }

  abbrev pub remove_first : List StateSnapshot → List StateSnapshot
  remove_first [] = []
  remove_first (s ∷ rest) = rest

  abbrev pub bounded : ℕ → List StateSnapshot → List StateSnapshot
  bounded max history = if ltb max (length history) then remove_first history else history

  unfoldable pub transition : Value → StateMachine → StateMachine
  transition v sm = record sm {
    cycle = suc sm.cycle;
    history = bounded sm.max_history (push sm.history (snapshot_of (suc sm.cycle) v));
    current = v;
  }

  abbrev pub restored : Result Value String → StateMachine → Result StateMachine StateError
  restored (ok v) sm = ok (transition v sm)
  restored (err e) sm = err (invalid_state_json e)

  unfoldable pub restore :
      (String → Result Value String) → String → StateMachine → Result StateMachine StateError
  unfolding transition
  restore parse json sm = restored (parse json) sm

abbrev pub recorded : ℕ → List StateSnapshot → Option StateSnapshot
recorded cycle history = find (λ s. s.cycle == cycle) history

abbrev pub rewound : ℕ → StateMachine → Option StateSnapshot → Result StateMachine StateError
rewound target sm none = err (not_in_history target)
rewound target sm (some s) = ok (record sm { current = s.state; cycle = s.cycle })

unfoldable pub rewind : ℕ → StateMachine → Result StateMachine StateError
rewind target sm = rewound target sm (recorded target sm.history)

abbrev pub differing : ℕ → Value → Value → List StateDiff
differing i o n =
    if value_eq o n
    then []
    else record { field_index = i; field_name = field; old_value = o; new_value = n } ∷ []

-- the fields of two records from an index on; a field that is not there counts as unit
unfoldable pub diff_fields : ℕ → List Value → List Value → List StateDiff
unfolding value_eq
diff_fields i [] [] = []
diff_fields i (o ∷ os) [] = differing i o unit ++ diff_fields (suc i) os []
diff_fields i [] (n ∷ ns) = differing i unit n ++ diff_fields (suc i) [] ns
diff_fields i (o ∷ os) (n ∷ ns) = differing i o n ++ diff_fields (suc i) os ns

unfoldable pub diff_values : Value → Value → List StateDiff
unfolding value_eq diff_fields items_of
diff_values (record_of a old) (record_of b new) = diff_fields 0 (items_of old) (items_of new)
diff_values old new =
    if value_eq old new
    then []
    else record { field_index = 0; field_name = root; old_value = old; new_value = new } ∷ []

abbrev pub diff_from : Option StateSnapshot → Value → List StateDiff
diff_from none current = []
diff_from (some s) current = diff_values s.state current

unfoldable pub diff_from_cycle : ℕ → StateMachine → List StateDiff
unfolding diff_values
diff_from_cycle cycle sm = diff_from (recorded cycle sm.history) sm.current
