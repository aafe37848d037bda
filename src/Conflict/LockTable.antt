-- ===== src/Conflict/LockTable.antt =====
-- orchestrator/src/conflict/mod.rs: `LockTable`. An operation returns the new table.
use Prim.Native.String.{◌++◌}
use boruna.Prelude.{
  String, not, List, [], ◌∷◌, Option, none, some, Result, ok, err, str_eq, if◌then◌else◌,
}
use boruna.Prelude.BTreeMap
use boruna.Prelude.BTreeMap.{BTreeMap}

pub record LockEntry : Type 0 where
  pub module_path : String
  pub held_by : String
  pub acquired_at : String

pub record LockConflict : Type 0 where
  pub module_path : String
  pub requested_by : String
  pub held_by : String

pub record LockTable : Type 0 where
  pub locks : BTreeMap LockEntry

abbrev pub new : LockTable
new = record { locks = [] }

-- the conflict that one module is in, if it is held by another node
unfoldable pub conflict_at : String → String → Option LockEntry → Option LockConflict
conflict_at node_id m none = none
conflict_at node_id m (some e) =
    if str_eq e.held_by node_id
    then none
    else some (record { module_path = m; requested_by = node_id; held_by = e.held_by })

-- the first loop of `acquire`: the first conflict ends it
unfoldable pub first_conflict : LockTable → String → List String → Option LockConflict
first_conflict t node_id [] = none
first_conflict t node_id (m ∷ rest) =
    let later = first_conflict t node_id rest in
    elim (conflict_at node_id m (BTreeMap.get m t.locks)) [ some c ↦ some c | none ↦ later ]

-- the second loop of `acquire`
unfoldable pub insert_all : String → String → List String → BTreeMap LockEntry → BTreeMap LockEntry
insert_all node_id timestamp [] locks = locks
insert_all node_id timestamp (m ∷ rest) locks = insert_all node_id timestamp rest (
    BTreeMap.insert m (record { module_path = m; held_by = node_id; acquired_at = timestamp })
      locks)

unfoldable pub acquire :
    LockTable → String → List String → String → LockTable × Result (Unit {0}) LockConflict
acquire t node_id modules timestamp = elim (first_conflict t node_id modules) [
  | some c ↦ (t, err c)
  | none ↦ (record t { locks = insert_all node_id timestamp modules t.locks }, ok tt)
]

unfoldable pub release : LockTable → String → LockTable
release t node_id = record t {
  locks = BTreeMap.retain (λ _ e. not (str_eq e.held_by node_id)) t.locks;
}

unfoldable pub force_release : LockTable → String → LockTable
force_release t m = record t { locks = BTreeMap.remove m t.locks }

unfoldable pub check_conflicts : LockTable → String → List String → List LockConflict
check_conflicts t node_id [] = []
check_conflicts t node_id (m ∷ rest) =
    let later = check_conflicts t node_id rest in
    elim (conflict_at node_id m (BTreeMap.get m t.locks)) [ some c ↦ c ∷ later | none ↦ later ]

unfoldable pub active_locks : LockTable → List LockEntry
active_locks t = BTreeMap.values t.locks

unfoldable pub display : LockConflict → String
display c =
    "lock conflict: module '" ++ c.module_path ++ "' requested by '" ++ c.requested_by
    ++ "' but held by '" ++ c.held_by ++ "'"
