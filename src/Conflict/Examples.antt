-- ===== src/Conflict/Examples.antt =====
-- The lock table at concrete inputs: one node holds two modules, another asks for one of them.
use boruna.Prelude.{
  ◌≡◌, ◌≢◌, ◌↔◌, refl, String, true, List, [], ◌∷◌, some, ok, err, all, if◌then◌else◌,
}
use boruna.Prelude.BTreeMap
use boruna.Prelude.BTreeSet.{contains}
use boruna.Conflict.LockTable.{
  LockTable, LockConflict, acquire, conflict_at, first_conflict, insert_all, display,
}
use boruna.Conflict.Locking.{holder, is_available, acquire_lem}
use boruna.Conflict.Holding.{Operation, acquires, releases, forces, run_all, run_all-keeps}

abbrev first_holds : LockTable
first_holds = record {
  locks =
      ("compiler", record { module_path = "compiler"; held_by = "WN-001"; acquired_at = "t0" })
      ∷ ("vm", record { module_path = "vm"; held_by = "WN-001"; acquired_at = "t0" })
      ∷ [];
}

acquired_both :
    (acquire (record { locks = [] }) "WN-001" ("vm" ∷ "compiler" ∷ []) "t0").0 ≡ first_holds
unfolding acquire first_conflict conflict_at insert_all BTreeMap.get BTreeMap.insert
acquired_both = refl

abbrev refused : LockConflict
refused = record { module_path = "vm"; requested_by = "WN-002"; held_by = "WN-001" }

second_refused : acquire first_holds "WN-002" ("docs" ∷ "vm" ∷ []) "t1" ≡ (first_holds, err refused)
unfolding acquire first_conflict conflict_at BTreeMap.get
second_refused = refl

refusal_text :
    display refused ≡ "lock conflict: module 'vm' requested by 'WN-002' but held by 'WN-001'"
unfolding display
refusal_text = refl

acquire_lem_example :
    let (t', r) = acquire first_holds "WN-001" ("vm" ∷ []) "t1" in
    ((r ≡ ok tt) ↔ (all (is_available first_holds "WN-001") ("vm" ∷ []) ≡ true))
    × (r ≡ ok tt
        → (m : String)
        → holder t' m ≡ (if contains m ("vm" ∷ []) then some "WN-001" else holder first_holds m))
    × (r ≢ ok tt → t' ≡ first_holds)
acquire_lem_example = acquire_lem first_holds "WN-001" ("vm" ∷ []) "t1"

abbrev others_operate : List Operation
others_operate = acquires "WN-002" ("vm" ∷ []) "t1" ∷ releases "WN-002" ∷ forces "compiler" ∷ []

run_all-keeps_example : holder (run_all others_operate first_holds) "vm" ≡ some "WN-001"
unfolding BTreeMap.get
run_all-keeps_example =
    run_all-keeps others_operate first_holds "vm" "WN-001" ((refl, tt), (tt, tt)) refl refl
