-- ===== src/Conflict/Locking.antt =====
-- orchestrator/src/conflict/mod.rs: what `acquire` and `release` do to the holders of modules.
use boruna.Prelude.{
  ◌≡◌, ◌≢◌, ◌↔◌, inl, inr, refl, String, Bool, true, List, [], ◌∷◌, Option, none, some, ok, str_eq,
  if◌then◌else◌, arith, Option-cases, all,
}
use boruna.Prelude.BTreeMap
use boruna.Prelude.BTreeMap.{BTreeMap, get-insert, get-remove}
use boruna.Prelude.BTreeSet.{contains}
use boruna.Conflict.LockTable.{
  LockEntry, LockTable, conflict_at, first_conflict, insert_all, acquire,
}

-- the node that holds a module
abbrev pub holder_of : Option LockEntry → Option String
holder_of none = none
holder_of (some e) = some e.held_by

abbrev pub holder : LockTable → String → Option String
holder t m = holder_of (BTreeMap.get m t.locks)

-- a module that no other node holds
abbrev pub is_free_for : String → Option String → Bool
is_free_for node_id none = true
is_free_for node_id (some other) = str_eq other node_id

abbrev pub is_available : LockTable → String → String → Bool
is_available t node_id m = is_free_for node_id (holder t m)

free_iff :
    (node_id m : String) (o : Option LockEntry)
    → (conflict_at node_id m o ≡ none) ↔ (is_free_for node_id (holder_of o) ≡ true)
unfolding conflict_at
free_iff node_id m none = ground arith
free_iff node_id m (some e) = ground arith

first_conflict_iff :
    (t : LockTable) (node_id : String) (modules : List String)
    → (first_conflict t node_id modules ≡ none) ↔ (all (is_available t node_id) modules ≡ true)
unfolding first_conflict
first_conflict_iff t node_id [] = ground arith
first_conflict_iff t node_id (m ∷ rest) =
    ground (arith, free_iff node_id m (BTreeMap.get m t.locks), first_conflict_iff t node_id rest)

holder-insert_all :
    (node_id timestamp : String) (modules : List String) (locks : BTreeMap LockEntry) (m : String)
    → holder_of (BTreeMap.get m (insert_all node_id timestamp modules locks))
      ≡ (if contains m modules then some node_id else holder_of (BTreeMap.get m locks))
unfolding insert_all contains
holder-insert_all node_id timestamp [] locks m = refl
holder-insert_all node_id timestamp (i ∷ rest) locks m =
    let entry : LockEntry = record {
      module_path = i;
      held_by = node_id;
      acquired_at = timestamp;
    } in
    ground (
      arith,
      holder-insert_all node_id timestamp rest (BTreeMap.insert i entry locks) m,
      get-insert i m entry locks,
    )

-- `acquire` succeeds exactly if every module is free or held by the node itself. Then the node holds
-- these modules and no other module changes hands. Otherwise the table is left as it is.
pub acquire_lem :
    (t : LockTable) (node_id : String) (modules : List String) (timestamp : String)
    → let (t', r) = acquire t node_id modules timestamp in
      ((r ≡ ok tt) ↔ (all (is_available t node_id) modules ≡ true))
      × (r ≡ ok tt
          → (m : String) → holder t' m ≡ (if contains m modules then some node_id else holder t m))
      × (r ≢ ok tt → t' ≡ t)
unfolding acquire
acquire_lem t node_id modules timestamp = elim (Option-cases (first_conflict t node_id modules)) [
  | inl e ↦
      rw (e, acquire)
        (
          ground (arith, first_conflict_iff t node_id modules),
          λ _ m. holder-insert_all node_id timestamp modules t.locks m,
          λ n. absurd (n refl),
        )
  | inr (c, e) ↦
      rw (e, acquire) (ground (arith, first_conflict_iff t node_id modules), λ h. cc, λ _. refl)
]
