-- ===== src/Conflict/Holding.antt =====
-- orchestrator/src/conflict/mod.rs: which operations end a lock, and what `check_conflicts` foretells.
use boruna.Prelude.{
  ◌≡◌, refl, sym, ap, ◌∙◌, String, Bool, true, false, not, List, [], ◌∷◌, Option, none, some,
  Result, ok, err, str_eq, if◌then◌else◌, arith, eq_iff, Result-cases, all, inl, inr,
}
use boruna.Prelude.BTreeMap
use boruna.Prelude.BTreeMap.{BTreeMap, get-remove, retain, remove}
use boruna.Prelude.SortedMap.{IsSorted, IsSorted-insert, IsSorted-retain, get-retain, kept}
use boruna.Prelude.BTreeSet.{contains}
use boruna.Conflict.LockTable.{
  LockEntry, LockConflict, LockTable, first_conflict, insert_all, acquire, release, force_release,
  check_conflicts,
}
use boruna.Conflict.Locking.{holder, holder_of, is_free_for, is_available, acquire_lem}

-- what `acquire` answers where `check_conflicts` gives this list
abbrev pub verdict : List LockConflict → Result (Unit {0}) LockConflict
verdict [] = ok tt
verdict (c ∷ _) = err c

abbrev answer : Option LockConflict → Result (Unit {0}) LockConflict
answer none = ok tt
answer (some c) = err c

first_conflict-verdict :
    (t : LockTable) (node_id : String) (modules : List String)
    → answer (first_conflict t node_id modules) ≡ verdict (check_conflicts t node_id modules)
unfolding first_conflict check_conflicts
first_conflict-verdict t node_id [] = refl
first_conflict-verdict t node_id (m ∷ rest) = ground (arith, first_conflict-verdict t node_id rest)

-- `acquire` answers with the first of the conflicts that `check_conflicts` lists, and succeeds if it
-- lists none.
acquire-check_conflicts :
    (t : LockTable) (node_id : String) (modules : List String) (timestamp : String)
    → (acquire t node_id modules timestamp).1 ≡ verdict (check_conflicts t node_id modules)
unfolding acquire
acquire-check_conflicts t node_id modules timestamp =
    ground (arith, first_conflict-verdict t node_id modules)

IsSorted-insert_all :
    (node_id timestamp : String) (modules : List String) (locks : BTreeMap LockEntry)
    → IsSorted locks
    → IsSorted (insert_all node_id timestamp modules locks)
unfolding insert_all
IsSorted-insert_all node_id timestamp [] locks s = s
IsSorted-insert_all node_id timestamp (m ∷ rest) locks s =
    let entry : LockEntry = record {
      module_path = m;
      held_by = node_id;
      acquired_at = timestamp;
    } in
    IsSorted-insert_all node_id timestamp rest (BTreeMap.insert m entry locks)
      (IsSorted-insert m entry locks s)

-- an operation on the table, and the table after it
pub data Operation : Type 0 where
  acquires : String → List String → String → Operation
  releases : String → Operation
  forces : String → Operation

abbrev pub run_one : Operation → LockTable → LockTable
run_one (acquires node_id modules timestamp) t = (acquire t node_id modules timestamp).0
run_one (releases node_id) t = release t node_id
run_one (forces m) t = force_release t m

abbrev pub run_all : List Operation → LockTable → LockTable
run_all [] t = t
run_all (o ∷ rest) t = run_all rest (run_one o t)

IsSorted-run_one : (o : Operation) (t : LockTable) → IsSorted t.locks → IsSorted (run_one o t).locks
unfolding acquire release force_release remove
IsSorted-run_one (acquires node_id modules timestamp) t s =
    ground (arith, IsSorted-insert_all node_id timestamp modules t.locks)
IsSorted-run_one (releases node_id) t s = IsSorted-retain _ t.locks s
IsSorted-run_one (forces m) t s = IsSorted-retain _ t.locks s

-- a holder after a release by a node
abbrev pub unless_held_by : String → Option String → Option String
unless_held_by node_id none = none
unless_held_by node_id (some n) = if str_eq n node_id then none else some n

-- In a table in the order of its keys, `release` frees the modules that the node holds, and no
-- other module.
holder-release :
    (t : LockTable) (node_id m : String)
    → IsSorted t.locks
    → holder (release t node_id) m ≡ unless_held_by node_id (holder t m)
unfolding release
holder-release t node_id m s =
    ap holder_of (get-retain (λ _ e. not (str_eq e.held_by node_id)) m t.locks s)
    ∙ at (BTreeMap.get m t.locks)
  where
    at :
        (o : Option LockEntry)
        → holder_of (kept (λ _ e. not (str_eq e.held_by node_id)) m o)
          ≡ unless_held_by node_id (holder_of o)
    at none = refl
    at (some e) = ground arith

-- the operations that may end the lock of a node on a module
abbrev pub ends_lock : String → String → Operation → Bool
ends_lock m n (acquires _ _ _) = false
ends_lock m n (releases node_id) = str_eq n node_id
ends_lock m n (forces other) = str_eq other m

all-contains :
    (p : String → Bool) (m : String) (ms : List String)
    → all p ms ≡ true
    → contains m ms ≡ true
    → p m ≡ true
unfolding contains
all-contains p m [] a h = cc
all-contains p m (i ∷ ms) a h = ground (arith, eq_iff i m, all-contains p m ms)

acquire-keeps :
    (t : LockTable) (node_id : String) (modules : List String) (timestamp m n : String)
    → holder t m ≡ some n
    → holder (acquire t node_id modules timestamp).0 m ≡ some n
acquire-keeps t node_id modules timestamp m n h =
    let lem = acquire_lem t node_id modules timestamp in
    elim (Result-cases (acquire t node_id modules timestamp).1) [
      | inl (tt, e) ↦
          let own : contains m modules ≡ true → str_eq n node_id ≡ true = λ k.
            ap (is_free_for node_id) (sym h)
            ∙ all-contains (is_available t node_id) m modules (lem.0.0 e) k in
          lem.1 e m ∙ ground (arith, own, eq_iff n node_id)
      | inr (c, e) ↦ ap (λ u. holder u m) (lem.2 (λ k. cc (sym k ∙ e))) ∙ h
    ]

one_keeps :
    (o : Operation) (t : LockTable) (m n : String)
    → IsSorted t.locks
    → ends_lock m n o ≡ false
    → holder t m ≡ some n
    → holder (run_one o t) m ≡ some n
unfolding force_release
one_keeps (acquires node_id modules timestamp) t m n s e h =
    acquire-keeps t node_id modules timestamp m n h
one_keeps (releases node_id) t m n s e h = holder-release t node_id m s ∙ ground arith
one_keeps (forces other) t m n s e h = ground (arith, get-remove other m t.locks)

-- In a table in the order of its keys, a node keeps its lock on a module until it is released by
-- the node or forced: no operation of another node takes it over.
pub run_all-keeps :
    (ops : List Operation) (t : LockTable) (m n : String)
    → IsSorted t.locks
    → all (λ o. not (ends_lock m n o)) ops ≡ true
    → holder t m ≡ some n
    → holder (run_all ops t) m ≡ some n
run_all-keeps [] t m n s e h = h
run_all-keeps (o ∷ ops) t m n s e h =
    run_all-keeps ops (run_one o t) m n (IsSorted-run_one o t s) (ground arith)
      (one_keeps o t m n s (ground arith) h)
