-- ===== src/Prelude/SortedMap.antt =====
-- A `BTreeMap` keeps its keys in strictly ascending order, which `retain` and `remove` rest on.
use Prim.Native.Nat.{Ordering}
use Prim.Native.String.{String, compare}
use mathlib.Core.Path.{◌≡◌, refl}
use mathlib.Core.Bool.{Bool}
use mathlib.Core.Option.{Option, none, some}
use mathlib.Core.List.{[], ◌∷◌}
use native.Mathlib.Omega.{arith}
use text.Mathlib.TextEquality.{eq_iff, path_by_compare}
use text.Mathlib.TextPositions.{compare_refl}
use boruna.Prelude.Tests.{if◌then◌else◌}
use boruna.Prelude.Order.{lt_trans, gt_flip}
use boruna.Prelude.BTreeMap.{BTreeMap, get, insert, retain}

module _ {ℓ} {V : Type ℓ} where
  abbrev pub Above : String → BTreeMap V → Type 0
  Above k [] = Unit
  Above k ((j, v) ∷ m) = (compare k j ≡ Ordering.lt) × Above k m

  abbrev pub IsSorted : BTreeMap V → Type 0
  IsSorted [] = Unit
  IsSorted ((k, v) ∷ m) = Above k m × IsSorted m

  Above-trans : (i k : String) (m : BTreeMap V) → compare i k ≡ Ordering.lt → Above k m → Above i m
  Above-trans i k [] h a = tt
  Above-trans i k ((j, v) ∷ m) h a = (lt_trans i k j h a.0, Above-trans i k m h a.1)

  Above-insert :
      (i k : String) (v : V) (m : BTreeMap V)
      → compare i k ≡ Ordering.lt
      → Above i m
      → Above i (insert k v m)
  unfolding insert
  Above-insert i k v [] h a = (h, tt)
  Above-insert i k v ((j, w) ∷ m) h a = ground (arith, Above-insert i k v m)

  pub IsSorted-insert : (k : String) (v : V) (m : BTreeMap V) → IsSorted m → IsSorted (insert k v m)
  unfolding insert
  IsSorted-insert k v [] s = (tt, tt)
  IsSorted-insert k v ((j, w) ∷ m) s = ground (
    arith,
    gt_flip k j,
    path_by_compare k j,
    Above-insert j k v m,
    IsSorted-insert k v m,
    Above-trans k j m,
  )

  Above-retain :
      (p : String → V → Bool) (i : String) (m : BTreeMap V) → Above i m → Above i (retain p m)
  unfolding retain
  Above-retain p i [] a = tt
  Above-retain p i ((j, v) ∷ m) a = ground (arith, Above-retain p i m)

  pub IsSorted-retain :
      (p : String → V → Bool) (m : BTreeMap V) → IsSorted m → IsSorted (retain p m)
  unfolding retain
  IsSorted-retain p [] s = tt
  IsSorted-retain p ((j, v) ∷ m) s = ground (arith, Above-retain p j m, IsSorted-retain p m)

  get-Above : (k : String) (m : BTreeMap V) → Above k m → get k m ≡ none
  unfolding get
  get-Above k [] a = refl
  get-Above k ((j, v) ∷ m) a = ground (arith, eq_iff j k, compare_refl k, get-Above k m)

  abbrev pub kept : (String → V → Bool) → String → Option V → Option V
  kept p k none = none
  kept p k (some v) = if p k v then some v else none

  -- A read after `retain` of a map in order.
  pub get-retain :
      (p : String → V → Bool) (k : String) (m : BTreeMap V)
      → IsSorted m
      → get k (retain p m) ≡ kept p k (get k m)
  unfolding get retain
  get-retain p k [] s = refl
  get-retain p k ((j, v) ∷ m) s =
      ground (arith, eq_iff j k, get-Above k (retain p m), Above-retain p k m, get-retain p k m)
