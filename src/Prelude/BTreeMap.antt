-- ===== src/Prelude/BTreeMap.antt =====
-- `std::collections::BTreeMap<String, V>`: the entries in ascending order of their keys. A key
-- is inserted at its place in that order, and iteration goes along the list.
use Prim.Native.Nat.{Ordering}
use Prim.Native.String.{String, compare}
use mathlib.Core.Path.{◌≡◌, refl}
use mathlib.Core.Bool.{Bool, not}
use mathlib.Core.Option.{Option, none, some}
use mathlib.Core.List.{List, [], ◌∷◌, map}
use native.Mathlib.Omega.{arith}
use text.Mathlib.TextEquality.{eq_iff, path_by_compare}
use boruna.Prelude.Tests.{str_eq, if◌then◌else◌, is_none}

abbrev pub BTreeMap {ℓ} : Type ℓ → Type ℓ
BTreeMap V = List (String × V)

module _ {ℓ} {V : Type ℓ} where
  unfoldable pub get : String → BTreeMap V → Option V
  get k [] = none
  get k ((j, v) ∷ m) = if str_eq j k then some v else get k m

  abbrev pub contains_key : String → BTreeMap V → Bool
  contains_key k m = not (is_none (get k m))

  unfoldable pub insert : String → V → BTreeMap V → BTreeMap V
  insert k v [] = (k, v) ∷ []
  insert k v ((j, w) ∷ m) =
      let later = insert k v m in
      elim (compare k j) [
        | Ordering.lt ↦ (k, v) ∷ (j, w) ∷ m
        | Ordering.eq ↦ (k, v) ∷ m
        | Ordering.gt ↦ (j, w) ∷ later
      ]

  -- `retain`: the entries that pass the test
  unfoldable pub retain : (String → V → Bool) → BTreeMap V → BTreeMap V
  retain p [] = []
  retain p ((j, v) ∷ m) = let rest = retain p m in if p j v then (j, v) ∷ rest else rest

  unfoldable pub remove : String → BTreeMap V → BTreeMap V
  unfolding retain
  remove k m = retain (λ j _. not (str_eq j k)) m

  unfoldable pub keys : BTreeMap V → List String
  keys m = map (λ e. e.0) m

  unfoldable pub values : BTreeMap V → List V
  values m = map (λ e. e.1) m

  pub get-empty : (k : String) → get k [] ≡ none
  unfolding get
  get-empty k = refl

  -- A read after an insertion.
  pub get-insert :
      (k j : String) (v : V) (m : BTreeMap V)
      → get j (insert k v m) ≡ (if str_eq k j then some v else get j m)
  unfolding get insert
  get-insert k j v [] = refl
  get-insert k j v ((i, w) ∷ m) =
      ground (arith, eq_iff k j, eq_iff i j, eq_iff k i, path_by_compare k i, get-insert k j v m)

  pub get-remove :
      (k j : String) (m : BTreeMap V) → get j (remove k m) ≡ (if str_eq k j then none else get j m)
  unfolding get remove
  get-remove k j [] = ground arith
  get-remove k j ((i, w) ∷ m) = ground (arith, eq_iff k j, eq_iff i j, eq_iff i k, get-remove k j m)

pub ruleset map_laws = (get-empty, get-insert, get-remove)
