-- ===== src/Prelude/BTreeSet.antt =====
-- `std::collections::BTreeSet<String>`: the members in ascending order.
use Prim.Native.Nat.{Ordering}
use Prim.Native.String.{String, compare}
use mathlib.Core.Path.{◌≡◌}
use mathlib.Core.Bool.{Bool, false, ◌||◌}
use mathlib.Core.List.{List, [], ◌∷◌}
use native.Mathlib.Omega.{arith}
use text.Mathlib.TextEquality.{eq_iff, path_by_compare}
use boruna.Prelude.Tests.{str_eq}

abbrev pub BTreeSet : Type 0
BTreeSet = List String

unfoldable pub contains : String → List String → Bool
contains k [] = false
contains k (j ∷ s) = str_eq j k || contains k s

unfoldable pub insert : String → BTreeSet → BTreeSet
insert k [] = k ∷ []
insert k (j ∷ s) =
    let later = insert k s in
    elim (compare k j) [ Ordering.lt ↦ k ∷ j ∷ s | Ordering.eq ↦ j ∷ s | Ordering.gt ↦ j ∷ later ]

-- A member of the set after an insertion is the new one or an old one.
pub contains-insert :
    (k j : String) (s : BTreeSet) → contains j (insert k s) ≡ (str_eq k j || contains j s)
unfolding contains insert
contains-insert k j [] = ground arith
contains-insert k j (i ∷ s) =
    ground (arith, eq_iff k j, eq_iff i j, path_by_compare k i, contains-insert k j s)
