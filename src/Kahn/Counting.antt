-- ===== src/Kahn/Counting.antt =====
-- Lists of distinct texts, and the counts of edges that the invariant of the loop is about.
use boruna.Prelude.{
  ℕ, suc, ◌+◌, ◌≤◌, ◌≡◌, refl, ◌∙◌, String, true, false, not, ◌&&◌, ◌||◌, List, [], ◌∷◌, arith,
  length, push, str_eq, eq_iff, if◌then◌else◌,
}
use boruna.Prelude.BTreeSet.{contains}
use boruna.Kahn.Loop.{Edge}

abbrev pub IsDistinct : List String → Type 0
IsDistinct [] = Unit
IsDistinct (x ∷ xs) = (contains x xs ≡ false) × IsDistinct xs

pub contains-push :
    (v x : String) (xs : List String) → contains v (push xs x) ≡ (contains v xs || str_eq x v)
unfolding contains
contains-push v x [] = ground arith
contains-push v x (y ∷ xs) = ground (arith, contains-push v x xs)

pub IsDistinct-push :
    (x : String) (xs : List String) → contains x xs ≡ false → IsDistinct xs → IsDistinct (push xs x)
unfolding contains
IsDistinct-push x [] h d = (refl, tt)
IsDistinct-push x (y ∷ xs) h d = (
  contains-push y x xs ∙ ground (arith, eq_iff x y, eq_iff y x),
  IsDistinct-push x xs (ground arith) d.1,
)

-- the list without the first occurrence of a text
abbrev drop_first : String → List String → List String
drop_first v [] = []
drop_first v (x ∷ xs) = if str_eq x v then xs else x ∷ drop_first v xs

length-drop_first :
    (v : String) (xs : List String)
    → contains v xs ≡ true
    → length xs ≡ suc (length (drop_first v xs))
unfolding contains
length-drop_first v [] h = cc
length-drop_first v (x ∷ xs) h = ground (arith, length-drop_first v xs)

contains-drop_first :
    (v w : String) (xs : List String)
    → str_eq v w ≡ false
    → contains w xs ≡ true
    → contains w (drop_first v xs) ≡ true
unfolding contains
contains-drop_first v w [] n h = h
contains-drop_first v w (x ∷ xs) n h =
    ground (arith, eq_iff x v, eq_iff x w, eq_iff v w, contains-drop_first v w xs)

-- Distinct members of a list are no more than it is long.
pub length-IsDistinct :
    (xs ys : List String)
    → IsDistinct xs
    → ((v : String) → contains v xs ≡ true → contains v ys ≡ true)
    → length xs ≤ length ys
unfolding contains
length-IsDistinct [] ys d h = omega arith
length-IsDistinct (x ∷ xs) ys d h =
    let here : contains x ys ≡ true = h x (ground (arith, eq_iff x x)) in
    omega (
      arith,
      length-drop_first x ys here,
      length-IsDistinct xs (drop_first x ys) d.1 (λ v k.
          contains-drop_first x v ys (ground (arith, eq_iff x v, d.0)) (h v (ground arith))),
    )

-- the number of occurrences
abbrev pub count : String → List String → ℕ
count v [] = 0
count v (x ∷ xs) = (if str_eq x v then 1 else 0) + count v xs

-- the ends of the edges from a node, in order
abbrev pub targets : String → List Edge → List String
targets u [] = []
targets u ((x, y) ∷ es) = let rest = targets u es in if str_eq x u then y ∷ rest else rest

-- the number of edges into a node from nodes that are not done
abbrev pub open_in : List Edge → List String → String → ℕ
open_in [] done v = 0
open_in ((x, y) ∷ es) done v =
    (if str_eq y v && not (contains x done) then 1 else 0) + open_in es done v

-- Once a node is done, its edges are open no more.
pub open_in-push :
    (es : List Edge) (done : List String) (id v : String)
    → contains id done ≡ false
    → open_in es done v ≡ open_in es (push done id) v + count v (targets id es)
open_in-push [] done id v h = refl
open_in-push ((x, y) ∷ es) done id v h =
    ground (arith, contains-push x id done, eq_iff x id, eq_iff id x, open_in-push es done id v)
