-- ===== src/Machine/Visited.antt =====
-- crates/llmbc/src/module.rs: the visited set of a walk over the call graph, and what is left of it.
use boruna.Prelude.{
  ℕ, zero, suc, ◌+◌, ◌==◌, ◌<◌, ◌≤◌, ◌≡◌, true, false, ◌||◌, List, [], ◌∷◌, Option, none, some,
  arith, length, get_elem?, if◌then◌else◌, inl, inr, Bool-cases,
}
use boruna.Machine.Opcode.{Op}
use boruna.Machine.Module.{Function}
use boruna.Machine.Callgraph.{callee, contains, insert}

pub contains-insert : (k j : ℕ) (s : List ℕ) → contains j (insert k s) ≡ ((k == j) || contains j s)
unfolding contains insert
contains-insert k j [] = ground arith
contains-insert k j (i ∷ s) = ground (arith, contains-insert k j s)

abbrev pub with_callee : Option ℕ → List ℕ → List ℕ
with_callee none cs = cs
with_callee (some c) cs = c ∷ cs

-- the functions that a code calls or spawns
unfoldable pub callees : List Op → List ℕ
callees [] = []
callees (op ∷ ops) = with_callee (callee op) (callees ops)

-- the functions not visited, below a bound
pub unvisited : ℕ → List ℕ → ℕ
unvisited zero v = 0
unvisited (suc n) v = (if contains n v then 0 else 1) + unvisited n v

pub unvisited-le : (n : ℕ) (v : List ℕ) → unvisited n v ≤ n
unfolding unvisited
unvisited-le zero v = omega arith
unvisited-le (suc n) v = ground (arith, unvisited-le n v)

abbrev pub Grows : List ℕ → List ℕ → Type 0
Grows v v' = (x : ℕ) → contains x v ≡ true → contains x v' ≡ true

pub unvisited-Grows : (n : ℕ) (v v' : List ℕ) → Grows v v' → unvisited n v' ≤ unvisited n v
unfolding unvisited
unvisited-Grows zero v v' g = omega arith
unvisited-Grows (suc n) v v' g = ground (arith, g n, unvisited-Grows n v v' g)

pub Grows-insert : (idx : ℕ) (v : List ℕ) → Grows v (insert idx v)
Grows-insert idx v x h = ground (arith, contains-insert idx x v, h)

pub unvisited-insert :
    (n idx : ℕ) (v : List ℕ)
    → idx < n
    → contains idx v ≡ false
    → unvisited n (insert idx v) < unvisited n v
unfolding unvisited
unvisited-insert zero idx v lt h = absurd (omega (arith, lt))
unvisited-insert (suc n) idx v lt h = elim (Bool-cases (idx == n)) [
  | inl e ↦ ground (
    arith,
    e,
    h,
    contains-insert idx n v,
    unvisited-Grows n v (insert idx v) (Grows-insert idx v),
  )
  | inr e ↦
      ground (arith, contains-insert idx n v, unvisited-insert n idx v (ground (arith, lt, e)) h)
]

pub get-lt-length :
    (i : ℕ) (fs : List Function) (f : Function) → get_elem? fs i ≡ some f → i < length fs
get-lt-length i [] f e = absurd cc
get-lt-length zero (g ∷ rest) f e = omega arith
get-lt-length (suc i) (g ∷ rest) f e = omega (arith, get-lt-length i rest f e)
