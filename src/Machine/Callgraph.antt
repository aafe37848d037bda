-- ===== src/Machine/Callgraph.antt =====
-- crates/llmbc/src/module.rs: what a function reaches by its calls, `transitively_invokes`,
-- `needed_capabilities` and `over_declared_capabilities`. A `BTreeSet<u32>` is the list of its members
-- in ascending order. The walks are on fuel: each function is entered at most once.
use boruna.Prelude.{
  ℕ, zero, suc, Bool, true, false, not, ◌||◌, List, [], ◌∷◌, map, Option, none, some, ltb, ◌==◌,
  if◌then◌else◌, length, get_elem?, keep,
}
use boruna.Bytecode.Capability.{Capability, from_id, id}
use boruna.Machine.Opcode.{Op}
use boruna.Machine.Module.{Function, Module}
use boruna.Machine.Parts.{has_capability}

unfoldable pub contains : ℕ → List ℕ → Bool
contains k [] = false
contains k (j ∷ s) = (j == k) || contains k s

unfoldable pub insert : ℕ → List ℕ → List ℕ
insert k [] = k ∷ []
insert k (j ∷ s) =
    let later = insert k s in if ltb k j then k ∷ j ∷ s else if j == k then j ∷ s else j ∷ later

-- the function that an instruction calls or spawns, where it is written in it
abbrev pub callee : Op → Option ℕ
callee (Op.call c arity) = some c
callee (Op.spawn_actor c) = some c
callee _ = none

-- `any` over the code, with the visited set
abbrev pub or_rest : Bool × List ℕ → (List ℕ → Bool × List ℕ) → Bool × List ℕ
or_rest (true, v) k = (true, v)
or_rest (false, v) k = k v

abbrev pub reach_callee :
    (ℕ → List ℕ → Bool × List ℕ) → Option ℕ → List ℕ → (List ℕ → Bool × List ℕ) → Bool × List ℕ
reach_callee reach none v k = k v
reach_callee reach (some c) v k = or_rest (reach c v) k

unfoldable pub any_reaches : (ℕ → List ℕ → Bool × List ℕ) → List Op → List ℕ → Bool × List ℕ
any_reaches reach [] v = (false, v)
any_reaches reach (op ∷ ops) v = reach_callee reach (callee op) v (any_reaches reach ops)

abbrev pub visit :
    Capability → (ℕ → List ℕ → Bool × List ℕ) → Option Function → List ℕ → Bool × List ℕ
visit cap reach none v = (false, v)
visit cap reach (some f) v = if has_capability f cap then (true, v) else any_reaches reach f.code v

unfoldable pub reaches_cap : Module → Capability → ℕ → ℕ → List ℕ → Bool × List ℕ
unfolding contains insert any_reaches
reaches_cap m cap zero idx v = (false, v)
reaches_cap m cap (suc k) idx v =
    if contains idx v
    then (false, v)
    else visit cap (reaches_cap m cap k) (get_elem? m.functions idx) (insert idx v)

unfoldable pub transitively_invokes : Module → ℕ → Capability → Bool
unfolding reaches_cap
transitively_invokes m func_idx cap = (reaches_cap m cap (suc (length m.functions)) func_idx []).0

-- the identifiers of capabilities that are called, and the visited set
abbrev pub collect_op :
    (ℕ → List ℕ × List ℕ → List ℕ × List ℕ) → Op → List ℕ × List ℕ → List ℕ × List ℕ
collect_op walk (Op.cap_call cap_id arg_count) (out, v) = (insert cap_id out, v)
collect_op walk (Op.call c arity) s = walk c s
collect_op walk (Op.spawn_actor c) s = walk c s
collect_op walk _ s = s

unfoldable pub collect_code :
    (ℕ → List ℕ × List ℕ → List ℕ × List ℕ) → List Op → List ℕ × List ℕ → List ℕ × List ℕ
unfolding insert
collect_code walk [] s = s
collect_code walk (op ∷ ops) s = collect_code walk ops (collect_op walk op s)

abbrev pub collect_from :
    (ℕ → List ℕ × List ℕ → List ℕ × List ℕ) → Option Function → List ℕ × List ℕ → List ℕ × List ℕ
collect_from walk none s = s
collect_from walk (some f) s = collect_code walk f.code s

unfoldable pub collect_needed : Module → ℕ → ℕ → List ℕ × List ℕ → List ℕ × List ℕ
unfolding contains insert collect_code
collect_needed m zero idx s = s
collect_needed m (suc k) idx (out, v) =
    if contains idx v
    then (out, v)
    else collect_from (collect_needed m k) (get_elem? m.functions idx) (out, insert idx v)

-- `filter_map(Capability::from_id)`
abbrev pub with_known : Option Capability → List Capability → List Capability
with_known (some c) cs = c ∷ cs
with_known none cs = cs

unfoldable pub known_capabilities : List ℕ → List Capability
unfolding from_id
known_capabilities [] = []
known_capabilities (i ∷ ids) = with_known (from_id i) (known_capabilities ids)

unfoldable pub needed_capabilities : Module → ℕ → List Capability
unfolding collect_needed known_capabilities
needed_capabilities m func_idx =
    known_capabilities (collect_needed m (suc (length m.functions)) func_idx ([], [])).0

unfoldable pub sorted_set : List ℕ → List ℕ
unfolding insert
sorted_set [] = []
sorted_set (i ∷ ids) = insert i (sorted_set ids)

abbrev pub over_declared : Option Function → List ℕ → List Capability
over_declared none needed = []
over_declared (some f) needed =
    known_capabilities (sorted_set (keep (λ i. not (contains i needed)) (map id f.capabilities)))

unfoldable pub over_declared_capabilities : Module → ℕ → List Capability
unfolding needed_capabilities known_capabilities sorted_set contains id
over_declared_capabilities m func_idx =
    over_declared (get_elem? m.functions func_idx)
      (sorted_set (map id (needed_capabilities m func_idx)))
