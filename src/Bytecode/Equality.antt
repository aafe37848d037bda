-- ===== src/Bytecode/Equality.antt =====
-- crates/llmbc/src/value.rs: the laws of `==`.
use boruna.Prelude.{◌≡◌, refl, ap, Bool, true, false, not, ◌&&◌, ◌||◌, List, [], ◌∷◌, arith, eq_iff}
use boruna.Prelude.Int.{ℤ}
use boruna.Bytecode.Value.{
  Value, Values, Entries, unit, bool, int, float, string, nothing, just, okay, error, record_of,
  enum_of, list, map_of, actor_id, fn_ref, nil, cons, end, entry, is_nan, float_eq, int_eq, bool_eq,
  value_eq, values_eq, entries_eq, args_eq, is_truthy, type_name,
}

-- a NaN stands somewhere in the value
abbrev mutual
  pub has_nan : Value → Bool
  has_nan (float f) = is_nan f
  has_nan (just v) = has_nan v
  has_nan (okay v) = has_nan v
  has_nan (error v) = has_nan v
  has_nan (record_of t vs) = any_nan vs
  has_nan (enum_of t i v) = has_nan v
  has_nan (list vs) = any_nan vs
  has_nan (map_of es) = entry_nan es
  has_nan _ = false

  pub any_nan : Values → Bool
  any_nan nil = false
  any_nan (cons x r) = has_nan x || any_nan r

  pub entry_nan : Entries → Bool
  entry_nan end = false
  entry_nan (entry k x r) = has_nan x || entry_nan r

and_not : {a b : Bool} (p q : Bool) → a ≡ not p → b ≡ not q → (a && b) ≡ not (p || q)
and_not p q e f = ground arith

self_and : {a b q : Bool} → a ≡ true → b ≡ q → (a && b) ≡ q
self_and e f = ground arith

mutual
  unfolding value_eq values_eq entries_eq float_eq int_eq bool_eq

  value_eq_self : (v : Value) → value_eq v v ≡ not (has_nan v)
  value_eq_self unit = refl
  value_eq_self (bool b) = ground arith
  value_eq_self (int n) = ground arith
  value_eq_self (float f) = ground arith
  value_eq_self (string s) = ground (arith, eq_iff s s)
  value_eq_self nothing = refl
  value_eq_self (just v) = value_eq_self v
  value_eq_self (okay v) = value_eq_self v
  value_eq_self (error v) = value_eq_self v
  value_eq_self (record_of t vs) = self_and (ground arith) (values_eq_self vs)
  value_eq_self (enum_of t i v) =
      self_and (ground arith) (self_and (ground arith) (value_eq_self v))
  value_eq_self (list vs) = values_eq_self vs
  value_eq_self (map_of es) = entries_eq_self es
  value_eq_self (actor_id n) = ground arith
  value_eq_self (fn_ref n) = ground arith

  values_eq_self : (vs : Values) → values_eq vs vs ≡ not (any_nan vs)
  values_eq_self nil = refl
  values_eq_self (cons x r) = and_not _ _ (value_eq_self x) (values_eq_self r)

  entries_eq_self : (es : Entries) → entries_eq es es ≡ not (entry_nan es)
  entries_eq_self end = refl
  entries_eq_self (entry k x r) =
      self_and ((eq_iff k k).1 refl) (and_not _ _ (value_eq_self x) (entries_eq_self r))

-- A value equals itself exactly if no NaN stands in it.
value_eq_refl : (v : Value) → value_eq v v ≡ not (has_nan v)
value_eq_refl v = value_eq_self v

abbrev pub args_nan : List Value → Bool
args_nan [] = false
args_nan (x ∷ r) = has_nan x || args_nan r

pub args_eq_refl : (vs : List Value) → args_eq vs vs ≡ not (args_nan vs)
unfolding args_eq
args_eq_refl [] = refl
args_eq_refl (x ∷ r) = and_not _ _ (value_eq_self x) (args_eq_refl r)

int_eq→eq : (a b : ℤ) → int_eq a b ≡ true → a ≡ b
unfolding int_eq
int_eq→eq a b h = ground arith

-- Values that are equal have one type name and are both truthy or both not.
value_eq_agree :
    (a b : Value) → value_eq a b ≡ true → (type_name a ≡ type_name b) × (is_truthy a ≡ is_truthy b)
unfolding value_eq type_name is_truthy float_eq int_eq bool_eq values_eq entries_eq
value_eq_agree unit unit h = (refl, refl)
value_eq_agree (bool a) (bool b) h = ground arith
value_eq_agree (int a) (int b) h = (refl, ap (λ n. is_truthy (int n)) (int_eq→eq a b h))
value_eq_agree (float a) (float b) h = ground arith
value_eq_agree (string a) (string b) h = ground (arith, eq_iff a b)
value_eq_agree nothing nothing h = (refl, refl)
value_eq_agree (just a) (just b) h = (refl, refl)
value_eq_agree (okay a) (okay b) h = (refl, refl)
value_eq_agree (error a) (error b) h = (refl, refl)
value_eq_agree (record_of s a) (record_of t b) h = (refl, refl)
value_eq_agree (enum_of s i a) (enum_of t j b) h = (refl, refl)
value_eq_agree (list nil) (list nil) h = (refl, refl)
value_eq_agree (list (cons x a)) (list (cons y b)) h = (refl, refl)
value_eq_agree (map_of end) (map_of end) h = (refl, refl)
value_eq_agree (map_of (entry j x a)) (map_of (entry k y b)) h = (refl, refl)
value_eq_agree (actor_id a) (actor_id b) h = (refl, refl)
value_eq_agree (fn_ref a) (fn_ref b) h = (refl, refl)
value_eq_agree _ _ h = cc
