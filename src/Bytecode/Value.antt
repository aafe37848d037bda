-- ===== src/Bytecode/Value.antt =====
-- crates/llmbc/src/value.rs. An `f64` is the number of its 64 bits, a `Vec<Value>` inside a value
-- is a `Values`, and a `BTreeMap<String, Value>` is an `Entries` in the order of its keys.
use boruna.Prelude.{
  ℕ, zero, ◌%◌, ◌^◌, String, Bool, true, false, not, ◌&&◌, ◌||◌, ◌==◌, str_eq, ltb, List, [], ◌∷◌,
}
use boruna.Prelude.Int.{ℤ, pos, negsuc}

mutual
  pub data Value : Type 0 where
    unit : Value
    bool : Bool → Value
    int : ℤ → Value
    float : ℕ → Value
    string : String → Value
    nothing : Value
    just : Value → Value
    okay : Value → Value
    error : Value → Value
    record_of : ℕ → Values → Value
    enum_of : ℕ → ℕ → Value → Value
    list : Values → Value
    map_of : Entries → Value
    actor_id : ℕ → Value
    fn_ref : ℕ → Value

  pub data Values : Type 0 where
    nil : Values
    cons : Value → Values → Values

  pub data Entries : Type 0 where
    end : Entries
    entry : String → Value → Entries → Entries

-- `f != 0.0`: both zeros have no bit below the sign
unfoldable pub is_nonzero : ℕ → Bool
is_nonzero bits = not (bits % 2 ^ 63 == 0)

-- all exponent bits and a bit of the fraction
unfoldable pub is_nan : ℕ → Bool
is_nan bits = ltb 0x7FF0000000000000 (bits % 2 ^ 63)

-- `==` of two `f64`
unfoldable pub float_eq : ℕ → ℕ → Bool
unfolding is_nonzero is_nan
float_eq a b =
    not (is_nan a) && not (is_nan b) && (a == b || (not (is_nonzero a) && not (is_nonzero b)))

unfoldable pub int_eq : ℤ → ℤ → Bool
int_eq (pos a) (pos b) = a == b
int_eq (negsuc a) (negsuc b) = a == b
int_eq _ _ = false

unfoldable pub bool_eq : Bool → Bool → Bool
bool_eq true b = b
bool_eq false b = not b

unfoldable pub is_truthy : Value → Bool
unfolding is_nonzero
is_truthy unit = false
is_truthy (bool b) = b
is_truthy (int (pos zero)) = false
is_truthy (int _) = true
is_truthy (float f) = is_nonzero f
is_truthy (string s) = not (str_eq s "")
is_truthy nothing = false
is_truthy (just _) = true
is_truthy (okay _) = true
is_truthy (error _) = false
is_truthy (record_of _ _) = true
is_truthy (enum_of _ _ _) = true
is_truthy (list nil) = false
is_truthy (list (cons _ _)) = true
is_truthy (map_of end) = false
is_truthy (map_of (entry _ _ _)) = true
is_truthy (actor_id _) = true
is_truthy (fn_ref _) = true

unfoldable pub type_name : Value → String
type_name unit = "Unit"
type_name (bool _) = "Bool"
type_name (int _) = "Int"
type_name (float _) = "Float"
type_name (string _) = "String"
type_name nothing = "None"
type_name (just _) = "Some"
type_name (okay _) = "Ok"
type_name (error _) = "Err"
type_name (record_of _ _) = "Record"
type_name (enum_of _ _ _) = "Enum"
type_name (list _) = "List"
type_name (map_of _) = "Map"
type_name (actor_id _) = "ActorId"
type_name (fn_ref _) = "FnRef"

-- the derived `PartialEq`
unfoldable mutual
  unfolding float_eq int_eq bool_eq

  pub value_eq : Value → Value → Bool
  value_eq unit unit = true
  value_eq (bool a) (bool b) = bool_eq a b
  value_eq (int a) (int b) = int_eq a b
  value_eq (float a) (float b) = float_eq a b
  value_eq (string a) (string b) = str_eq a b
  value_eq nothing nothing = true
  value_eq (just a) (just b) = value_eq a b
  value_eq (okay a) (okay b) = value_eq a b
  value_eq (error a) (error b) = value_eq a b
  value_eq (record_of s a) (record_of t b) = s == t && values_eq a b
  value_eq (enum_of s i a) (enum_of t j b) = s == t && (i == j && value_eq a b)
  value_eq (list a) (list b) = values_eq a b
  value_eq (map_of a) (map_of b) = entries_eq a b
  value_eq (actor_id a) (actor_id b) = a == b
  value_eq (fn_ref a) (fn_ref b) = a == b
  value_eq _ _ = false

  pub values_eq : Values → Values → Bool
  values_eq nil nil = true
  values_eq (cons x a) (cons y b) = value_eq x y && values_eq a b
  values_eq _ _ = false

  pub entries_eq : Entries → Entries → Bool
  entries_eq end end = true
  entries_eq (entry j x a) (entry k y b) = str_eq j k && (value_eq x y && entries_eq a b)
  entries_eq _ _ = false

-- `==` of two `Vec<Value>`
unfoldable pub args_eq : List Value → List Value → Bool
args_eq [] [] = true
args_eq (x ∷ a) (y ∷ b) = value_eq x y && args_eq a b
args_eq _ _ = false
