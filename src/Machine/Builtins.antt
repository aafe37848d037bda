-- ===== src/Machine/Builtins.antt =====
-- crates/llmvm/src/vm.rs: the operations on lists, texts and maps, as functions of their operands.
use Prim.Native.String.{◌++◌}
use mathlib.Core.List as List
use text.Mathlib.Text
use boruna.Prelude.{
  ℕ, ◌-◌, String, Bool, true, false, List, [], ◌∷◌, map, Option, none, some, Result, ok, err, ◌==◌,
  if◌then◌else◌, length, get_elem?, push, unwrap_or, str_eq,
}
use boruna.Prelude.Int.{ℤ, pos, negsuc}
use boruna.Prelude.BTreeMap
use boruna.Prelude.BTreeMap.{BTreeMap}
use boruna.Bytecode.Value.{
  Value, bool, int, float, string, nothing, just, okay, error, record_of, list, map_of, Values, nil,
  cons, Entries, end, entry, type_name,
}
use boruna.Vm.Error.{VmError, type_error, index_out_of_bounds}
use boruna.Machine.Platform.{Platform}
use boruna.Machine.Text.{chars, join, split, replace, show_int}
use boruna.Machine.Arith.{is_string, blame}

-- a list in a value, and as a list
unfoldable pub items_of : Values → List Value
items_of nil = []
items_of (cons v vs) = v ∷ items_of vs

unfoldable pub values_of : List Value → Values
values_of [] = nil
values_of (v ∷ vs) = cons v (values_of vs)

unfoldable pub entries_of : Entries → BTreeMap Value
entries_of end = []
entries_of (entry k v rest) = (k, v) ∷ entries_of rest

unfoldable pub map_from : BTreeMap Value → Entries
map_from [] = end
map_from ((k, v) ∷ rest) = entry k v (map_from rest)

abbrev pub Answer : Type 0
Answer = Result Value VmError

abbrev pub wrong : String → Value → Answer
wrong expected v = err (type_error expected (type_name v))

abbrev pub strings : List String → Value
strings texts = list (values_of (map string texts))

-- a number of elements, as an `i64`
abbrev pub count_of : {A : Type 0} → List A → Value
count_of xs = int (pos (length xs))

abbrev pub old_list : ℕ
old_list = 0xFFFF

-- ListLen, ListGet and ListPush also read the old form of a list: a record of the type 0xFFFF
abbrev pub old_items : ℕ → Values → Option (List Value)
old_items type_id fields = if type_id == old_list then some (items_of fields) else none

abbrev pub any_items : Value → Option (List Value)
any_items (list items) = some (items_of items)
any_items (record_of type_id fields) = old_items type_id fields
any_items _ = none

unfoldable pub list_length : Value → Answer
unfolding items_of
list_length v = elim (any_items v) [ some items ↦ ok (count_of items) | none ↦ wrong "List" v ]

abbrev pub item_at : List Value → ℤ → Answer
item_at items (negsuc n) = err (index_out_of_bounds (negsuc n) (length items))
item_at items (pos n) = elim (get_elem? items n) [
  | some v ↦ ok v
  | none ↦ err (index_out_of_bounds (pos n) (length items))
]

unfoldable pub get_item : Value → Value → Answer
unfolding items_of
get_item v (int i) = elim (any_items v) [ some items ↦ item_at items i | none ↦ wrong "List" v ]
get_item v index = wrong "Int" index

unfoldable pub push_item : Value → Value → Answer
unfolding items_of values_of
push_item v x = elim (any_items v) [
  | some items ↦ ok (list (values_of (push items x)))
  | none ↦ wrong "List" v
]

unfoldable pub append_item : Value → Value → Answer
unfolding items_of values_of
append_item (list items) x = ok (list (values_of (push (items_of items) x)))
append_item v x = wrong "List" v

unfoldable pub length_of_list : Value → Answer
unfolding items_of
length_of_list (list items) = ok (count_of (items_of items))
length_of_list v = wrong "List" v

unfoldable pub is_empty_list : Value → Answer
is_empty_list (list nil) = ok (bool true)
is_empty_list (list (cons _ _)) = ok (bool false)
is_empty_list v = wrong "List" v

unfoldable pub head_of : Value → Answer
head_of (list nil) = ok nothing
head_of (list (cons v _)) = ok (just v)
head_of v = wrong "List" v

unfoldable pub tail_of : Value → Answer
tail_of (list nil) = ok (list nil)
tail_of (list (cons _ vs)) = ok (list vs)
tail_of v = wrong "List" v

abbrev pub is_list : Value → Bool
is_list (list _) = true
is_list _ = false

unfoldable pub concat_lists : Value → Value → Answer
unfolding items_of values_of
concat_lists (list a) (list b) = ok (list (values_of (List.◌++◌ (items_of a) (items_of b))))
concat_lists a b = blame is_list "List" a b

unfoldable pub reverse_list : Value → Answer
unfolding items_of values_of
reverse_list (list items) = ok (list (values_of (List.reverse (items_of items))))
reverse_list v = wrong "List" v

-- an operation on one text
abbrev pub on_text : (String → Value) → Value → Answer
on_text f (string s) = ok (f s)
on_text f v = wrong "String" v

-- an operation on two texts
abbrev pub on_texts : (String → String → Value) → Value → Value → Answer
on_texts f (string s) (string t) = ok (f s t)
on_texts f a b = blame is_string "String" a b

abbrev pub int_or_zero : Option ℤ → Value
int_or_zero n = int (unwrap_or (pos 0) n)

abbrev pub int_or_none : Option ℤ → Value
int_or_none none = nothing
int_or_none (some n) = just (int n)

abbrev pub float_or_none : Option ℕ → Value
float_or_none none = nothing
float_or_none (some f) = just (float f)

abbrev pub int_or_error : String → Option ℤ → Value
int_or_error s none = error (string ("invalid integer: " ++ s))
int_or_error s (some n) = okay (int n)

unfoldable pub int_text : Value → Answer
int_text (int n) = ok (string (show_int n))
int_text v = wrong "Int" v

unfoldable pub float_text : Platform → Value → Answer
float_text platform (float f) = ok (string (platform.show_float f))
float_text platform v = wrong "Float" v

unfoldable pub bool_text : Value → Answer
bool_text (bool true) = ok (string "true")
bool_text (bool false) = ok (string "false")
bool_text v = wrong "Bool" v

-- `collect` into a `Result`: the texts, or the error of the first that is none
unfoldable pub texts_of : List Value → Result (List String) VmError
texts_of [] = ok []
texts_of (string s ∷ rest) = elim (texts_of rest) [ ok texts ↦ ok (s ∷ texts) | err e ↦ err e ]
texts_of (v ∷ rest) = err (type_error "String" (type_name v))

unfoldable pub join_texts : Value → Value → Answer
unfolding items_of
join_texts (list items) (string separator) = elim (texts_of (items_of items)) [
  | ok texts ↦ ok (string (join separator texts))
  | err e ↦ err e
]
join_texts (list _) b = wrong "String" b
join_texts a _ = wrong "List" a

unfoldable pub split_text : Value → Value → Answer
unfolding values_of
split_text = on_texts (λ s sep. strings (if str_eq sep "" then chars s else split s sep))

unfoldable pub replace_text : Value → Value → Value → Answer
replace_text (string s) (string from) (string to) = ok (string (replace s from to))
replace_text _ _ _ = err (type_error "String" "non-String")

-- `as usize`
abbrev pub usize_of : ℤ → ℕ
usize_of (pos n) = n
usize_of (negsuc n) = 18446744073709551615 - n

unfoldable pub slice_text : Value → Value → Value → Answer
slice_text (string s) (int start) (int stop) =
    ok (string (unwrap_or "" (Text.get? s (usize_of start) (usize_of stop))))
slice_text _ _ _ = err (type_error "String, Int, Int" "wrong types")

-- an operation on a map and a key
abbrev pub on_key : (BTreeMap Value → String → Value) → Value → Value → Answer
on_key f (map_of m) (string k) = ok (f (entries_of m) k)
on_key f (map_of _) k = wrong "String" k
on_key f m _ = wrong "Map" m

abbrev pub value_or_none : Option Value → Value
value_or_none none = nothing
value_or_none (some v) = just v

unfoldable pub get_key : Value → Value → Answer
unfolding entries_of
get_key = on_key (λ m k. value_or_none (BTreeMap.get k m))

unfoldable pub set_key : Value → Value → Value → Answer
unfolding entries_of map_from
set_key m k v = on_key (λ es key. map_of (map_from (BTreeMap.insert key v es))) m k

unfoldable pub remove_key : Value → Value → Answer
unfolding entries_of map_from
remove_key = on_key (λ m k. map_of (map_from (BTreeMap.remove k m)))

unfoldable pub has_key : Value → Value → Answer
unfolding entries_of
has_key = on_key (λ m k. bool (BTreeMap.contains_key k m))

abbrev pub on_map : (BTreeMap Value → Value) → Value → Answer
on_map f (map_of m) = ok (f (entries_of m))
on_map f v = wrong "Map" v

unfoldable pub map_key_list : Value → Answer
unfolding entries_of values_of
map_key_list = on_map (λ m. strings (BTreeMap.keys m))

unfoldable pub map_value_list : Value → Answer
unfolding entries_of values_of
map_value_list = on_map (λ m. list (values_of (BTreeMap.values m)))

unfoldable pub map_length : Value → Answer
unfolding entries_of
map_length = on_map count_of
