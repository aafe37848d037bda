-- ===== src/Machine/Display.antt =====
-- crates/llmbc/src/value.rs: `Display` of a value.
use Prim.Native.String.{◌++◌}
use boruna.Prelude.{String, Bool, true, false}
use boruna.Bytecode.Value.{
  Value, unit, bool, int, float, string, nothing, just, okay, error, record_of, enum_of, list,
  map_of, actor_id, fn_ref, Values, nil, cons, Entries, end, entry,
}
use boruna.Machine.Platform.{Platform}
use boruna.Machine.Text.{show_nat, show_int}

abbrev bool_name : Bool → String
bool_name true = "true"
bool_name false = "false"

module _ (platform : Platform) where
  unfoldable mutual
    pub show_value : Value → String
    show_value unit = "()"
    show_value (bool b) = bool_name b
    show_value (int n) = show_int n
    show_value (float f) = platform.show_float f
    show_value (string s) = "\"" ++ s ++ "\""
    show_value nothing = "None"
    show_value (just v) = "Some(" ++ show_value v ++ ")"
    show_value (okay v) = "Ok(" ++ show_value v ++ ")"
    show_value (error v) = "Err(" ++ show_value v ++ ")"
    show_value (record_of type_id fields) =
        "Record#" ++ show_nat type_id ++ "{" ++ show_items fields ++ "}"
    show_value (enum_of type_id variant payload) =
        "Enum#" ++ show_nat type_id ++ "::" ++ show_nat variant ++ "(" ++ show_value payload ++ ")"
    show_value (list items) = "[" ++ show_items items ++ "]"
    show_value (map_of entries) = "{" ++ show_entries entries ++ "}"
    show_value (actor_id id) = "Actor#" ++ show_nat id
    show_value (fn_ref id) = "Fn#" ++ show_nat id

    pub show_items : Values → String
    show_items nil = ""
    show_items (cons v nil) = show_value v
    show_items (cons v (cons w rest)) = show_value v ++ ", " ++ show_items (cons w rest)

    pub show_entries : Entries → String
    show_entries end = ""
    show_entries (entry k v end) = k ++ ": " ++ show_value v
    show_entries (entry k v (entry j w rest)) =
        k ++ ": " ++ show_value v ++ ", " ++ show_entries (entry j w rest)
