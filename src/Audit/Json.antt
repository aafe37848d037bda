-- ===== src/Audit/Json.antt =====
-- The JSON values of `serde_json`, and `blank_all_strings` of orchestrator/src/audit/log.rs.
use mathlib.Core.Option
use boruna.Prelude.{ℕ, String, Bool, Option, none, some, str_eq, if◌then◌else◌}

mutual
  pub data Json : Type 0 where
    null : Json
    bool : Bool → Json
    number : ℕ → Json
    string : String → Json
    array : Items → Json
    object : Members → Json

  pub data Items : Type 0 where
    nil : Items
    cons : Json → Items → Items

  pub data Members : Type 0 where
    end : Members
    member : String → Json → Members → Members

abbrev pub redaction_sentinel : String
redaction_sentinel = "[REDACTED]"

unfoldable mutual
  pub blank_all_strings : Json → Json
  blank_all_strings null = null
  blank_all_strings (bool b) = bool b
  blank_all_strings (number n) = number n
  blank_all_strings (string s) = string redaction_sentinel
  blank_all_strings (array a) = array (blank_items a)
  blank_all_strings (object o) = object (blank_members o)

  pub blank_items : Items → Items
  blank_items nil = nil
  blank_items (cons x r) = cons (blank_all_strings x) (blank_items r)

  pub blank_members : Members → Members
  blank_members end = end
  blank_members (member k x r) = member k (blank_all_strings x) (blank_members r)

-- `fields.get_mut(name)` followed by `blank_all_strings(target)`; `none` if the name is absent
unfoldable pub blank_field : String → Members → Option Members
unfolding blank_all_strings
blank_field k end = none
blank_field k (member j x r) =
    let later = Option.map (member j x) (blank_field k r) in
    if str_eq j k then some (member j (blank_all_strings x) r) else later
