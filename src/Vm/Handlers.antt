-- ===== src/Vm/Handlers.antt =====
-- crates/llmvm/src/capability_gateway.rs: the handlers that the host installs.
use mathlib.Core.Option
use Prim.Native.String.{◌++◌, slice}
use text.Mathlib.Text.{find?}
use boruna.Prelude.{
  ℕ, ◌+◌, String, Bool, true, false, List, Option, none, some, Result, ok, err, get_elem?, str_eq,
  if◌then◌else◌,
}
use boruna.Prelude.BTreeMap
use boruna.Prelude.BTreeMap.{BTreeMap}
use boruna.Bytecode.Capability.{Capability, step_input, llm_call}
use boruna.Bytecode.Value.{Value, string, type_name}
use boruna.Vm.Gateway.{Handler}

-- `ReplayHandler`: the recorded results, and how many were served
pub record ReplayHandler : Type 0 where
  pub events : List Value
  pub cursor : ℕ

abbrev pub replay_new : List Value → ReplayHandler
replay_new events = record { events = events; cursor = 0 }

unfoldable pub replay_handle : Handler ReplayHandler
replay_handle s c args = elim (get_elem? s.events s.cursor) [
  | some v ↦ (ok v, record s { cursor = s.cursor + 1 })
  | none ↦ (err "replay log exhausted", s)
]

abbrev is_step_input : Capability → Bool
is_step_input step_input = true
is_step_input _ = false

abbrev pub is_llm_call : Capability → Bool
is_llm_call llm_call = true
is_llm_call _ = false

-- `StepInputHandler`: the resolved inputs of a step over an inner handler
pub record StepInputHandler (S : Type 0) : Type 0 where
  pub inputs : BTreeMap Value
  pub inner : S

-- `to_json` is `serde_json::to_string`, and `debug` prints a list as `{:?}` does.
module _ {S : Type 0} (handle : Handler S) (to_json : Value → Result String String)
    (debug : List String → String) where
  unfoldable pub read_input : BTreeMap Value → Option Value → Result Value String
  read_input inputs (some (string name)) = elim (BTreeMap.get name inputs) [
    | some value ↦ elim (to_json value) [
      | ok json ↦ ok (string json)
      | err e ↦ err ("step.input: serialize '" ++ name ++ "': " ++ e)
    ]
    | none ↦ err (
        "step.input: unknown name '"
        ++ name
        ++ "' (declared inputs: "
        ++ debug (BTreeMap.keys inputs)
        ++ ")")
  ]
  read_input inputs _ = err "step.input: expected String argument (input name)"

  unfoldable pub step_input_handle : Handler (StepInputHandler S)
  step_input_handle s c args = elim (is_step_input c) [
    | true ↦ (read_input s.inputs (get_elem? args 0), s)
    | false ↦ let (r, inner) = handle s.inner c args in (r, record s { inner = inner })
  ]

-- `LlmRouterHandler`: the states of the providers by name, and that of the fallback
pub record LlmRouterHandler (P F : Type 0) : Type 0 where
  pub providers : BTreeMap P
  pub fallback : F

-- `add_provider`, which also returns the handler that had the name
unfoldable pub add_provider :
    {P F : Type 0} → String → P → LlmRouterHandler P F → LlmRouterHandler P F × Option P
add_provider name p s =
    (record s { providers = BTreeMap.insert name p s.providers }, BTreeMap.get name s.providers)

-- what stands before the first `/`
unfoldable pub split_provider : String → Option String
split_provider model = Option.map (λ i. slice model 0 i) (find? model "/")

-- the provider that `args[1]` names, or the message of the refusal
module _ (debug : List String → String) where
  unfoldable pub route : List String → Option Value → Result String String
  route registered none = err (
      "llm router: llm.call requires a model name as args[1] in 'provider/model' format (e.g. 'openai/gpt-4')")
  route registered (some (string model)) =
      let malformed : Result String String = err (
        "llm router: model '"
        ++ model
        ++ "' must be in 'provider/model' format (e.g. 'openai/gpt-4'). Registered providers: "
        ++ debug registered) in
      elim (split_provider model) [
        | none ↦ malformed
        | some provider ↦ if str_eq provider "" then malformed else ok provider
      ]
  route registered (some other) =
      err ("llm router: args[1] (model) must be a String, got " ++ type_name other)

  module _ {P F : Type 0} (provide : String → Handler P) (handle : Handler F) where
    -- the call to the provider of a name, or the refusal of an unknown name
    unfoldable pub forward :
        LlmRouterHandler P F
        → Capability
        → List Value
        → String
        → Option P
        → Result Value String × LlmRouterHandler P F
    forward s c args name none = (
      err (
          "llm router: unknown provider '"
          ++ name
          ++ "' (registered: "
          ++ debug (BTreeMap.keys s.providers)
          ++ ")"),
      s,
    )
    forward s c args name (some p) =
        let (r, p') = provide name p c args in
        (r, record s { providers = BTreeMap.insert name p' s.providers })

    unfoldable pub router_handle : Handler (LlmRouterHandler P F)
    router_handle s c args = elim (is_llm_call c) [
      | false ↦
          let (r, fallback) = handle s.fallback c args in (r, record s { fallback = fallback })
      | true ↦ elim (route (BTreeMap.keys s.providers) (get_elem? args 1)) [
        | err e ↦ (err e, s)
        | ok name ↦ forward s c args name (BTreeMap.get name s.providers)
      ]
    ]
