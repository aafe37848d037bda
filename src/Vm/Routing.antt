-- ===== src/Vm/Routing.antt =====
-- crates/llmvm/src/capability_gateway.rs: what the routing handlers leave alone.
use boruna.Prelude.{
  String, ◌≡◌, ◌≢◌, refl, true, List, ◌∷◌, Option, none, some, Result, ok, arith, Result-cases, inl,
  inr, ap, ◌∙◌, get_elem?, eq_iff,
}
use boruna.Prelude.BTreeMap
use boruna.Prelude.BTreeMap.{BTreeMap, get-insert}
use boruna.Bytecode.Capability.{Capability, step_input}
use boruna.Bytecode.Value.{Value, string}
use boruna.Vm.Gateway.{Handler}
use boruna.Vm.Handlers.{
  LlmRouterHandler, router_handle, forward, route, is_llm_call, StepInputHandler, step_input_handle,
  read_input,
}

module _ (debug : List String → String) {P F : Type 0} (provide : String → Handler P)
    (handle : Handler F) where
  -- What one provider's call keeps of the router's state.
  abbrev KeepsOthers :
      LlmRouterHandler P F → String → Result Value String × LlmRouterHandler P F → Type 0
  KeepsOthers s k o =
      (o.1.fallback ≡ s.fallback) × (BTreeMap.get k o.1.providers ≡ BTreeMap.get k s.providers)

  forward_keeps :
      (s : LlmRouterHandler P F) (c : Capability) (args : List Value) (name k : String)
      (p : Option P)
      → name ≢ k
      → KeepsOthers s k (forward debug provide handle s c args name p)
  unfolding forward
  forward_keeps s c args name k none h = (refl, refl)
  forward_keeps s c args name k (some p) h =
      (refl, ground (arith, eq_iff name k, get-insert name k (provide name p c args).1 s.providers))

  -- An LLM call changes neither the fallback nor a provider other than the one it is routed to.
  pub router_isolates :
      (s : LlmRouterHandler P F) (c : Capability) (args : List Value) (k : String)
      → is_llm_call c ≡ true
      → route debug (BTreeMap.keys s.providers) (get_elem? args 1) ≢ ok k
      → ((router_handle debug provide handle s c args).1.fallback ≡ s.fallback)
        × (BTreeMap.get k (router_handle debug provide handle s c args).1.providers
            ≡ BTreeMap.get k s.providers)
  unfolding router_handle
  router_isolates s c args k h other =
      elim (Result-cases (route debug (BTreeMap.keys s.providers) (get_elem? args 1))) [
        | inr (e, is) ↦ rw (h, is, router_handle) (refl, refl)
        | inl (name, is) ↦
            rw (h, is, router_handle)
              (forward_keeps s c args name k (BTreeMap.get name s.providers)
                (λ same. other (is ∙ ap ok same)))
      ]

module _ {S : Type 0} (handle : Handler S) (to_json : Value → Result String String)
    (debug : List String → String) where
  -- Reading a declared input whose value has a JSON text gives that text, and changes no state.
  step_input_reads :
      (s : StepInputHandler S) (name : String) (more : List Value) (v : Value) (json : String)
      → BTreeMap.get name s.inputs ≡ some v
      → to_json v ≡ ok json
      → step_input_handle handle to_json debug s step_input (string name ∷ more)
        ≡ (ok (string json), s)
  unfolding step_input_handle read_input
  step_input_reads s name more v json found is = rw (found, is, read_input)
