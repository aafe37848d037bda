-- ===== src/Vm/Gateway.antt =====
-- crates/llmvm/src/capability_gateway.rs: `CapabilityGateway`. The handler is a function over a
-- state of its own; the spans of `tracing` are left out.
use Prim.Native.String
use mathlib.Core.Path.{subst}
use boruna.Prelude.{
  ℕ, suc, String, Bool, true, false, List, [], Option, none, some, Result, ok, err, ltb, ◌&&◌, ◌≡◌,
  sym, Bool-cases, inl, inr, unwrap_or,
}
use boruna.Prelude.BTreeMap
use boruna.Prelude.BTreeMap.{BTreeMap}
use boruna.Bytecode.Capability.{Capability, name}
use boruna.Bytecode.Value.{Value}
use boruna.Vm.EventLog.{EventLog, log_cap_call, log_cap_result}
use boruna.Vm.Policy.{Policy, PolicyRule}
use boruna.Vm.Error.{VmError, capability_denied, capability_budget_exceeded, assertion_failed}

-- `trait CapabilityHandler`
abbrev pub Handler : Type 0 → Type 0
Handler S = S → Capability → List Value → Result Value String × S

pub record Gateway (S : Type 0) : Type 0 where
  pub policy : Policy
  pub usage : BTreeMap ℕ
  pub handler : S

unfoldable pub with_handler : {S : Type 0} → Policy → S → Gateway S
with_handler policy handler = record { policy = policy; usage = []; handler = handler }

unfoldable pub is_allowed : Option PolicyRule → Bool → Bool
is_allowed (some r) default_allow = r.allow
is_allowed none default_allow = default_allow

unfoldable pub over_budget : Option PolicyRule → ℕ → Bool
over_budget (some r) count = ltb 0 r.budget && ltb r.budget count
over_budget none count = false

-- the uses of a capability so far
abbrev pub used : {S : Type 0} → Gateway S → String → ℕ
used g k = unwrap_or 0 (BTreeMap.get k g.usage)

-- the gateway with one more use of the capability
abbrev pub charge : {S : Type 0} → Gateway S → Capability → Gateway S
charge g c = record g { usage = BTreeMap.insert (name c) (suc (used g (name c))) g.usage }

-- the rule of a capability, its verdict, and whether one more call is over its budget
abbrev pub permits : {S : Type 0} → Gateway S → Capability → Bool
permits g c = is_allowed (BTreeMap.get (name c) g.policy.rules) g.policy.default_allow

abbrev pub exceeds : {S : Type 0} → Gateway S → Capability → Bool
exceeds g c = over_budget (BTreeMap.get (name c) g.policy.rules) (suc (used g (name c)))

-- what follows the handler's answer: its result is logged, or its error is wrapped
unfoldable pub settle :
    {S : Type 0}
    → Capability
    → Gateway S
    → EventLog
    → Result Value String × S
    → Result Value VmError × Gateway S × EventLog
settle c g log (ok v, s) = (ok v, record g { handler = s }, log_cap_result c v log)
settle c g log (err e, s) =
    (err (assertion_failed (String.◌++◌ "capability error: " e)), record g { handler = s }, log)

module _ {S : Type 0} (handle : Handler S) where
  -- after the policy and the budget: the call is logged and handled
  unfoldable pub dispatch :
      Gateway S → Capability → List Value → EventLog → Result Value VmError × Gateway S × EventLog
  dispatch g c args log = settle c g (log_cap_call c args log) (handle g.handler c args)

  unfoldable pub call :
      Gateway S → Capability → List Value → EventLog → Result Value VmError × Gateway S × EventLog
  call g c args log = elim (permits g c) [
    | false ↦ (err (capability_denied c), g, log)
    | true ↦
        let g' = charge g c in
        elim (exceeds g c) [
          | true ↦ (err (capability_budget_exceeded c), g', log)
          | false ↦ dispatch g' c args log
        ]
  ]

  -- the three ways of a call
  pub call-denied :
      (g : Gateway S) (c : Capability) (args : List Value) (log : EventLog)
      → permits g c ≡ false
      → call g c args log ≡ (err (capability_denied c), g, log)
  unfolding call
  call-denied g c args log e = rw (e, call)

  pub call-exceeded :
      (g : Gateway S) (c : Capability) (args : List Value) (log : EventLog)
      → permits g c ≡ true
      → exceeds g c ≡ true
      → call g c args log ≡ (err (capability_budget_exceeded c), charge g c, log)
  unfolding call
  call-exceeded g c args log e f = rw (e, f, call)

  pub call-dispatched :
      (g : Gateway S) (c : Capability) (args : List Value) (log : EventLog)
      → permits g c ≡ true
      → exceeds g c ≡ false
      → call g c args log ≡ dispatch (charge g c) c args log
  unfolding call
  call-dispatched g c args log e f = rw (e, f, call)

  -- A property of the outcome of a call is proved for each of the three ways.
  pub call-cases {ℓ} :
      (P : Result Value VmError × Gateway S × EventLog → Type ℓ) (g : Gateway S) (c : Capability)
      (args : List Value) (log : EventLog)
      → (permits g c ≡ false → P (err (capability_denied c), g, log))
      → (permits g c ≡ true
          → exceeds g c ≡ true
          → P (err (capability_budget_exceeded c), charge g c, log))
      → (permits g c ≡ true → exceeds g c ≡ false → P (dispatch (charge g c) c args log))
      → P (call g c args log)
  call-cases P g c args log denied exceeded dispatched = elim (Bool-cases (permits g c)) [
    | inr e ↦ subst P (sym (call-denied g c args log e)) (denied e)
    | inl e ↦ elim (Bool-cases (exceeds g c)) [
      | inl f ↦ subst P (sym (call-exceeded g c args log e f)) (exceeded e f)
      | inr f ↦ subst P (sym (call-dispatched g c args log e f)) (dispatched e f)
    ]
  ]
