-- ===== src/Vm/Recorded.antt =====
-- crates/llmvm/src/{replay,capability_gateway}.rs: the calls of one capability in an event log, and
-- what a call of the gateway adds to them.
use boruna.Prelude.{
  ℕ, suc, ◌≡◌, refl, String, false, List, [], ◌∷◌, Result, ok, err, arith, str_eq, if◌then◌else◌,
  push, ◌∙◌,
}
use boruna.Bytecode.Capability.{Capability, name}
use boruna.Bytecode.Value.{Value}
use boruna.Vm.EventLog.{EventLog, Event, cap_call, cap_result, log_cap_call}
use boruna.Vm.Gateway.{Handler, Gateway, charge, settle, dispatch, call}
use boruna.Vm.Client.{Note, emitted, checked, event_of}

-- the recorded calls of one capability
unfoldable pub calls_of : String → List Event → ℕ
calls_of k [] = 0
calls_of k (cap_call j _ ∷ rest) = if str_eq j k then suc (calls_of k rest) else calls_of k rest
calls_of k (_ ∷ rest) = calls_of k rest

pub calls_of-call :
    (k : String) (c : Capability) (args : List Value) (events : List Event)
    → calls_of k (push events (cap_call (name c) args))
      ≡ (if str_eq (name c) k then suc (calls_of k events) else calls_of k events)
unfolding calls_of
calls_of-call k c args [] = refl
calls_of-call k c args (cap_call j _ ∷ r) = ground (arith, calls_of-call k c args r)
calls_of-call k c args (_ ∷ r) = calls_of-call k c args r

pub calls_of-result :
    (k : String) (j : String) (v : Value) (events : List Event)
    → calls_of k (push events (cap_result j v)) ≡ calls_of k events
unfolding calls_of
calls_of-result k j v [] = refl
calls_of-result k j v (cap_call i _ ∷ r) = ground (arith, calls_of-result k j v r)
calls_of-result k j v (_ ∷ r) = calls_of-result k j v r

pub calls_of-note :
    (k : String) (n : Note) (events : List Event)
    → calls_of k (push events (event_of n)) ≡ calls_of k events
unfolding calls_of
calls_of-note k (emitted _) [] = refl
calls_of-note k (checked _ _ _ _) [] = refl
calls_of-note k n (cap_call i _ ∷ r) = ground (arith, calls_of-note k n r)
calls_of-note k n (_ ∷ r) = calls_of-note k n r

module _ {S : Type 0} (handle : Handler S) where
  pub dispatch_calls :
      (k : String) (g : Gateway S) (c : Capability) (args : List Value) (log : EventLog)
      → calls_of k (dispatch handle g c args log).2.events
        ≡ (if str_eq (name c) k then suc (calls_of k log.events) else calls_of k log.events)
  unfolding dispatch settle
  dispatch_calls k g c args log = go (handle g.handler c args)
    where
      go :
          (a : Result Value String × S)
          → calls_of k (settle c g (log_cap_call c args log) a).2.events
            ≡ (if str_eq (name c) k then suc (calls_of k log.events) else calls_of k log.events)
      go (ok v, s) =
          calls_of-result k (name c) v (push log.events (cap_call (name c) args))
          ∙ calls_of-call k c args log.events
      go (err e, s) = calls_of-call k c args log.events

  -- A call of another capability is not counted.
  pub calls_of_other :
      (k : String) (g : Gateway S) (c : Capability) (args : List Value) (log : EventLog)
      → str_eq (name c) k ≡ false
      → calls_of k (call handle g c args log).2.events ≡ calls_of k log.events
  unfolding call
  calls_of_other k g c args log h = ground (arith, dispatch_calls k (charge g c) c args log)
