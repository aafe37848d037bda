-- ===== src/Vm/Watched.antt =====
-- crates/llmvm/src/capability_gateway.rs: a handler that keeps the names of the calls it receives, so
-- that a call that reaches it counts whether the gateway logs it or not.
use boruna.Prelude.{
  ℕ, suc, ◌≡◌, refl, ap, ◌∙◌, String, List, [], ◌∷◌, Result, ok, err, str_eq, if◌then◌else◌,
  Bool-cases, inl, inr,
}
use boruna.Bytecode.Capability.{Capability, name}
use boruna.Bytecode.Value.{Value}
use boruna.Vm.EventLog.{EventLog, log_event, log_cap_call}
use boruna.Vm.Error.{VmError}
use boruna.Vm.Gateway.{Handler, Gateway, call, charge, dispatch, exceeds, permits, settle}
use boruna.Vm.Client.{Client, event_of, finish, ask, note, proceed, run}

-- the handler's state, and the names of the calls it has received
abbrev pub Watched : Type 0 → Type 0
Watched S = S × List String

abbrev pub watched : {S : Type 0} → Handler S → Handler (Watched S)
watched handle w c args = let o = handle w.0 c args in (o.0, (o.1, name c ∷ w.1))

-- how often the handler has received a call of the name
unfoldable pub received : String → List String → ℕ
received k [] = 0
received k (j ∷ rest) = if str_eq j k then suc (received k rest) else received k rest

abbrev pub unwatch : {S : Type 0} → Gateway (Watched S) → Gateway S
unwatch g = record { policy = g.policy; usage = g.usage; handler = g.handler.0 }

abbrev pub unwatched :
    {S A : Type 0} → A × Gateway (Watched S) × EventLog → A × Gateway S × EventLog
unwatched o = (o.0, unwatch o.1, o.2)

module _ {S : Type 0} (handle : Handler S) where
  dispatch-watched :
      (g : Gateway (Watched S)) (c : Capability) (args : List Value) (log : EventLog)
      → unwatched (dispatch (watched handle) g c args log) ≡ dispatch handle (unwatch g) c args log
  unfolding dispatch settle
  dispatch-watched g c args log = go (handle g.handler.0 c args)
    where
      go :
          (a : Result Value String × S)
          → unwatched (settle c g (log_cap_call c args log) (a.0, (a.1, name c ∷ g.handler.1)))
            ≡ settle c (unwatch g) (log_cap_call c args log) a
      go (ok v, s) = refl
      go (err e, s) = refl

  call-watched :
      (g : Gateway (Watched S)) (c : Capability) (args : List Value) (log : EventLog)
      → unwatched (call (watched handle) g c args log) ≡ call handle (unwatch g) c args log
  unfolding call
  call-watched g c args log = elim (Bool-cases (permits g c)) [
    | inr e ↦ rw (e, call) refl
    | inl e ↦ elim (Bool-cases (exceeds g c)) [
      | inl f ↦ rw (e, f, call) refl
      | inr f ↦ rw (e, f, call) (dispatch-watched (charge g c) c args log)
    ]
  ]

  -- A run with a watched handler is the run with the handler itself, but for the names.
  pub run-watched :
      {A E : Type 0} (client : Client A E) (g : Gateway (Watched S)) (log : EventLog)
      → unwatched (run (watched handle) client g log) ≡ run handle client (unwatch g) log
  unfolding run
  run-watched (finish v) g log = refl
  run-watched (note n next) g log = run-watched next g (log_event (event_of n) log)
  run-watched {A} {E} (ask c args s next) g log =
      go (call (watched handle) g c args log) (λ v g' log'. run-watched (next v) g' log')
      ∙ ap (λ o. proceed s o (λ v g' log'. run handle (next v) g' log')) (call-watched g c args log)
    where
      go :
          (o : Result Value VmError × Gateway (Watched S) × EventLog)
          → ((v : Value) (g' : Gateway (Watched S)) (log' : EventLog)
              → unwatched (run (watched handle) (next v) g' log')
                ≡ run handle (next v) (unwatch g') log')
          → unwatched (proceed s o (λ v g' log'. run (watched handle) (next v) g' log'))
            ≡ proceed s (unwatched o) (λ v g' log'. run handle (next v) g' log')
      go (ok v, g', log') ih = ih v g' log'
      go (err e, g', log') ih = refl
