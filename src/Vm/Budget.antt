-- ===== src/Vm/Budget.antt =====
-- crates/llmvm/src/capability_gateway.rs: which calls the gateway lets through to the handler, and
-- which it logs.
use boruna.Prelude.{
  ℕ, suc, ◌≤◌, ◌<◌, ◌≡◌, refl, String, Bool, false, List, [], ◌∷◌, Option, none, some, Result, ok,
  err, arith, str_eq, eq_iff, if◌then◌else◌, push, ◌∙◌, sym,
}
use mathlib.Core.Path.{subst}
use boruna.Prelude.BTreeMap
use boruna.Prelude.BTreeMap.{get-insert}
use boruna.Bytecode.Capability.{Capability, name}
use boruna.Bytecode.Value.{Value}
use boruna.Vm.EventLog.{EventLog, cap_call, new, log_event, log_cap_call}
use boruna.Vm.Policy.{Policy, PolicyRule}
use boruna.Vm.Error.{VmError}
use boruna.Vm.Gateway.{
  Handler, Gateway, with_handler, is_allowed, over_budget, used, charge, settle, dispatch, call,
  call-cases,
}
use boruna.Vm.Watched.{Watched, watched, received, unwatched, run-watched}
use boruna.Vm.Recorded.{calls_of, calls_of-call, calls_of-result, calls_of-note, dispatch_calls}
use boruna.Vm.Client.{Client, event_of, finish, ask, note, proceed, run}

-- the most calls that a rule lets through, if it bounds them
abbrev pub Within : Option PolicyRule → Bool → ℕ → Type 0
Within none default_allow n = default_allow ≡ false → n ≡ 0
Within (some r) default_allow n = (r.allow ≡ false → n ≡ 0) × (0 < r.budget → n ≤ r.budget)

abbrev pub Obeys : Policy → String → ℕ → Type 0
Obeys p k n = Within (BTreeMap.get k p.rules) p.default_allow n

-- For one capability: the usage counts at least the recorded calls, and these obey the policy.
pub record Inv {S : Type 0} (p : Policy) (k : String) (g : Gateway S) (log : EventLog)
    : Type 0 where
  pub policy : g.policy ≡ p
  pub counted : calls_of k log.events ≤ used g k
  pub obeys : Obeys p k (calls_of k log.events)

module _ {S : Type 0} (handle : Handler S) where
  dispatch_keeps :
      (g : Gateway S) (c : Capability) (args : List Value) (log : EventLog)
      → ((dispatch handle g c args log).1.usage ≡ g.usage)
        × ((dispatch handle g c args log).1.policy ≡ g.policy)
  unfolding dispatch settle
  dispatch_keeps g c args log = go (handle g.handler c args)
    where
      go :
          (a : Result Value String × S)
          → let g' = (settle c g (log_cap_call c args log) a).1 in
            (g'.usage ≡ g.usage) × (g'.policy ≡ g.policy)
      go (ok v, s) = (refl, refl)
      go (err e, s) = (refl, refl)

  call-Inv :
      (p : Policy) (k : String) (g : Gateway S) (c : Capability) (args : List Value)
      (log : EventLog)
      → Inv p k g log
      → Inv p k (call handle g c args log).1 (call handle g c args log).2
  unfolding call is_allowed over_budget
  call-Inv p k g c args log i = ground (
    arith,
    eq_iff (name c) k,
    get-insert (name c) k (suc (used g (name c))) g.usage,
    dispatch_calls handle k (charge g c) c args log,
    dispatch_keeps (charge g c) c args log,
  )

  run-Inv :
      {A E : Type 0} (client : Client A E) (p : Policy) (k : String) (g : Gateway S)
      (log : EventLog)
      → Inv p k g log
      → Inv p k (run handle client g log).1 (run handle client g log).2
  unfolding run
  run-Inv (finish v) p k g log i = i
  run-Inv (note n next) p k g log i =
      run-Inv next p k g (log_event (event_of n) log) (ground (arith, calls_of-note k n log.events))
  run-Inv {A} {E} (ask c args s next) p k g log i =
      go (call handle g c args log) (call-Inv p k g c args log i)
        (λ v g' log'. run-Inv (next v) p k g' log')
    where
      go :
          (o : Result Value VmError × Gateway S × EventLog)
          → Inv p k o.1 o.2
          → ((v : Value) (g' : Gateway S) (log' : EventLog)
              → Inv p k g' log'
              → Inv p k (run handle (next v) g' log').1 (run handle (next v) g' log').2)
          → Inv p k
              (proceed s o (λ v g' log'. run handle (next v) g' log')).1
              (proceed s o (λ v g' log'. run handle (next v) g' log')).2
      go (ok v, g', log') j ih = ih v g' log' j
      go (err e, g', log') j ih = j

  Inv-start : (p : Policy) (s : S) (k : String) → Inv p k (with_handler p s) new
  unfolding with_handler calls_of
  Inv-start p s k = record {
    policy = refl;
    counted = ground arith;
    obeys = start (BTreeMap.get k p.rules);
  }
    where
      start : (r : Option PolicyRule) → Within r p.default_allow 0
      start none = λ _. refl
      start (some r) = (λ _. refl, λ h. omega arith)

-- The log has a call for each one that the handler received.
abbrev Logged : {S : Type 0} → String → Gateway (Watched S) → EventLog → Type 0
Logged k g log = received k g.handler.1 ≡ calls_of k log.events

module _ {S : Type 0} (handle : Handler S) where
  dispatch-Logged :
      (k : String) (g : Gateway (Watched S)) (c : Capability) (args : List Value) (log : EventLog)
      → Logged k g log
      → Logged k
          (dispatch (watched handle) g c args log).1
          (dispatch (watched handle) g c args log).2
  unfolding dispatch settle received
  dispatch-Logged k g c args log h = go (handle g.handler.0 c args)
    where
      more :
          (if str_eq (name c) k then suc (received k g.handler.1) else received k g.handler.1)
          ≡ calls_of k (push log.events (cap_call (name c) args))
      more = rw h (sym (calls_of-call k c args log.events))

      go :
          (a : Result Value String × S)
          → let o = settle c g (log_cap_call c args log) (a.0, (a.1, name c ∷ g.handler.1)) in
            Logged k o.1 o.2
      go (ok v, s) =
          more ∙ sym (calls_of-result k (name c) v (push log.events (cap_call (name c) args)))
      go (err e, s) = more

  call-Logged :
      (k : String) (g : Gateway (Watched S)) (c : Capability) (args : List Value) (log : EventLog)
      → Logged k g log
      → Logged k (call (watched handle) g c args log).1 (call (watched handle) g c args log).2
  call-Logged k g c args log h =
      call-cases (watched handle) (λ o. Logged k o.1 o.2) g c args log (λ _. h) (λ _ _. h)
        (λ _ _. dispatch-Logged k (charge g c) c args log h)

  run-Logged :
      {A E : Type 0} (client : Client A E) (k : String) (g : Gateway (Watched S)) (log : EventLog)
      → Logged k g log
      → Logged k (run (watched handle) client g log).1 (run (watched handle) client g log).2
  unfolding run
  run-Logged (finish v) k g log i = i
  run-Logged (note n next) k g log i =
      run-Logged next k g (log_event (event_of n) log) (i ∙ sym (calls_of-note k n log.events))
  run-Logged {A} {E} (ask c args s next) k g log i =
      go (call (watched handle) g c args log) (call-Logged k g c args log i)
        (λ v g' log'. run-Logged (next v) k g' log')
    where
      go :
          (o : Result Value VmError × Gateway (Watched S) × EventLog)
          → Logged k o.1 o.2
          → ((v : Value) (g' : Gateway (Watched S)) (log' : EventLog)
              → Logged k g' log'
              → Logged k
                  (run (watched handle) (next v) g' log').1
                  (run (watched handle) (next v) g' log').2)
          → Logged k
              (proceed s o (λ v g' log'. run (watched handle) (next v) g' log')).1
              (proceed s o (λ v g' log'. run (watched handle) (next v) g' log')).2
      go (ok v, g', log') j ih = ih v g' log' j
      go (err e, g', log') j ih = j

  -- Let the handler keep the name of each call it receives, which changes neither the outcome of a run
  -- nor its log. Whatever a client asks for, the calls of each capability that the handler receives
  -- stay within the policy, none where it denies the capability and no more than a positive budget,
  -- and the log records as many.
  pub run-Obeys :
      {A E : Type 0} (client : Client A E) (p : Policy) (s : S) (k : String)
      → let o = run (watched handle) client (with_handler p (s, [])) new in
        Obeys p k (received k o.1.handler.1)
        × (received k o.1.handler.1 ≡ calls_of k o.2.events)
        × (unwatched o ≡ run handle client (with_handler p s) new)
  unfolding with_handler received calls_of
  run-Obeys client p s k =
      let g = with_handler p (s, []) in
      let logged = run-Logged client k g new refl in
      (
        subst (Obeys p k) (sym logged)
            (run-Inv (watched handle) client p k g new
              (Inv-start (watched handle) p (s, []) k)).obeys,
        logged,
        run-watched handle client g new,
      )
