-- ===== src/Vm/Trail.antt =====
-- crates/llmvm/src/{replay,capability_gateway}.rs: what a call adds to the event log.
use mathlib.Core.List.{append-nil, append_assoc}
use boruna.Prelude.{◌≡◌, refl, sym, ap, ◌∙◌, String, List, [], ◌∷◌, ◌++◌, Result, ok, err}
use boruna.Bytecode.Capability.{Capability, name}
use boruna.Bytecode.Value.{Value}
use boruna.Vm.EventLog.{EventLog, Event, cap_call, cap_result, log_event, log_cap_call, results_in}
use boruna.Vm.Error.{VmError, assertion_failed}
use boruna.Vm.Gateway.{Handler, Gateway, charge, settle, dispatch, call, call-cases}
use boruna.Vm.Client.{Client, Note, emitted, checked, event_of, finish, ask, note, proceed, run}

-- what a call with this result adds to the log
abbrev pub trail : Capability → List Value → Result Value VmError → List Event
trail c args (ok v) = cap_call (name c) args ∷ cap_result (name c) v ∷ []
trail c args (err (assertion_failed _)) = cap_call (name c) args ∷ []
trail c args (err _) = []

abbrev pub result_list : Result Value VmError → List Value
result_list (ok v) = v ∷ []
result_list (err _) = []

results_in-append : (xs ys : List Event) → results_in (xs ++ ys) ≡ results_in xs ++ results_in ys
unfolding results_in
results_in-append [] ys = refl
results_in-append (cap_result _ v ∷ xs) ys = ap (λ l. v ∷ l) (results_in-append xs ys)
results_in-append (_ ∷ xs) ys = results_in-append xs ys

module _ {S : Type 0} (handle : Handler S) where
  dispatch-trail :
      (g : Gateway S) (c : Capability) (args : List Value) (log : EventLog)
      → (dispatch handle g c args log).2
        ≡ record log { events = log.events ++ trail c args (dispatch handle g c args log).0 }
  unfolding dispatch settle
  dispatch-trail g c args log = go (handle g.handler c args)
    where
      go :
          (a : Result Value String × S)
          → let o = settle c g (log_cap_call c args log) a in
            o.2 ≡ record log { events = log.events ++ trail c args o.0 }
      go (ok v, s) =
          ap (λ es. record log { events = es })
            (append_assoc log.events (cap_call (name c) args ∷ []) (cap_result (name c) v ∷ []))
      go (err e, s) = refl

  no_trail : (log : EventLog) → log ≡ record log { events = log.events ++ [] }
  no_trail log = sym (ap (λ es. record log { events = es }) (append-nil log.events))

  -- A call adds to the log exactly its own trail: nothing if it is refused, the call alone if the
  -- handler fails, the call and its result otherwise.
  pub call-trail :
      (g : Gateway S) (c : Capability) (args : List Value) (log : EventLog)
      → (call handle g c args log).2
        ≡ record log { events = log.events ++ trail c args (call handle g c args log).0 }
  call-trail g c args log =
      call-cases handle (λ o. o.2 ≡ record log { events = log.events ++ trail c args o.0 }) g c args
        log (λ _. no_trail log) (λ _ _. no_trail log)
        (λ _ _. dispatch-trail (charge g c) c args log)

  results_in-trail :
      (c : Capability) (args : List Value) (r : Result Value VmError)
      → results_in (trail c args r) ≡ result_list r
  unfolding results_in
  results_in-trail c args (ok v) = refl
  results_in-trail c args (err (assertion_failed _)) = refl
  results_in-trail c args (err _) = refl

  -- the results that a log holds after a call
  pub results-call :
      (g : Gateway S) (c : Capability) (args : List Value) (log : EventLog)
      → let o = call handle g c args log in
        results_in o.2.events ≡ results_in log.events ++ result_list o.0
  results-call g c args log =
      let o = call handle g c args log in
      ap (λ (l : EventLog). results_in l.events) (call-trail g c args log)
      ∙ (results_in-append log.events (trail c args o.0)
          ∙ ap (λ l. results_in log.events ++ l) (results_in-trail c args o.0))

  pub results-note :
      (n : Note) (log : EventLog)
      → results_in (log_event (event_of n) log).events ≡ results_in log.events
  unfolding results_in
  results-note n log =
      results_in-append log.events (event_of n ∷ [])
      ∙ (none_of n ∙ append-nil (results_in log.events))
    where
      none_of :
          (m : Note)
          → results_in log.events ++ results_in (event_of m ∷ []) ≡ results_in log.events ++ []
      none_of (emitted _) = refl
      none_of (checked _ _ _ _) = refl

  abbrev pub Later : {A E : Type 0} → Client A E → Gateway S → EventLog → Type 0
  Later client g log =
      (rest : List Value) × (results_in (run handle client g log).2.events
        ≡ results_in log.events ++ rest)

  pub run-grows :
      {A E : Type 0} (client : Client A E) (g : Gateway S) (log : EventLog) → Later client g log
  unfolding run
  run-grows (finish v) g log = ([], sym (append-nil (results_in log.events)))
  run-grows (note n next) g log =
      let (rest, f) = run-grows next g (log_event (event_of n) log) in
      (rest, f ∙ ap (λ l. l ++ rest) (results-note n log))
  run-grows (ask c args s next) g log =
      go (call handle g c args log) (results-call g c args log)
        (λ v g' log'. run-grows (next v) g' log')
    where
      go :
          (o : Result Value VmError × Gateway S × EventLog)
          → results_in o.2.events ≡ results_in log.events ++ result_list o.0
          → ((v : Value) (g' : Gateway S) (log' : EventLog) → Later (next v) g' log')
          → (rest : List Value) × (results_in
                (proceed s o (λ v g' log'. run handle (next v) g' log')).2.events
              ≡ results_in log.events ++ rest)
      go (ok v, g', log') e ih =
          let (rest, f) = ih v g' log' in
          (
            v ∷ rest,
            f ∙ (ap (λ l. l ++ rest) e ∙ append_assoc (results_in log.events) (v ∷ []) rest),
          )
      go (err x, g', log') e ih = ([], e)
