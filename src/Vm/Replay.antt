-- ===== src/Vm/Replay.antt =====
-- crates/llmvm/src/{replay,capability_gateway}.rs: a client that is run again over the recorded
-- results does what it did, as crates/boruna-mcp/src/tools/sealed.rs checks of a run.
use mathlib.Core.Path.{subst}
use mathlib.Core.List.{append-nil, append_assoc}
use boruna.Prelude.{
  ℕ, ◌+◌, ◌≡◌, refl, sym, ap, ◌∙◌, String, List, [], ◌∷◌, ◌++◌, Option, none, some, Result, ok, err,
  length, get_elem?, length-append,
}
use boruna.Bytecode.Capability.{Capability}
use boruna.Bytecode.Value.{Value}
use boruna.Vm.EventLog.{
  EventLog, Event, new, log_event, log_cap_call, results_in, capability_results,
}
use boruna.Vm.Policy.{Policy}
use boruna.Vm.Error.{VmError, assertion_failed, stack_overflow}
use boruna.Vm.Gateway.{
  Handler, Gateway, with_handler, charge, settle, dispatch, call, call-cases, call-denied,
  call-exceeded, call-dispatched,
}
use boruna.Vm.Handlers.{ReplayHandler, replay_new, replay_handle}
use boruna.Vm.Verify.{verify_full, verify_full_self, identical}
use boruna.Vm.Trail.{result_list, results-call, results-note, run-grows}
use boruna.Vm.Client.{Client, event_of, finish, ask, note, Outcome, proceed, run}

abbrev pub exhausted : VmError
exhausted = assertion_failed "capability error: replay log exhausted"

-- the outcome of a call in the second run: that of the first, but for the text of a handler's error
abbrev replayed_call : Result Value VmError → Result Value VmError
replayed_call (err (assertion_failed _)) = err exhausted
replayed_call r = r

-- the outcome of the second run, likewise
abbrev pub replayed : {A E : Type 0} → Result A (VmError × E) → Result A (VmError × E)
replayed (err (assertion_failed _, s)) = err (exhausted, s)
replayed r = r

-- the gateway of the second run: the same policy and usage, over the recorded results
abbrev shadow : {S : Type 0} → Gateway S → List Value → ℕ → Gateway ReplayHandler
shadow g events n = record {
  policy = g.policy;
  usage = g.usage;
  handler = record { events = events; cursor = n };
}

get_elem?-at :
    {A : Type 0} (pre more : List A) (x : A) → get_elem? (pre ++ (x ∷ more)) (length pre) ≡ some x
get_elem?-at [] more x = refl
get_elem?-at (y ∷ pre) more x = get_elem?-at pre more x

get_elem?-end : {A : Type 0} (pre : List A) → get_elem? pre (length pre) ≡ none
get_elem?-end [] = refl
get_elem?-end (y ∷ pre) = get_elem?-end pre

replay_handle-at :
    (c : Capability) (args pre more : List Value) (v : Value)
    → replay_handle (record { events = pre ++ (v ∷ more); cursor = length pre }) c args
      ≡ (ok v, record { events = pre ++ (v ∷ more); cursor = length pre + 1 })
unfolding replay_handle
replay_handle-at c args pre more v = rw (get_elem?-at pre more v, replay_handle)

replay_handle-end :
    (c : Capability) (args pre : List Value)
    → replay_handle (record { events = pre; cursor = length pre }) c args
      ≡ (err "replay log exhausted", record { events = pre; cursor = length pre })
unfolding replay_handle
replay_handle-end c args pre = rw (get_elem?-end pre, replay_handle)

proceed-replayed :
    {A E : Type 0} (x : VmError) (s : E) (g : Gateway ReplayHandler) (log : EventLog)
    (next : Value → Gateway ReplayHandler → EventLog → Outcome A E ReplayHandler)
    → proceed s (replayed_call (err x), g, log) next ≡ (replayed (err (x, s)), g, log)
proceed-replayed (stack_overflow n) s g log next = refl
proceed-replayed (assertion_failed m) s g log next = refl
proceed-replayed _ s g log next = refl

module _ {S : Type 0} (handle : Handler S) where
  -- Only a call that succeeds has recorded results after it.
  abbrev Ends : Result Value VmError → List Value → Type 0
  Ends (ok _) more = Unit {0}
  Ends (err _) more = more ≡ []

  -- The second run takes the same way, if what was recorded stands at the cursor.
  abbrev Replays :
      Gateway S
      → Capability
      → List Value
      → EventLog
      → List Value
      → List Value
      → Result Value VmError × Gateway S × EventLog
      → Type 0
  Replays g c args log pre more o =
      let events = pre ++ (result_list o.0 ++ more) in
      Ends o.0 more
      → call replay_handle (shadow g events (length pre)) c args log
        ≡ (replayed_call o.0, shadow o.1 events (length (pre ++ result_list o.0)), o.2)

  settle_replay :
      (g : Gateway S) (c : Capability) (args : List Value) (log : EventLog) (pre more : List Value)
      (a : Result Value String × S)
      → let o = settle c g log a in
        let events = pre ++ (result_list o.0 ++ more) in
        Ends o.0 more
        → settle c
            (shadow g events (length pre))
            log
            (replay_handle (record { events = events; cursor = length pre }) c args)
          ≡ (replayed_call o.0, shadow o.1 events (length (pre ++ result_list o.0)), o.2)
  unfolding settle
  settle_replay g c args log pre more (ok v, s) ends =
      rw (replay_handle-at c args pre more v, length-append pre (v ∷ []))
  settle_replay g c args log pre more (err x, s) ends =
      rw (ends, append-nil pre, replay_handle-end c args pre)

  call_replay :
      (g : Gateway S) (c : Capability) (args : List Value) (log : EventLog) (pre more : List Value)
      → Replays g c args log pre more (call handle g c args log)
  unfolding dispatch
  call_replay g c args log pre more =
      call-cases handle (Replays g c args log pre more) g c args log
        (λ e _. call-denied replay_handle _ c args log e ∙ rw (append-nil pre))
        (λ e f _. call-exceeded replay_handle _ c args log e f ∙ rw (append-nil pre))
        (λ e f ends.
          call-dispatched replay_handle _ c args log e f
          ∙ settle_replay (charge g c) c args (log_cap_call c args log) pre more
              (handle g.handler c args) ends)

  abbrev RunReplays : {A E : Type 0} → Client A E → Gateway S → EventLog → Type 0
  RunReplays client g log =
      let o = run handle client g log in
      let events = results_in o.2.events in
      run replay_handle client (shadow g events (length (results_in log.events))) log
      ≡ (replayed o.0, shadow o.1 events (length events), o.2)

  run_replays :
      {A E : Type 0} (client : Client A E) (g : Gateway S) (log : EventLog)
      → RunReplays client g log
  unfolding run
  run_replays (finish v) g log = refl
  run_replays (note n next) g log =
      subst
        (λ l.
          run replay_handle next
            (shadow g (results_in (run handle next g (log_event (event_of n) log)).2.events)
              (length l))
            (log_event (event_of n) log)
          ≡ (
            replayed (run handle next g (log_event (event_of n) log)).0,
            shadow (run handle next g (log_event (event_of n) log)).1
                (results_in (run handle next g (log_event (event_of n) log)).2.events)
                (length (results_in (run handle next g (log_event (event_of n) log)).2.events)),
            (run handle next g (log_event (event_of n) log)).2,
          ))
        (results-note handle n log) (run_replays next g (log_event (event_of n) log))
  run_replays {A} {E} (ask c args s next) g log =
      go (call handle g c args log) (results-call handle g c args log)
        (call_replay g c args log (results_in log.events))
        (λ v g' log'. run_replays (next v) g' log')
    where
      go :
          (o : Result Value VmError × Gateway S × EventLog)
          → results_in o.2.events ≡ results_in log.events ++ result_list o.0
          → ((more : List Value) → Replays g c args log (results_in log.events) more o)
          → ((v : Value) (g' : Gateway S) (log' : EventLog) → RunReplays (next v) g' log')
          → let u = proceed s o (λ v g' log'. run handle (next v) g' log') in
            let events = results_in u.2.events in
            proceed s
              (call replay_handle (shadow g events (length (results_in log.events))) c args log)
              (λ v g' log'. run replay_handle (next v) g' log')
            ≡ (replayed u.0, shadow u.1 events (length events), u.2)
      go (ok v, g', log') e step ih =
          let (rest, f) = run-grows handle (next v) g' log' in
          let pre = results_in log.events in
          let all = f ∙ (ap (λ l. l ++ rest) e ∙ append_assoc pre (v ∷ []) rest) in
          let first =
            subst
              (λ evs.
                call replay_handle (shadow g evs (length pre)) c args log
                ≡ (ok v, shadow g' evs (length (pre ++ (v ∷ []))), log'))
              (sym all) (step rest tt) in
          let second =
            subst
              (λ l.
                call replay_handle
                  (shadow g (results_in (run handle (next v) g' log').2.events) (length pre)) c args
                  log
                ≡ (
                  ok v,
                  shadow g' (results_in (run handle (next v) g' log').2.events) (length l),
                  log',
                ))
              (sym e) first in
          ap (λ o. proceed s o (λ v g' log'. run replay_handle (next v) g' log')) second
          ∙ ih v g' log'
      go (err x, g', log') e step ih =
          let stopped =
            subst
              (λ evs.
                call replay_handle (shadow g evs (length (results_in log.events))) c args log
                ≡ (replayed_call (err x), shadow g' evs (length evs), log'))
              (sym e) (step [] refl) in
          ap (λ o. proceed s o (λ v g' log'. run replay_handle (next v) g' log')) stopped
          ∙ proceed-replayed x s _ log' _

  -- A run over the recorded results of a run, from a fresh gateway with the same policy, records the
  -- same log, and has the same outcome but for the text of a handler's error.
  pub run_replay :
      {A E : Type 0} (client : Client A E) (policy : Policy) (s : S)
      → let o = run handle client (with_handler policy s) new in
        let again =
          run replay_handle client
            (with_handler policy (replay_new (capability_results o.2)))
            new in
        (again.0 ≡ replayed o.0) × (again.2 ≡ o.2) × (again.1.usage ≡ o.1.usage)
  unfolding with_handler capability_results results_in
  run_replay {A} {E} client policy s =
      let same = run_replays client (with_handler policy s) new in
      (
        ap (λ (o : Outcome A E ReplayHandler). o.0) same,
        ap (λ (o : Outcome A E ReplayHandler). o.2) same,
        ap (λ (o : Outcome A E ReplayHandler). o.1.usage) same,
      )

  -- The log of a run and that of its replay are identical in full, whatever the serialiser.
  pub verify_full-run_replay :
      {A E : Type 0} (to_string : Event → Option String) (client : Client A E) (policy : Policy)
      (s : S)
      → let o = run handle client (with_handler policy s) new in
        let again =
          run replay_handle client
            (with_handler policy (replay_new (capability_results o.2)))
            new in
        verify_full to_string o.2 again.2 ≡ identical
  verify_full-run_replay to_string client policy s =
      rw (run_replay client policy s).1 (verify_full_self to_string _)
