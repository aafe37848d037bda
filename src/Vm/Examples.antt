-- ===== src/Vm/Examples.antt =====
-- The gateway, replay and verification at concrete inputs.
use boruna.Prelude.{
  ℕ, ◌+◌, String, ◌≡◌, refl, Bool, true, false, not, Option, some, List, [], ◌∷◌, ◌++◌, Result, ok,
  err, ◌↔◌, arith, eq_iff,
}
use boruna.Prelude.Int.{pos}
use boruna.Prelude.BTreeMap
use boruna.Bytecode.Capability.{name, time_now, net_fetch, llm_call}
use boruna.Bytecode.Value.{Value, int, float, string, value_eq, args_eq}
use boruna.Vm.EventLog.{EventLog, Event, new, cap_call, capability_results, results_in, from_json}
use boruna.Vm.Policy.{Policy, allow_all, deny_all}
use boruna.Vm.Error.{VmError, capability_budget_exceeded}
use boruna.Vm.Gateway.{Handler, with_handler, is_allowed, over_budget, settle, dispatch, call}
use boruna.Vm.Handlers.{
  replay_new, replay_handle, router_handle, route, split_provider, LlmRouterHandler,
}
use boruna.Vm.Routing.{router_isolates}
use boruna.Vm.Client.{Client, emitted, finish, ask, note, run}
use boruna.Vm.Verify.{
  verify, verify_full, cap_calls, same_call, compare_events, compare_from, is_identical, identical,
  calls_nan, verify_self, verify_iff, SameCalls, recorded_calls,
}
use boruna.Vm.Watched.{watched, received, unwatched}
use boruna.Vm.Recorded.{calls_of}
use boruna.Vm.Budget.{Obeys, run-Obeys}
use boruna.Vm.Trail.{trail, call-trail}
use boruna.Vm.Replay.{replayed, run_replay, verify_full-run_replay}
use boruna.Vm.Sealed.{run_sealed, replay_verified, run_sealed_verified}

-- a clock that counts the times it is asked
abbrev clock : Handler ℕ
clock s c args = (ok (int (pos s)), s + 1)

abbrev two_reads : Client (Result Value VmError × ℕ) ℕ
two_reads =
    note (emitted (int (pos 0)))
      (ask time_now [] 0 (λ a. ask time_now (a ∷ []) 1 (λ b. finish (ok b, 2))))

abbrev one_read : Policy
one_read = record deny_all { rules = ("time.now", record { allow = true; budget = 1 }) ∷ [] }

run-Obeys_example :
    let o = run (watched clock) two_reads (with_handler one_read (7, [])) new in
    Obeys one_read "time.now" (received "time.now" o.1.handler.1)
    × (received "time.now" o.1.handler.1 ≡ calls_of "time.now" o.2.events)
    × (unwatched o ≡ run clock two_reads (with_handler one_read 7) new)
run-Obeys_example = run-Obeys clock two_reads one_read 7 "time.now"

one_received :
    received "time.now"
      (run (watched clock) two_reads (with_handler one_read (7, [])) new).1.handler.1
    ≡ 1
unfolding run call dispatch settle with_handler is_allowed over_budget BTreeMap.get BTreeMap.insert
    name received
one_received = refl

second_read_refused :
    (run clock two_reads (with_handler one_read 7) new).0
    ≡ err (capability_budget_exceeded time_now, 1)
unfolding run call dispatch settle with_handler is_allowed over_budget BTreeMap.get BTreeMap.insert
    name
second_read_refused = refl

call-trail_example : (call clock (with_handler allow_all 7) net_fetch [] new).2 ≡ record new {
  events = [] ++ trail net_fetch [] (call clock (with_handler allow_all 7) net_fetch [] new).0;
}
call-trail_example = call-trail clock (with_handler allow_all 7) net_fetch [] new

run_replay_example :
    let o = run clock two_reads (with_handler allow_all 7) new in
    let again =
      run replay_handle two_reads
        (with_handler allow_all (replay_new (capability_results o.2)))
        new in
    (again.0 ≡ replayed o.0) × (again.2 ≡ o.2) × (again.1.usage ≡ o.1.usage)
run_replay_example = run_replay clock two_reads allow_all 7

replay_of_two_reads :
    (run replay_handle two_reads
      (with_handler allow_all
        (replay_new (capability_results (run clock two_reads (with_handler allow_all 7) new).2)))
      new).0
    ≡ ok (ok (int (pos 8)), 2)
unfolding run call dispatch settle with_handler is_allowed over_budget BTreeMap.get BTreeMap.insert
    name replay_handle capability_results results_in
replay_of_two_reads = refl

abbrev one_text : Event → Option String
one_text e = some "{}"

verify_full-run_replay_example :
    let o = run clock two_reads (with_handler allow_all 7) new in
    let again =
      run replay_handle two_reads
        (with_handler allow_all (replay_new (capability_results o.2)))
        new in
    verify_full one_text o.2 again.2 ≡ identical
verify_full-run_replay_example = verify_full-run_replay clock one_text two_reads allow_all 7

abbrev sealed_log : EventLog
sealed_log = (run clock two_reads (with_handler allow_all 7) new).2

sealed_two_reads :
    run_sealed clock one_text two_reads allow_all 7 ≡ ok (int (pos 8), sealed_log, true)
unfolding run_sealed replay_verified run call dispatch settle with_handler is_allowed over_budget
    BTreeMap.get BTreeMap.insert name replay_handle capability_results results_in verify_full
    compare_events compare_from
sealed_two_reads = refl

run_sealed_verified_example : ◌≡◌ {A = Bool} true true
run_sealed_verified_example =
    run_sealed_verified clock one_text two_reads allow_all 7 sealed_two_reads

abbrev nan_log : EventLog
nan_log = record new { events = cap_call "db.query" (float 0x7FF8000000000000 ∷ []) ∷ [] }

verify_self_example : is_identical (verify nan_log nan_log) ≡ not (calls_nan nan_log.events)
verify_self_example = verify_self nan_log

-- A log with a NaN argument diverges from itself.
nan_diverges : is_identical (verify nan_log nan_log) ≡ false
unfolding verify cap_calls same_call compare_events compare_from args_eq value_eq
nan_diverges = refl

verify_iff_example :
    (verify sealed_log sealed_log ≡ identical)
    ↔ SameCalls (recorded_calls sealed_log.events) (recorded_calls sealed_log.events)
verify_iff_example = verify_iff sealed_log sealed_log

newer_version_refused :
    from_json (λ _. ok (record new { version = 3 })) (λ _. "unsupported") "" ≡ err "unsupported"
unfolding from_json
newer_version_refused = refl

abbrev no_debug : List String → String
no_debug _ = "[]"

abbrev two_providers : LlmRouterHandler ℕ ℕ
two_providers = record { providers = ("ollama", 1) ∷ ("openai", 5) ∷ []; fallback = 9 }

abbrev gpt_args : List Value
gpt_args = string "hi" ∷ string "openai/gpt-4" ∷ []

gpt_routes : route no_debug ("ollama" ∷ "openai" ∷ []) (some (string "openai/gpt-4")) ≡ ok "openai"
unfolding route split_provider
gpt_routes = refl

router_isolates_example :
    ((router_handle no_debug (λ _. clock) clock two_providers llm_call gpt_args).1.fallback ≡ 9)
    × (BTreeMap.get "ollama"
          (router_handle no_debug (λ _. clock) clock two_providers llm_call gpt_args).1.providers
        ≡ BTreeMap.get "ollama" two_providers.providers)
unfolding route split_provider BTreeMap.keys
router_isolates_example =
    router_isolates no_debug (λ _. clock) clock two_providers llm_call gpt_args "ollama" refl
      (λ e. ground (arith, eq_iff "openai" "ollama"))
