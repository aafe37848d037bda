-- ===== src/Vm/Sealed.antt =====
-- crates/boruna-mcp/src/tools/sealed.rs: the run and the replay of `run_sealed`, for a client that
-- stands for the compiled module under its step limit, and ends in a result and a state.
use boruna.Prelude.{String, ◌≡◌, Bool, true, false, Option, Result, ok, err, arith}
use boruna.Bytecode.Value.{Value}
use boruna.Vm.EventLog.{EventLog, Event, new, capability_results}
use boruna.Vm.Policy.{Policy}
use boruna.Vm.Error.{VmError}
use boruna.Vm.Gateway.{Handler, with_handler}
use boruna.Vm.Handlers.{replay_new, replay_handle}
use boruna.Vm.Client.{Client, run}
use boruna.Vm.Verify.{verify_full, is_identical}
use boruna.Vm.Replay.{run_replay, verify_full-run_replay}

-- the result of `vm.run()`
abbrev pub result_of_run :
    {E : Type 0} → Result (Result Value VmError × E) (VmError × E) → Result Value VmError
result_of_run (ok (r, _)) = r
result_of_run (err (e, _)) = err e

module _ {E S : Type 0} (handle : Handler S) (to_string : Event → Option String) where
  -- `replay_verified`: false where the replay itself fails
  unfoldable pub replay_verified : Client (Result Value VmError × E) E → Policy → EventLog → Bool
  replay_verified client policy original =
      let (result, _, log) =
        run replay_handle client (with_handler policy (replay_new (capability_results original)))
          new in
      elim (result_of_run result) [
        | ok _ ↦ is_identical (verify_full to_string original log)
        | err _ ↦ false
      ]

  -- the value, the log and the verdict, or the error of the original run
  unfoldable pub run_sealed :
      Client (Result Value VmError × E) E → Policy → S → Result (Value × EventLog × Bool) VmError
  run_sealed client policy s =
      let (result, _, log) = run handle client (with_handler policy s) new in
      elim (result_of_run result) [
        | ok v ↦ ok (v, log, replay_verified client policy log)
        | err e ↦ err e
      ]

  -- Every sealed run that returns a record carries the verdict that its replay was verified.
  pub run_sealed_verified :
      (client : Client (Result Value VmError × E) E) (policy : Policy) (s : S) {v : Value}
      {log : EventLog} {verified : Bool}
      → run_sealed client policy s ≡ ok (v, log, verified)
      → verified ≡ true
  unfolding run_sealed replay_verified
  run_sealed_verified client policy s {v} {log} {verified} h = ground (
    arith,
    run_replay handle client policy s,
    verify_full-run_replay handle to_string client policy s,
  )
