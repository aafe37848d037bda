-- ===== src/Machine/Running.antt =====
-- crates/llmvm/src/vm.rs: the loop ends within its step limit, and keeps the state safe.
use mathlib.Core.Path.{fun_ext}
use boruna.Prelude.{
  ℕ, zero, suc, ◌+◌, ◌-◌, ◌≤◌, ◌<◌, ◌≡◌, refl, sym, ap, ◌∙◌, inl, inr, Bool, true, none, some, [],
  arith, ltb, Bool-cases, Option-cases, Result, ok, err, length, length-replicate,
}
use boruna.Bytecode.Value.{unit}
use boruna.Vm.Error.{VmError, execution_limit_exceeded}
use boruna.Vm.Client.{Client, finish}
use boruna.Machine.Platform.{Platform}
use boruna.Machine.Module.{Module}
use boruna.Machine.State.{Core, call_function, max_stack}
use boruna.Machine.Parts.{Turn, continue, stop}
use boruna.Machine.Exec.{turn}
use boruna.Machine.Loop.{
  Ended, Vm, after_entry, after_turn, counted, execute, execute_for, limit_reached, new, new_core,
  round, run, stopped, with_core, within,
}
use boruna.Machine.Ends.{Ends, Ends-within}
use boruna.Machine.Safe.{Declared, IsSafe, call_function-Safe}
use boruna.Machine.Turns.{turn-IsSafe}

module _ (platform : Platform) (clock : ℕ → ℕ) where
  over : Vm → Bool
  over vm = ltb vm.max_steps (suc vm.step_count)

  limit-over :
      (vm : Vm)
      → over vm ≡ true
      → limit_reached platform clock (counted platform clock vm)
        ≡ some (execution_limit_exceeded vm.max_steps)
  unfolding over limit_reached
  limit-over vm h = ground arith

  round-over :
      (again : Core → Client Ended Vm) (vm : Vm)
      → over vm ≡ true
      → round platform clock again vm
        ≡ finish (err (execution_limit_exceeded vm.max_steps), counted platform clock vm)
  unfolding round
  round-over again vm h = rw (limit-over vm h, round)

  -- more fuel than there are steps left makes no difference
  execute_for-enough :
      (j k : ℕ) (vm : Vm)
      → vm.max_steps - vm.step_count < j
      → vm.max_steps - vm.step_count < k
      → execute_for platform clock j vm ≡ execute_for platform clock k vm
  unfolding execute_for over
  execute_for-enough zero k vm hj hk = absurd (omega arith)
  execute_for-enough (suc j) zero vm hj hk = absurd (omega arith)
  execute_for-enough (suc j) (suc k) vm hj hk = elim (Bool-cases (over vm)) [
    | inl e ↦ round-over _ vm e ∙ sym (round-over _ vm e)
    | inr e ↦
        ap (λ again. round platform clock again vm)
          (fun_ext (λ core.
            execute_for-enough j k (with_core (counted platform clock vm) core) (ground arith)
              (ground arith)))
  ]

  -- The loop ends by itself: with any fuel above the number of steps that are left, the result is that
  -- of `execute`, whatever the capability calls return.
  pub execute-enough :
      (k : ℕ) (vm : Vm)
      → vm.max_steps - vm.step_count < k
      → execute_for platform clock k vm ≡ execute platform clock vm
  unfolding execute
  execute-enough k vm h =
      execute_for-enough k (suc (vm.max_steps - vm.step_count)) vm h (omega arith)

  -- A state of the module `m` with at most one value above the bound of `push` for each step.
  abbrev pub Bounded : Module → ℕ → Vm → Type 0
  Bounded m max vm =
      IsSafe m (max_stack + vm.step_count) vm.core
      × (vm.max_steps ≡ max)
      × (vm.step_count ≤ suc max)

  module _ (m : Module) (max : ℕ) where
    abbrev AllBounded : Client Ended Vm → Type 0
    AllBounded = Ends (Declared m) (Bounded m max) (λ (o : Ended). Bounded m max o.1)

    counted-Bounded :
        (vm : Vm)
        → Bounded m max vm
        → vm.step_count ≤ max
        → Bounded m max (counted platform clock vm)
    counted-Bounded vm b h = (ground (arith, b.0), b.1, ground arith)

    limit-none :
        (vm : Vm)
        → vm.max_steps ≡ max
        → limit_reached platform clock (counted platform clock vm) ≡ none
        → suc vm.step_count ≤ max
    unfolding limit_reached
    limit-none vm e h = ground arith

    round-Bounded :
        (again : Core → Client Ended Vm) (vm : Vm)
        → Bounded m max vm
        → vm.step_count ≤ max
        → ((core : Core)
            → suc vm.step_count ≤ max
            → Bounded m max (with_core (counted platform clock vm) core)
            → AllBounded (again core))
        → AllBounded (round platform clock again vm)
    unfolding round
    round-Bounded again vm b h ih =
        elim (Option-cases (limit_reached platform clock (counted platform clock vm))) [
          | inr (e, l) ↦ rw (l, round) (counted-Bounded vm b h)
          | inl l ↦
              rw (l, round)
                (Ends-within (Declared m) (IsSafe m (suc (max_stack + vm.step_count)))
                  (λ (o : Result Turn VmError × Core).
                    IsSafe m (suc (max_stack + vm.step_count)) o.1)
                  (Bounded m max) (λ (o : Ended). Bounded m max o.1)
                  (after_turn platform clock again (counted platform clock vm))
                  (with_core (counted platform clock vm)) bounded
                  (λ o. after (limit-none vm b.1 l) o.0 o.1) (turn platform vm.core)
                  (turn-IsSafe platform m (max_stack + vm.step_count) (omega arith) vm.core b.0))
        ]
      where
        bounded :
            (core : Core)
            → IsSafe m (suc (max_stack + vm.step_count)) core
            → Bounded m max (with_core (counted platform clock vm) core)
        bounded core s = (ground arith, b.1, ground arith)

        after :
            suc vm.step_count ≤ max
            → (r : Result Turn VmError) (core : Core)
            → IsSafe m (suc (max_stack + vm.step_count)) core
            → AllBounded (after_turn platform clock again (counted platform clock vm) (r, core))
        after le (ok continue) core s = ih core le (bounded core s)
        after le (ok (stop v)) core s = bounded core s
        after le (err e) core s = bounded core s

    execute_for-Bounded :
        (k : ℕ) (vm : Vm)
        → Bounded m max vm
        → vm.step_count ≤ max
        → AllBounded (execute_for platform clock k vm)
    unfolding execute_for
    execute_for-Bounded zero vm b h = b
    execute_for-Bounded (suc k) vm b h =
        round-Bounded
          (λ core. execute_for platform clock k (with_core (counted platform clock vm) core)) vm b h
          (λ core le c. execute_for-Bounded k (with_core (counted platform clock vm) core) c le)

    -- From a safe state of the module within its steps, a run ends, whatever the capability calls
    -- return, with at most one step above the limit, in a state of the same module where every frame is
    -- of a function that is there, at most 256 calls deep, with as many globals as the module has, and
    -- with at most one value above 4096 on the stack for each step; and it calls only capabilities that
    -- some function of the module declares.
    pub run-Bounded :
        (vm : Vm)
        → Bounded m max vm
        → vm.step_count ≤ max
        → Ends
            (Declared m)
            (Bounded m max)
            (λ (o : Ended). Bounded m max o.1)
            (run platform clock vm)
    unfolding run execute
    run-Bounded vm b h =
        Ends-within (Declared m) (Bounded m max) (λ (o : Ended). Bounded m max o.1) (Bounded m max)
          (λ (o : Ended). Bounded m max o.1) (λ (r, end). finish (r, stopped platform clock end))
          (stopped platform clock) (λ end e. e) (λ o e. e)
          (within (after_entry platform clock vm') (with_core vm')
            (call_function vm.core.code.entry [] vm.core))
          (Ends-within (Declared m) (IsSafe m (max_stack + vm.step_count))
            (λ (o : Result (Unit {0}) VmError × Core). IsSafe m (max_stack + vm.step_count) o.1)
            (Bounded m max) (λ (o : Ended). Bounded m max o.1) (after_entry platform clock vm')
            (with_core vm') (λ core s. (s, b.1, b.2)) (λ o. entered o.0 o.1)
            (call_function vm.core.code.entry [] vm.core)
            ((call_function-Safe m (max_stack + vm.step_count) (omega arith) vm.core.code.entry
                []).keeps
              vm.core b.0))
      where
        vm' : Vm
        vm' = record vm { start_time = some (clock vm.step_count) }

        entered :
            (r : Result (Unit {0}) VmError) (core : Core)
            → IsSafe m (max_stack + vm.step_count) core
            → AllBounded (after_entry platform clock vm' (r, core))
        entered (ok _) core s =
            execute_for-Bounded (suc (vm.max_steps - vm.step_count)) (with_core vm' core)
              (s, b.1, b.2) h
        entered (err e) core s = (s, b.1, b.2)

  -- a fresh machine
  pub new-Bounded : (m : Module) → Bounded m (new m).max_steps (new m)
  unfolding new new_core
  new-Bounded m = (
    record {
      code = refl;
      height = omega arith;
      depth = omega arith;
      frames = tt;
      globals = length-replicate (length m.globals) unit;
    },
    refl,
    omega arith,
  )
