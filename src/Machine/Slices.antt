-- ===== src/Machine/Slices.antt =====
-- crates/llmvm/src/vm.rs: the loop under a limit is a number of turns, and then the error of the
-- limit. So a run by slices takes the turns that a run without a pause takes.
use mathlib.Core.Path.{fun_ext}
use boruna.Prelude.{
  ℕ, zero, suc, ◌+◌, ◌-◌, ◌≤◌, ◌<◌, ◌≡◌, refl, sym, ap, ◌∙◌, none, some, arith, Result, ok, err,
}
use boruna.Bytecode.Value.{Value}
use boruna.Vm.Error.{
  VmError, stack_underflow, execution_limit_exceeded, budget_exhausted, mailbox_empty,
}
use boruna.Vm.Client.{Client, finish, ask, note}
use boruna.Machine.Platform.{Platform}
use boruna.Machine.State.{Core}
use boruna.Machine.Parts.{Turn, continue, stop}
use boruna.Machine.Exec.{turn}
use boruna.Machine.Loop.{
  Ended, StepResult, Vm, after_turn, blocked, budgeted, completed, counted, error, execute,
  execute_bounded, execute_for, limit_reached, round, slice_end, started, stopped, with_core,
  within, yielded,
}

within-within :
    {A B C E F H : Type 0} (k : B → Client C H) (f : F → H) (k' : A → Client B F) (f' : E → F)
    (client : Client A E)
    → within k f (within k' f' client) ≡ within (λ a. within k f (k' a)) (λ s. f (f' s)) client
unfolding within
within-within k f k' f' (finish a) = refl
within-within k f k' f' (ask c args s next) =
    ap (ask c args (f (f' s))) (fun_ext (λ v. within-within k f k' f' (next v)))
within-within k f k' f' (note n next) = ap (note n) (within-within k f k' f' next)

-- how some turns end: they are used up, or the loop is left
pub data Pause : Type 0 where
  paused : Pause
  ended : Result Value VmError → Pause

abbrev pub same : Core → Core
same core = core

abbrev pub Some : Type 0
Some = Client (Pause × Core) Core

abbrev pub next_turn : (Core → Some) → Result Turn VmError × Core → Some
next_turn again (ok continue, core) = again core
next_turn again (ok (stop v), core) = finish (ended (ok v), core)
next_turn again (err e, core) = finish (ended (err e), core)

-- the result of turns that end in an error when they are used up
abbrev pub expire : VmError → Pause × Core → Client (Result Value VmError × Core) Core
expire e (paused, core) = finish (err e, core)
expire e (ended r, core) = finish (r, core)

-- a result without the counters and the limits
abbrev pub core_end : Ended → Client (Result Value VmError × Core) Core
core_end (r, vm) = finish (r, vm.core)

abbrev pub core_of : Vm → Core
core_of vm = vm.core

module _ (platform : Platform) where
  -- as many turns, with no limit
  unfoldable pub turns : ℕ → Core → Some
  unfolding within turn
  turns zero core = finish (paused, core)
  turns (suc k) core = within (next_turn (turns k)) same (turn platform core)

  abbrev pub resume : ℕ → Pause × Core → Some
  resume j (paused, core) = turns j core
  resume j (ended r, core) = finish (ended r, core)

  next_turn-resume :
      (j : ℕ) (again onward : Core → Some)
      → ((core : Core) → onward core ≡ within (resume j) same (again core))
      → (o : Result Turn VmError × Core)
      → next_turn onward o ≡ within (resume j) same (next_turn again o)
  unfolding within
  next_turn-resume j again onward h (ok continue, core) = h core
  next_turn-resume j again onward h (ok (stop v), core) = refl
  next_turn-resume j again onward h (err e, core) = refl

  -- Turns follow on each other: a pause between them leaves no trace.
  turns_add : (i j : ℕ) (core : Core) → turns (i + j) core ≡ within (resume j) same (turns i core)
  unfolding turns within
  turns_add zero j core = ap (λ k. turns k core) (omega arith)
  turns_add (suc i) j core =
      let sum : suc i + j ≡ suc (i + j) = omega arith in
      ap (λ k. turns k core) sum
      ∙ (ap (λ k. within k same (turn platform core))
            (fun_ext (next_turn-resume j (turns i) (turns (i + j)) (turns_add i j)))
          ∙ sym (within-within (resume j) same (next_turn (turns i)) same (turn platform core)))

  module _ (clock : ℕ → ℕ) where
    -- the limit lets `j` rounds pass, and then ends the loop with `e`
    abbrev Lasts : VmError → ℕ → Vm → Type 0
    Lasts e zero vm = limit_reached platform clock (counted platform clock vm) ≡ some e
    Lasts e (suc j) vm =
        (limit_reached platform clock (counted platform clock vm) ≡ none)
        × ((core : Core) → Lasts e j (with_core (counted platform clock vm) core))

    after_turn-next_turn :
        (e : VmError) (vm : Vm) (again : Core → Client Ended Vm) (onward : Core → Some)
        → ((core : Core)
            → within core_end core_of (again core) ≡ within (expire e) same (onward core))
        → (o : Result Turn VmError × Core)
        → within core_end core_of (after_turn platform clock again vm o)
          ≡ within (expire e) same (next_turn onward o)
    unfolding within
    after_turn-next_turn e vm again onward h (ok continue, core) = h core
    after_turn-next_turn e vm again onward h (ok (stop v), core) = refl
    after_turn-next_turn e vm again onward h (err x, core) = refl

    execute_for-turns :
        (e : VmError) (j k : ℕ) (vm : Vm)
        → Lasts e j vm
        → j < k
        → within core_end core_of (execute_for platform clock k vm)
          ≡ within (expire e) same (turns j vm.core)
    unfolding execute_for round turns within
    execute_for-turns e j zero vm l h = absurd (omega arith)
    execute_for-turns e zero (suc k) vm l h = rw (l, round) refl
    execute_for-turns e (suc j) (suc k) vm l h =
        rw (l.0, round)
          (within-within core_end core_of
              (after_turn platform clock again (counted platform clock vm))
              (with_core (counted platform clock vm)) (turn platform vm.core)
            ∙ (ap (λ f. within f same (turn platform vm.core))
                  (fun_ext (
                    after_turn-next_turn e (counted platform clock vm) again (turns j) (λ core.
                      execute_for-turns e j k (with_core (counted platform clock vm) core)
                        (l.1 core) (omega arith))))
                ∙ sym (
                    within-within (expire e) same (next_turn (turns j)) same
                      (turn platform vm.core))))
      where
        again : Core → Client Ended Vm
        again core = execute_for platform clock k (with_core (counted platform clock vm) core)

    Lasts-steps :
        (j : ℕ) (vm : Vm)
        → vm.max_wall_ms ≡ none
        → vm.budget ≡ none
        → vm.step_count + j ≡ vm.max_steps
        → Lasts (execution_limit_exceeded vm.max_steps) j vm
    unfolding limit_reached
    Lasts-steps zero vm w b h = ground arith
    Lasts-steps (suc j) vm w b h = (
      ground arith,
      λ core. Lasts-steps j (with_core (counted platform clock vm) core) w b (omega arith),
    )

    Lasts-budget :
        (j budget : ℕ) (vm : Vm)
        → vm.max_wall_ms ≡ none
        → vm.budget ≡ some budget
        → vm.budget_start ≤ vm.step_count
        → vm.step_count + suc j ≡ vm.budget_start + budget
        → vm.step_count + suc j ≤ vm.max_steps
        → Lasts budget_exhausted j vm
    unfolding limit_reached
    Lasts-budget zero budget vm w b g h l = ground arith
    Lasts-budget (suc j) budget vm w b g h l = (
      ground arith,
      λ core.
          Lasts-budget j budget (with_core (counted platform clock vm) core) w b (omega arith)
            (omega arith) (omega arith),
    )

    -- the result of a slice, as that of the loop
    abbrev pub slice_result : StepResult → Result Value VmError
    slice_result (completed v) = ok v
    slice_result (yielded _) = err budget_exhausted
    slice_result blocked = err mailbox_empty
    slice_result (error e) = err e

    abbrev pub slice_core : StepResult × Vm → Client (Result Value VmError × Core) Core
    slice_core (r, vm) = finish (slice_result r, vm.core)

    slice_end-core_end : (o : Ended) → slice_core (slice_end platform clock o) ≡ core_end o
    slice_end-core_end (ok v, vm) = refl
    slice_end-core_end (err stack_underflow, vm) = refl
    slice_end-core_end (err budget_exhausted, vm) = refl
    slice_end-core_end (err mailbox_empty, vm) = refl
    slice_end-core_end (err _, vm) = refl

    pub execute-turns :
        (vm : Vm)
        → vm.max_wall_ms ≡ none
        → (vm.budget ≡ none
            → vm.step_count ≤ vm.max_steps
            → within core_end core_of (execute platform clock vm)
              ≡ within
                  (expire (execution_limit_exceeded vm.max_steps))
                  same
                  (turns (vm.max_steps - vm.step_count) vm.core))
          × ((j : ℕ)
              → vm.step_count + suc j ≤ vm.max_steps
              → within slice_core core_of (execute_bounded platform clock (suc j) vm)
                ≡ within (expire budget_exhausted) same (turns j vm.core))
    unfolding execute execute_bounded within
    execute-turns vm w = (
      λ b h.
          execute_for-turns (execution_limit_exceeded vm.max_steps) (vm.max_steps - vm.step_count)
            (suc (vm.max_steps - vm.step_count)) vm
            (Lasts-steps (vm.max_steps - vm.step_count) vm w b (omega arith)) (omega arith),
      λ j h.
          within-within slice_core core_of (λ o. finish (slice_end platform clock o))
            (λ s. stopped platform clock (record s { budget = none }))
            (execute platform clock (budgeted platform clock (suc j) (started platform clock vm)))
          ∙ (ap
                (λ k. within k core_of (
                  execute platform clock
                    (budgeted platform clock (suc j) (started platform clock vm))))
                (fun_ext slice_end-core_end)
              ∙ execute_for-turns budget_exhausted j (suc (vm.max_steps - vm.step_count))
                  (budgeted platform clock (suc j) (started platform clock vm))
                  (Lasts-budget j (suc j)
                    (budgeted platform clock (suc j) (started platform clock vm)) w refl
                    (omega arith) refl h)
                  (omega arith)),
    )
