-- ===== src/Machine/Overflow.antt =====
-- crates/llmvm/src/vm.rs: the return at the end of the code of a function is not stopped by the bound
-- of the stack.
use boruna.Prelude.{
  ℕ, zero, suc, ◌+◌, ◌-◌, ◌*◌, ◌<◌, ◌≤◌, ◌≡◌, refl, sym, ap, ◌∙◌, false, none, some, List, [], ◌∷◌,
  ◌++◌, arith, ok, err, leb, length, get_elem?, replicate,
}
use boruna.Bytecode.Value.{Value, unit}
use boruna.Vm.Client.{finish}
use boruna.Vm.Error.{execution_limit_exceeded}
use boruna.Machine.Platform.{Platform}
use boruna.Machine.Opcode.{Op}
use boruna.Machine.Module.{Function}
use boruna.Machine.State.{
  CallFrame, Core, call_function, fill_locals, func_at, jump, pop_args, then_do, truncate,
}
use boruna.Machine.Parts.{continue, leave}
use boruna.Machine.Handlers.{exec_call, exec_jmp}
use boruna.Machine.Exec.{exec_op, frame_turn, return_unit, turn}
use boruna.Machine.Loop.{Vm, execute, within}
use boruna.Machine.Slices.{core_end, core_of, execute-turns, expire, paused, same, turns}

truncate_self : (n : ℕ) (stack : List Value) → length stack ≤ n → truncate n stack ≡ stack
unfolding truncate
truncate_self n [] h = refl
truncate_self n (v ∷ rest) h = ground arith

replicate-shift :
    (n : ℕ) (stack : List Value)
    → replicate n unit ++ (unit ∷ stack) ≡ unit ∷ (replicate n unit ++ stack)
replicate-shift zero stack = refl
replicate-shift (suc n) stack = ap (λ st. unit ∷ st) (replicate-shift n stack)

fill_locals_none : (locals : List Value) → fill_locals locals [] ≡ locals
unfolding fill_locals
fill_locals_none [] = refl
fill_locals_none (u ∷ us) = refl

-- a core without a trace, with these frames and this stack
abbrev at : Core → List CallFrame → List Value → Core
at vm frames stack = record vm { call_stack = frames; stack = stack; trace_enabled = false }

abbrev called : ℕ → List Value → List Value → CallFrame
called target stack locals = record {
  func_idx = target;
  ip = 0;
  stack_base = length stack;
  locals = locals;
}

module _ (platform : Platform) (vm : Core) (frame : CallFrame) (frames : List CallFrame)
    (f g : Function) (target : ℕ) where
  turn-exec_call :
      (stack : List Value)
      → func_at vm frame.func_idx ≡ some f
      → get_elem? f.code frame.ip ≡ some (Op.call target 0)
      → func_at vm target ≡ some g
      → suc (length frames) < 256
      → turn platform (at vm (frame ∷ frames) stack)
        ≡ finish (
          ok continue,
          at vm
              (called target stack (replicate g.locals unit)
                ∷ record frame { ip = suc frame.ip }
                ∷ frames)
              stack,
        )
  unfolding turn frame_turn exec_op exec_call pop_args call_function then_do
  turn-exec_call stack there code callee shallow =
      let deep : leb 256 (suc (length frames)) ≡ false = ground arith in
      rw (there, code, callee, frame_turn, call_function, deep)
        (ap
          (λ locals. finish (
            ok continue,
            at vm (called target stack locals ∷ record frame { ip = suc frame.ip } ∷ frames) stack,
          ))
          (fill_locals_none (replicate g.locals unit)))

  turn-return_unit :
      (stack : List Value) (callers : List CallFrame)
      → func_at vm target ≡ some g
      → g.code ≡ []
      → turn platform (at vm (called target stack (replicate g.locals unit) ∷ callers) stack)
        ≡ finish (ok continue, at vm callers (unit ∷ stack))
  unfolding turn frame_turn return_unit then_do leave
  turn-return_unit stack callers callee empty =
      rw (callee, empty, frame_turn)
        (ap (λ below. finish (ok continue, at vm callers (unit ∷ below)))
          (truncate_self (length stack) stack (omega arith)))

  turn-exec_jmp :
      (stack : List Value)
      → func_at vm frame.func_idx ≡ some f
      → get_elem? f.code (suc frame.ip) ≡ some (Op.jmp frame.ip)
      → turn platform (at vm (record frame { ip = suc frame.ip } ∷ frames) stack)
        ≡ finish (ok continue, at vm (frame ∷ frames) stack)
  unfolding turn frame_turn exec_op exec_jmp jump then_do
  turn-exec_jmp stack there code = rw (there, code, frame_turn) refl

  turns_round :
      (n : ℕ) (stack : List Value)
      → func_at vm frame.func_idx ≡ some f
      → get_elem? f.code frame.ip ≡ some (Op.call target 0)
      → get_elem? f.code (suc frame.ip) ≡ some (Op.jmp frame.ip)
      → func_at vm target ≡ some g
      → g.code ≡ []
      → suc (length frames) < 256
      → turns platform (suc (suc (suc n))) (at vm (frame ∷ frames) stack)
        ≡ turns platform n (at vm (frame ∷ frames) (unit ∷ stack))
  unfolding turns within
  turns_round n stack there code next callee empty shallow =
      rw
        (
          turn-exec_call stack there code callee shallow,
          turn-return_unit stack (record frame { ip = suc frame.ip } ∷ frames) callee empty,
          turn-exec_jmp (unit ∷ stack) there next,
        )
        refl

  turns_rounds :
      (n : ℕ) (stack : List Value)
      → func_at vm frame.func_idx ≡ some f
      → get_elem? f.code frame.ip ≡ some (Op.call target 0)
      → get_elem? f.code (suc frame.ip) ≡ some (Op.jmp frame.ip)
      → func_at vm target ≡ some g
      → g.code ≡ []
      → suc (length frames) < 256
      → turns platform (n * 3) (at vm (frame ∷ frames) stack)
        ≡ finish (paused, at vm (frame ∷ frames) (replicate n unit ++ stack))
  unfolding turns
  turns_rounds zero stack there code next callee empty shallow = refl
  turns_rounds (suc n) stack there code next callee empty shallow =
      let three : suc n * 3 ≡ suc (suc (suc (n * 3))) = omega arith in
      ap (λ k. turns platform k (at vm (frame ∷ frames) stack)) three
      ∙ (turns_round (n * 3) stack there code next callee empty shallow
          ∙ (turns_rounds n (unit ∷ stack) there code next callee empty shallow
              ∙ ap (λ st. finish (paused, at vm (frame ∷ frames) st)) (replicate-shift n stack)))

  turns_grow :
      (n : ℕ)
      → vm.trace_enabled ≡ false
      → vm.call_stack ≡ frame ∷ frames
      → func_at vm frame.func_idx ≡ some f
      → get_elem? f.code frame.ip ≡ some (Op.call target 0)
      → get_elem? f.code (suc frame.ip) ≡ some (Op.jmp frame.ip)
      → func_at vm target ≡ some g
      → g.code ≡ []
      → suc (length frames) < 256
      → turns platform (n * 3) vm
        ≡ finish (paused, record vm { stack = replicate n unit ++ vm.stack })
  turns_grow n quiet top there code next callee empty shallow =
      let plain : (st : List Value) → at vm (frame ∷ frames) st ≡ record vm { stack = st } =
        λ st. rw (sym quiet, sym top) refl in
      ap (turns platform (n * 3)) (sym (plain vm.stack))
      ∙ (turns_rounds n vm.stack there code next callee empty shallow
          ∙ ap (λ c. finish (paused, c)) (plain (replicate n unit ++ vm.stack)))

-- A function that calls one without code and jumps back, with room in the call stack, no trace, no
-- limit on the time and no budget, runs until the step limit ends it: each three steps leave one value
-- more on the stack, and no bound on the stack ends the loop, whatever its height.
pub execute_overflows :
    (platform : Platform) (clock : ℕ → ℕ) (vm : Vm) (frame : CallFrame) (frames : List CallFrame)
    (f g : Function) (target n : ℕ)
    → vm.max_wall_ms ≡ none
    → vm.budget ≡ none
    → vm.step_count + n * 3 ≡ vm.max_steps
    → vm.core.trace_enabled ≡ false
    → vm.core.call_stack ≡ frame ∷ frames
    → func_at vm.core frame.func_idx ≡ some f
    → get_elem? f.code frame.ip ≡ some (Op.call target 0)
    → get_elem? f.code (suc frame.ip) ≡ some (Op.jmp frame.ip)
    → func_at vm.core target ≡ some g
    → g.code ≡ []
    → suc (length frames) < 256
    → within core_end core_of (execute platform clock vm)
      ≡ finish (
        err (execution_limit_exceeded vm.max_steps),
        record vm.core { stack = replicate n unit ++ vm.core.stack },
      )
unfolding within
execute_overflows platform clock vm frame frames f g target n wall budget steps quiet top there code
      next callee empty shallow =
    let left : vm.max_steps - vm.step_count ≡ n * 3 = omega arith in
    let end = expire (execution_limit_exceeded vm.max_steps) in
    (execute-turns platform clock vm wall).0 budget (omega arith)
    ∙ ap (within end same) (
        ap (λ k. turns platform k vm.core) left
        ∙ turns_grow platform vm.core frame frames f g target n quiet top there code next callee
            empty shallow)
