-- ===== src/Machine/Turns.antt =====
-- crates/llmvm/src/vm.rs: what a turn of the loop and the capabilities that it asks for.
use mathlib.Core.Path.{subst}
use boruna.Prelude.{
  ℕ, zero, suc, ◌≤◌, ◌≡◌, refl, inl, inr, Bool, true, false, some, List, [], ◌∷◌, arith,
  Option-cases, Result, ok, err, length, get_elem?, push, any,
}
use boruna.Bytecode.Value.{unit}
use boruna.Vm.Error.{VmError}
use boruna.Vm.Client.{Client, finish, ask, note}
use boruna.Machine.Opcode.{Op}
use boruna.Machine.Platform.{Platform}
use boruna.Machine.Module.{Function, Module}
use boruna.Machine.State.{
  CallFrame, Core, TraceLine, func_at, max_stack, modify, return, then_do, ◌>>◌,
}
use boruna.Machine.Parts.{Turn, continue, has_capability, leave, stop}
use boruna.Machine.Exec.{
  advanced, exec_op, frame_turn, return_unit, trace_if, traced, turn, turn_of,
}
use boruna.Machine.Ends.{Ends, Ends-imp, EndsIn, Keeps-bind, Keeps-return}
use boruna.Machine.Safe.{Declared, IsSafe, leave-Safe, moved_to, pop_or_unit-Safe}
use boruna.Machine.Instructions.{exec_op-Safe}

any_at :
    {A : Type 0} (p : A → Bool) (xs : List A) (i : ℕ) (x : A)
    → get_elem? xs i ≡ some x
    → p x ≡ true
    → any p xs ≡ true
any_at p [] i x e h = cc
any_at p (y ∷ xs) zero x e h = ground arith
any_at p (y ∷ xs) (suc i) x e h = ground (arith, any_at p xs i x e h)

module _ (platform : Platform) (m : Module) (n : ℕ) (enough : max_stack ≤ n) where
  looser : (vm : Core) → IsSafe m n vm → IsSafe m (suc n) vm
  looser vm s = ground arith

  loosely :
      (client : Client (Result Turn VmError × Core) Core)
      → EndsIn (Declared m) (IsSafe m n) client
      → EndsIn (Declared m) (IsSafe m (suc n)) client
  loosely client =
      Ends-imp (Declared m) (IsSafe m n) (IsSafe m (suc n)) (λ o. IsSafe m n o.1)
        (λ o. IsSafe m (suc n) o.1) looser (λ o. looser o.1) client

  -- the end of the code may put one value more on the stack than an instruction may
  return_unit_ends :
      (vm : Core) → IsSafe m n vm → EndsIn (Declared m) (IsSafe m (suc n)) (return_unit platform vm)
  unfolding return_unit then_do
  return_unit_ends vm s = grown (leave vm) ((leave-Safe m n enough).keeps vm s)
    where
      grown :
          (client : Client (Result (Unit {0}) VmError × Core) Core)
          → EndsIn (Declared m) (IsSafe m n) client
          → EndsIn (Declared m) (IsSafe m (suc n)) (
              then_do
                (λ _. do modify (λ w. record w { stack = unit ∷ w.stack }); return continue)
                client)
      grown (finish (ok _, w)) h = ground arith
      grown (finish (err e, w)) h = looser w h
      grown (ask c args w next) h = (h.0, looser w h.1, λ v. grown (next v) (h.2 v))
      grown (note k next) h = grown next h

  ready :
      (f : Function) (ip : ℕ) (op : Op) (vm : Core)
      → IsSafe m n vm
      → IsSafe m n (advanced platform ip (traced platform f ip op vm))
  ready f ip op vm s = go vm.trace_enabled
    where
      line : TraceLine
      line = record { function = f.name; ip = ip; op = op; stack_depth = length vm.stack }

      go : (b : Bool) → IsSafe m n (advanced platform ip (trace_if platform b line vm))
      go true =
          moved_to m n enough (suc ip) (record vm { trace = push vm.trace line }) vm.call_stack refl
            (ground arith)
      go false = moved_to m n enough (suc ip) vm vm.call_stack refl s

  frame_turn_ends :
      (frame : CallFrame) (vm : Core)
      → IsSafe m n vm
      → EndsIn (Declared m) (IsSafe m (suc n)) (frame_turn platform frame vm)
  unfolding frame_turn
  frame_turn_ends frame vm s = elim (Option-cases (func_at vm frame.func_idx)) [
    | inl e ↦ rw (e, frame_turn) (looser vm s)
    | inr (f, e) ↦ elim (Option-cases (get_elem? f.code frame.ip)) [
      | inl h ↦ rw (e, h, frame_turn) (return_unit_ends vm s)
      | inr (op, h) ↦
          rw (e, h, frame_turn)
            (loosely
              (exec_op platform f frame.ip op
                (advanced platform frame.ip (traced platform f frame.ip op vm)))
              ((exec_op-Safe m n enough platform f
                  (λ c.
                    any_at (λ g. has_capability g c) m.functions frame.func_idx f
                      (subst (λ (k : Module). get_elem? k.functions frame.func_idx ≡ some f) s.code
                        e))
                  frame.ip op).keeps
                _ (ready f frame.ip op vm s)))
    ]
  ]

  turn_ends :
      (frames : List CallFrame) (vm : Core)
      → IsSafe m n vm
      → EndsIn (Declared m) (IsSafe m (suc n)) (turn_of platform frames vm)
  turn_ends [] vm s = loosely (turn_of platform [] vm) (
      (Keeps-bind (Declared m) (IsSafe m n) (pop_or_unit-Safe m n enough)
          (λ v. Keeps-return (Declared m) (IsSafe m n) (stop v))).keeps
        vm s)
  turn_ends (frame ∷ frames) vm s = frame_turn_ends frame vm s

  -- From a safe state with at most `n` values on the stack, where `n` is at least the bound of `push`,
  -- a turn ends in a safe state with at most one value more, is in a safe state at every capability
  -- call, and calls only capabilities that some function of the module declares.
  pub turn-IsSafe :
      (vm : Core)
      → IsSafe m n vm
      → Ends
          (Declared m)
          (IsSafe m (suc n))
          (λ (o : Result Turn VmError × Core). IsSafe m (suc n) o.1)
          (turn platform vm)
  unfolding turn
  turn-IsSafe vm s = turn_ends vm.call_stack vm s
