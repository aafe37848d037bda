-- ===== src/Machine/Safe.antt =====
-- crates/llmvm/src/vm.rs: what every instruction keeps of the state: the module, the depth of the
-- calls, frames of functions that are there, and the height of the stack.
use mathlib.Core.Path.{subst}
use boruna.Prelude.{
  ℕ, zero, suc, ◌≤◌, ◌≡◌, refl, ap, Bool, true, not, List, [], ◌∷◌, some, arith, leb, length,
  get_elem?, set, any, is_none, All, Bool-cases, Option-cases, inl, inr,
}
use boruna.Bytecode.Capability.{Capability}
use boruna.Bytecode.Value.{Value}
use boruna.Machine.Module.{Module}
use boruna.Machine.State.{
  CallFrame, Core, M, call_function, func_at, get_local, jump, max_call_depth, max_stack, move_to,
  pop, pop_args, pop_from, push_value, set_local, truncate, with_local,
}
use boruna.Machine.Parts.{
  has_capability, leave, leave_from, pop_or_unit, pop_or_unit_from, set_global,
}
use boruna.Machine.Ends.{EndsIn, Keeps, Keeps-bind, Keeps-return}

-- some function of the module declares the capability
abbrev pub Declared : Module → Capability → Type 0
Declared m c = any (λ f. has_capability f c) m.functions ≡ true

abbrev pub is_there : Module → CallFrame → Bool
is_there m frame = not (is_none (get_elem? m.functions frame.func_idx))

-- The frames are of functions of the module.
abbrev pub AreThere : Module → List CallFrame → Type 0
AreThere m frames = All (λ frame. is_there m frame ≡ true) frames

-- a state of the module `m`, with at most `n` values on the stack
pub record IsSafe (m : Module) (n : ℕ) (vm : Core) : Type 0 where
  pub code : vm.code ≡ m
  pub height : length vm.stack ≤ n
  pub depth : length vm.call_stack ≤ max_call_depth
  pub frames : AreThere m vm.call_stack
  pub globals : length vm.globals ≡ length m.globals

module _ (m : Module) (n : ℕ) (enough : max_stack ≤ n) where
  abbrev pub Safe : {A : Type 0} → M A → Type 0
  Safe = Keeps (Declared m) (IsSafe m n)

  abbrev Ending : {A : Type 0} → M A → Type 0
  Ending k = (vm : Core) → IsSafe m n vm → EndsIn (Declared m) (IsSafe m n) (k vm)

  push_value-Ending : (v : Value) → Ending (push_value v)
  unfolding push_value
  push_value-Ending v vm s = elim (Bool-cases (leb max_stack (length vm.stack))) [
    | inl e ↦ rw e s
    | inr e ↦ rw e (ground arith)
  ]

  pop_from-Safe :
      (stack : List Value) (vm : Core)
      → vm.stack ≡ stack
      → IsSafe m n vm
      → EndsIn (Declared m) (IsSafe m n) (pop_from stack vm)
  pop_from-Safe [] vm e s = s
  pop_from-Safe (v ∷ rest) vm e s = ground (arith, ap length e)

  pop-Ending : Ending pop
  unfolding pop
  pop-Ending vm s = pop_from-Safe vm.stack vm refl s

  pop_or_unit-Ending : Ending pop_or_unit
  unfolding pop_or_unit
  pop_or_unit-Ending vm s = go vm.stack refl
    where
      go :
          (stack : List Value)
          → vm.stack ≡ stack
          → EndsIn (Declared m) (IsSafe m n) (pop_or_unit_from stack vm)
      go [] e = s
      go (v ∷ rest) e = ground (arith, ap length e)

  length-truncate : (k : ℕ) (stack : List Value) → length (truncate k stack) ≤ length stack
  unfolding truncate
  length-truncate k [] = ground arith
  length-truncate k (v ∷ rest) = ground (arith, length-truncate k rest)

  leave-Ending : Ending leave
  unfolding leave
  leave-Ending vm s = go vm.call_stack refl
    where
      go :
          (frames : List CallFrame)
          → vm.call_stack ≡ frames
          → EndsIn (Declared m) (IsSafe m n) (leave_from frames vm)
      go [] e = s
      go (f ∷ frames) e =
          let there : AreThere m (f ∷ frames) = subst (AreThere m) e s.frames in
          let deep : length (f ∷ frames) ≤ max_call_depth =
            subst (λ l. length l ≤ max_call_depth) e s.depth in
          record {
            code = s.code;
            height = ground (arith, length-truncate f.stack_base vm.stack, s.height);
            depth = ground (arith, deep);
            frames = there.1;
            globals = s.globals;
          }

  -- a frame in the place of the top one, of the same function
  moved :
      (vm : Core) (f g : CallFrame) (frames : List CallFrame)
      → vm.call_stack ≡ f ∷ frames
      → g.func_idx ≡ f.func_idx
      → IsSafe m n vm
      → IsSafe m n (record vm { call_stack = g ∷ frames })
  moved vm f g frames e same s =
      let there : AreThere m (f ∷ frames) = subst (AreThere m) e s.frames in
      let deep : length (f ∷ frames) ≤ max_call_depth =
        subst (λ l. length l ≤ max_call_depth) e s.depth in
      record {
        code = s.code;
        height = s.height;
        depth = deep;
        frames = (rw same there.0, there.1);
        globals = s.globals;
      }

  pub moved_to :
      (target : ℕ) (vm : Core) (frames : List CallFrame)
      → vm.call_stack ≡ frames
      → IsSafe m n vm
      → IsSafe m n (record vm { call_stack = move_to target frames })
  moved_to target vm [] e s = record {
    code = s.code;
    height = s.height;
    depth = ground arith;
    frames = tt;
    globals = s.globals;
  }
  moved_to target vm (f ∷ frames) e s = moved vm f (record f { ip = target }) frames e refl s

  jump-Ending : (target : ℕ) → Ending (jump target)
  unfolding jump
  jump-Ending target vm s = moved_to target vm vm.call_stack refl s

  get_local-Ending : (idx : ℕ) → Ending (get_local idx)
  unfolding get_local
  get_local-Ending idx vm s = s

  set_local-Ending : (idx : ℕ) (v : Value) → Ending (set_local idx v)
  unfolding set_local
  set_local-Ending idx v vm s = go vm.call_stack refl
    where
      go :
          (frames : List CallFrame)
          → vm.call_stack ≡ frames
          → EndsIn (Declared m) (IsSafe m n) (with_local frames idx v vm)
      go [] e = s
      go (f ∷ frames) e = elim (Bool-cases (leb (length f.locals) idx)) [
        | inl h ↦ rw h s
        | inr h ↦ rw h (moved vm f (record f { locals = set f.locals idx v }) frames e refl s)
      ]

  length-set : (xs : List Value) (i : ℕ) (v : Value) → length (set xs i v) ≡ length xs
  length-set [] i v = refl
  length-set (x ∷ xs) zero v = refl
  length-set (x ∷ xs) (suc i) v = ap suc (length-set xs i v)

  set_global-Ending : (idx : ℕ) (v : Value) → Ending (set_global idx v)
  set_global-Ending idx v vm s = elim (Bool-cases (leb (length vm.globals) idx)) [
    | inl e ↦ rw e s
    | inr e ↦ rw e (ground (arith, length-set vm.globals idx v))
  ]

  call_function-Ending : (func_idx : ℕ) (args : List Value) → Ending (call_function func_idx args)
  unfolding call_function
  call_function-Ending func_idx args vm s = elim (Option-cases (func_at vm func_idx)) [
    | inl e ↦ rw (e, call_function) s
    | inr (f, e) ↦ elim (Bool-cases (leb max_call_depth (length vm.call_stack))) [
      | inl h ↦ rw (e, h, call_function) s
      | inr h ↦
          rw (e, h, call_function)
            (record {
              code = s.code;
              height = s.height;
              depth = ground (arith, h);
              frames = (
                ap (λ o. not (is_none o))
                    (subst (λ c. get_elem? c.functions func_idx ≡ some f) s.code e),
                s.frames,
              );
              globals = s.globals;
            })
    ]
  ]

  pub push_value-Safe : (v : Value) → Safe (push_value v)
  push_value-Safe v = record { keeps = push_value-Ending v }

  pub pop-Safe : Safe pop
  pop-Safe = record { keeps = pop-Ending }

  pub pop_or_unit-Safe : Safe pop_or_unit
  pop_or_unit-Safe = record { keeps = pop_or_unit-Ending }

  pub leave-Safe : Safe leave
  leave-Safe = record { keeps = leave-Ending }

  pub jump-Safe : (target : ℕ) → Safe (jump target)
  jump-Safe target = record { keeps = jump-Ending target }

  pub get_local-Safe : (idx : ℕ) → Safe (get_local idx)
  get_local-Safe idx = record { keeps = get_local-Ending idx }

  pub set_local-Safe : (idx : ℕ) (v : Value) → Safe (set_local idx v)
  set_local-Safe idx v = record { keeps = set_local-Ending idx v }

  pub set_global-Safe : (idx : ℕ) (v : Value) → Safe (set_global idx v)
  set_global-Safe idx v = record { keeps = set_global-Ending idx v }

  pub call_function-Safe : (func_idx : ℕ) (args : List Value) → Safe (call_function func_idx args)
  call_function-Safe func_idx args = record { keeps = call_function-Ending func_idx args }

  pub pop_args-Safe : (count : ℕ) (args : List Value) → Safe (pop_args count args)
  unfolding pop_args
  pop_args-Safe zero args = Keeps-return (Declared m) (IsSafe m n) args
  pop_args-Safe (suc k) args =
      Keeps-bind (Declared m) (IsSafe m n) pop-Safe (λ v. pop_args-Safe k (v ∷ args))
