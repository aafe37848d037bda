-- ===== src/Machine/Confined.antt =====
-- crates/llmvm/src/vm.rs: a module reaches no capability that none of its functions declares.
use boruna.Prelude.{ℕ, ◌≤◌, String, ◌≡◌, refl, ◌∙◌, false, str_eq, Result, ok, err}
use boruna.Bytecode.Capability.{Capability, name}
use boruna.Bytecode.Value.{Value}
use boruna.Vm.Error.{VmError}
use boruna.Vm.EventLog.{EventLog, log_event}
use boruna.Vm.Gateway.{Handler, Gateway, call}
use boruna.Vm.Client
use boruna.Vm.Client.{Client, event_of, finish, ask, note, Outcome, proceed}
use boruna.Vm.Recorded.{calls_of, calls_of-note, calls_of_other}
use boruna.Machine.Platform.{Platform}
use boruna.Machine.Module.{Module}
use boruna.Machine.State.{log}
use boruna.Machine.Loop.{Ended, Vm, run}
use boruna.Machine.Ends.{Ends}
use boruna.Machine.Safe.{Declared}
use boruna.Machine.Running.{Bounded, run-Bounded}

module _ {S : Type 0} (handle : Handler S) where
  -- A client that asks only for capabilities of other names logs no call of the name.
  calls_of-run :
      {A E : Type 0} (G : Capability → Type 0) (Q : E → Type 0) (P : A → Type 0) (k : String)
      → ((c : Capability) → G c → str_eq (name c) k ≡ false)
      → (client : Client A E) (g : Gateway S) (log : EventLog) → Ends G Q P client
      → calls_of k (Client.run handle client g log).2.events ≡ calls_of k log.events
  unfolding Client.run
  calls_of-run G Q P k other (finish v) g log h = refl
  calls_of-run G Q P k other (note n next) g log h =
      calls_of-run G Q P k other next g (log_event (event_of n) log) h
      ∙ calls_of-note k n log.events
  calls_of-run G Q P k other (ask c args s next) g log h =
      go (call handle g c args log) (calls_of_other handle k g c args log (other c h.0))
        (λ v g' log'. calls_of-run G Q P k other (next v) g' log' (h.2 v))
    where
      go :
          (o : Result Value VmError × Gateway S × EventLog)
          → calls_of k o.2.events ≡ calls_of k log.events
          → ((v : Value) (g' : Gateway S) (log' : EventLog)
              → calls_of k (Client.run handle (next v) g' log').2.events ≡ calls_of k log'.events)
          → calls_of k (proceed s o (λ v g' log'. Client.run handle (next v) g' log')).2.events
            ≡ calls_of k log.events
      go (ok v, g', log') e ih = ih v g' log' ∙ e
      go (err x, g', log') e ih = e

  -- A module none of whose functions declares a capability of a name makes no call of that name, under
  -- any policy and with any handler: a run leaves their number in the event log as it was.
  pub calls_of_undeclared :
      (platform : Platform) (clock : ℕ → ℕ) (m : Module) (max : ℕ) (vm : Vm) (k : String)
      (g : Gateway S) (log : EventLog)
      → Bounded platform clock m max vm
      → vm.step_count ≤ max
      → ((c : Capability) → Declared m c → str_eq (name c) k ≡ false)
      → calls_of k (Client.run handle (run platform clock vm) g log).2.events
        ≡ calls_of k log.events
  calls_of_undeclared platform clock m max vm k g log b h other =
      calls_of-run (Declared m) (Bounded platform clock m max)
        (λ (o : Ended). Bounded platform clock m max o.1) k other (run platform clock vm) g log
        (run-Bounded platform clock m max vm b h)
