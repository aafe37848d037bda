-- ===== src/Machine/Ends.antt =====
-- What holds at every end of a client, and of the calls that it asks for, whatever they return.
use boruna.Prelude.{Bool, true, false, List, Option, none, some, Result, ok, err, if◌then◌else◌}
use boruna.Bytecode.Capability.{Capability}
use boruna.Bytecode.Value.{Value}
use boruna.Vm.Error.{VmError}
use boruna.Vm.Client.{Client, Note, finish, ask, note}
use boruna.Machine.State.{
  Core, M, then_do, ◌>>=◌, return, fail, lift, or_fail, gets, modify, log, request,
}
use boruna.Machine.Loop.{within}

module _ {A E : Type 0} (G : Capability → Type 0) (Q : E → Type 0) (P : A → Type 0) where
  -- `G` holds of each capability asked for, `Q` of the state at each call, `P` of each end
  abbrev pub Ends : Client A E → Type 0
  Ends (finish a) = P a
  Ends (ask c args s next) = G c × Q s × ((v : Value) → Ends (next v))
  Ends (note n next) = Ends next

module _ {A B E F : Type 0} (G : Capability → Type 0) where
  pub Ends-within :
      (Q : E → Type 0) (P : A → Type 0) (Q' : F → Type 0) (P' : B → Type 0) (k : A → Client B F)
      (f : E → F)
      → ((s : E) → Q s → Q' (f s))
      → ((a : A) → P a → Ends G Q' P' (k a))
      → (client : Client A E) → Ends G Q P client
      → Ends G Q' P' (within k f client)
  unfolding within
  Ends-within Q P Q' P' k f hs hk (finish a) h = hk a h
  Ends-within Q P Q' P' k f hs hk (ask c args s next) h =
      (h.0, hs s h.1, λ v. Ends-within Q P Q' P' k f hs hk (next v) (h.2 v))
  Ends-within Q P Q' P' k f hs hk (note n next) h = Ends-within Q P Q' P' k f hs hk next h

module _ {A E : Type 0} (G : Capability → Type 0) where
  pub Ends-imp :
      (Q Q' : E → Type 0) (P P' : A → Type 0)
      → ((s : E) → Q s → Q' s)
      → ((a : A) → P a → P' a)
      → (client : Client A E) → Ends G Q P client
      → Ends G Q' P' client
  Ends-imp Q Q' P P' hs hp (finish a) h = hp a h
  Ends-imp Q Q' P P' hs hp (ask c args s next) h =
      (h.0, hs s h.1, λ v. Ends-imp Q Q' P P' hs hp (next v) (h.2 v))
  Ends-imp Q Q' P P' hs hp (note n next) h = Ends-imp Q Q' P P' hs hp next h

module _ (G : Capability → Type 0) (I : Core → Type 0) where
  -- an instruction keeps `I`, whatever it ends in
  abbrev pub EndsIn : {A : Type 0} → Client (Result A VmError × Core) Core → Type 0
  EndsIn {A} = Ends G I (λ (o : Result A VmError × Core). I o.1)

  pub record Keeps {A : Type 0} (m : M A) : Type 0 where
    pub keeps : (vm : Core) → I vm → EndsIn (m vm)

  Keeps-then_do :
      {A B : Type 0} (f : A → M B)
      → ((a : A) → Keeps (f a))
      → (client : Client (Result A VmError × Core) Core) → EndsIn client
      → EndsIn (then_do f client)
  unfolding then_do
  Keeps-then_do f hf (finish (ok a, vm)) h = (hf a).keeps vm h
  Keeps-then_do f hf (finish (err e, vm)) h = h
  Keeps-then_do f hf (ask c args s next) h = (h.0, h.1, λ v. Keeps-then_do f hf (next v) (h.2 v))
  Keeps-then_do f hf (note n next) h = Keeps-then_do f hf next h

  pub Keeps-bind :
      {A B : Type 0} {m : M A} {f : A → M B} → Keeps m → ((a : A) → Keeps (f a)) → Keeps (m >>= f)
  Keeps-bind {A} {B} {m} {f} hm hf = record {
    keeps = λ vm h. Keeps-then_do f hf (m vm) (hm.keeps vm h);
  }

  pub Keeps-return : {A : Type 0} (a : A) → Keeps (return a)
  Keeps-return a = record { keeps = λ vm h. h }

  pub Keeps-fail : {A : Type 0} (e : VmError) → Keeps {A = A} (fail e)
  Keeps-fail e = record { keeps = λ vm h. h }

  pub Keeps-lift : {A : Type 0} (r : Result A VmError) → Keeps (lift r)
  Keeps-lift r = record { keeps = λ vm h. h }

  pub Keeps-or_fail : {A : Type 0} (e : VmError) (o : Option A) → Keeps (or_fail e o)
  Keeps-or_fail e none = Keeps-fail e
  Keeps-or_fail e (some a) = Keeps-return a

  pub Keeps-gets : {A : Type 0} (f : Core → A) → Keeps (gets f)
  Keeps-gets f = record { keeps = λ vm h. h }

  pub Keeps-log : (n : Note) → Keeps (log n)
  Keeps-log n = record { keeps = λ vm h. h }

  pub Keeps-modify : (f : Core → Core) → ((vm : Core) → I vm → I (f vm)) → Keeps (modify f)
  Keeps-modify f h = record { keeps = h }

  pub Keeps-request : (c : Capability) (args : List Value) → G c → Keeps (request c args)
  Keeps-request c args g = record { keeps = λ vm h. (g, h, λ v. h) }

  pub Keeps-if :
      {A : Type 0} (b : Bool) {m k : M A} → Keeps m → Keeps k → Keeps (if b then m else k)
  Keeps-if true hm hk = hm
  Keeps-if false hm hk = hk
