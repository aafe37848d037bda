-- ===== src/Actors/System.antt =====
-- crates/llmvm/src/actor.rs: `Actor` and `ActorSystem`, and the operations on all actors between the
-- turns. An actor has a machine, a gateway and an event log of its own. The handler of the root's
-- gateway is any; that of a child is the mock.
use boruna.Prelude.{
  ℕ, zero, suc, String, Bool, true, false, not, ◌&&◌, ◌||◌, List, [], ◌∷◌, Option, none, some,
  Result, ltb, ◌==◌, if◌then◌else◌, push, update_first,
}
use boruna.Bytecode.Value.{Value, unit}
use boruna.Vm.EventLog.{EventLog, log_message_send, log_message_receive}
use boruna.Vm.Policy.{Policy}
use boruna.Vm.Gateway.{Handler, Gateway}
use boruna.Machine.Platform.{Platform}
use boruna.Machine.State.{Core, Message}
use boruna.Machine.Loop.{Vm, with_core}
use boruna.Actors.MockHandler.{mock_handle}

pub data ActorStatus : Type 0 where
  runnable blocked completed failed : ActorStatus

abbrev pub is_runnable : ActorStatus → Bool
is_runnable runnable = true
is_runnable _ = false

abbrev pub is_blocked : ActorStatus → Bool
is_blocked blocked = true
is_blocked _ = false

abbrev pub is_failed : ActorStatus → Bool
is_failed failed = true
is_failed _ = false

-- `Box<dyn CapabilityHandler>`: a handler of the host, or `MockHandler`
pub data Boxed (S : Type 0) : Type 0 where
  host : S → Boxed S
  mock : Boxed S

abbrev pub answered : {S : Type 0} → Result Value String × S → Result Value String × Boxed S
answered (r, s) = (r, host s)

abbrev pub serve : {S : Type 0} → Platform → Handler S → Handler (Boxed S)
serve platform handle (host s) c args = answered (handle s c args)
serve platform handle mock c args = (mock_handle platform c args, mock)

pub record Actor (S : Type 0) : Type 0 where
  pub id : ℕ
  pub vm : Vm
  pub gateway : Gateway (Boxed S)
  pub event_log : EventLog
  pub status : ActorStatus
  pub parent : Option ℕ
  pub children : List ℕ
  pub result : Option Value

-- a message that is not delivered yet: from, to, payload
pub record Pending : Type 0 where
  pub from : ℕ
  pub to : ℕ
  pub payload : Value

pub record ActorSystem (S : Type 0) : Type 0 where
  pub actors : List (Actor S)
  pub next_id : ℕ
  pub pending_messages : List Pending
  pub max_rounds : ℕ
  pub budget_per_round : ℕ
  pub policy : Option Policy
  pub event_log : EventLog

-- the machine of an actor with a change of its core
abbrev pub on_core : {S : Type 0} → (Core → Core) → Actor S → Actor S
on_core f a = record a { vm = with_core a.vm (f a.vm.core) }

unfoldable pub fresh_actor :
    {S : Type 0} → ℕ → Vm → Gateway (Boxed S) → EventLog → Option ℕ → Actor S
fresh_actor id vm gateway log parent = record {
  id = id;
  vm = vm;
  gateway = gateway;
  event_log = log;
  status = runnable;
  parent = parent;
  children = [];
  result = none;
}

-- `deliver_messages`: sorted by the receiver, then the sender; the sort is stable
abbrev pub precedes : Pending → Pending → Bool
precedes p q = ltb p.to q.to || ((p.to == q.to) && ltb p.from q.from)

abbrev pub insert_pending : Pending → List Pending → List Pending
insert_pending p [] = p ∷ []
insert_pending p (q ∷ rest) = if precedes q p then q ∷ insert_pending p rest else p ∷ q ∷ rest

unfoldable pub sort_pending : List Pending → List Pending
sort_pending [] = []
sort_pending (p ∷ rest) = insert_pending p (sort_pending rest)

abbrev pub deliver_message : {S : Type 0} → Message → Actor S → Actor S
deliver_message m a = on_core (λ vm. record vm { mailbox = push vm.mailbox m }) a

abbrev pub receives : {S : Type 0} → ℕ → Actor S → Bool
receives to a = (a.id == to) && not (is_failed a.status)

abbrev pub message_of : Pending → Message
message_of p = record { from = p.from; payload = p.payload }

abbrev pub receive_log : Bool → Pending → EventLog → EventLog
receive_log true p log = log_message_receive p.to p.payload log
receive_log false p log = log

abbrev pub result_or_unit : Option Value → Value
result_or_unit none = unit
result_or_unit (some v) = v

module _ {S : Type 0} where
  abbrev pub any_receives : ℕ → List (Actor S) → Bool
  any_receives to [] = false
  any_receives to (a ∷ rest) = receives to a || any_receives to rest

  unfoldable pub deliver_one : Pending → ActorSystem S → ActorSystem S
  deliver_one p sys = record sys {
    event_log =
        receive_log (any_receives p.to sys.actors) p
          (log_message_send p.from p.to p.payload sys.event_log);
    actors = update_first (receives p.to) (deliver_message (message_of p)) sys.actors;
  }

  unfoldable pub deliver_all : List Pending → ActorSystem S → ActorSystem S
  deliver_all [] sys = sys
  deliver_all (p ∷ rest) sys = deliver_all rest (deliver_one p sys)

  unfoldable pub deliver_messages : ActorSystem S → ActorSystem S
  deliver_messages sys =
      deliver_all (sort_pending sys.pending_messages) (record sys { pending_messages = [] })

  abbrev pub fail_it : Actor S → Actor S
  fail_it a = record a { status = failed }

  abbrev pub children_in : List (Actor S) → ℕ → List ℕ
  children_in [] id = []
  children_in (a ∷ rest) id = if a.id == id then a.children else children_in rest id

  -- The recursion is on fuel: the children of an actor have greater identifiers, so the number of
  -- identifiers bounds its depth.
  unfoldable pub cascade_failure : ℕ → List ℕ → List (Actor S) → List (Actor S)
  cascade_failure k [] actors = actors
  cascade_failure zero (c ∷ rest) actors = actors
  cascade_failure (suc k) (c ∷ rest) actors =
      cascade_failure (suc k) rest
        (cascade_failure k (children_in actors c) (update_first (λ a. a.id == c) fail_it actors))

  abbrev pub has_messages : Actor S → Bool
  has_messages a = elim a.vm.core.mailbox [ [] ↦ false | _ ∷ _ ↦ true ]

  abbrev pub wake : Actor S → Actor S
  wake a = if is_blocked a.status && has_messages a then record a { status = runnable } else a

  unfoldable pub wake_all : List (Actor S) → List (Actor S)
  wake_all [] = []
  wake_all (a ∷ rest) = wake a ∷ wake_all rest

  unfoldable pub wake_blocked_actors : ActorSystem S → ActorSystem S
  unfolding wake_all
  wake_blocked_actors sys = record sys { actors = wake_all sys.actors }

  unfoldable pub root_result : List (Actor S) → Value
  root_result [] = unit
  root_result (a ∷ _) = result_or_unit a.result
