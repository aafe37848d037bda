-- ===== src/Vm/Verify.antt =====
-- crates/llmvm/src/replay.rs: `ReplayEngine`. The reason of a divergence is kept as data.
use boruna.Prelude.{
  ℕ, suc, ◌≡◌, refl, sym, ap, ◌∙◌, ◌↔◌, String, Bool, true, false, not, ◌&&◌, ◌||◌, List, [], ◌∷◌,
  Option, arith, length, keep, map, str_eq, ◌==◌, eq_iff, if◌then◌else◌, unwrap_or,
}
use boruna.Bytecode.Value.{Value, args_eq}
use boruna.Bytecode.Equality.{args_nan, args_eq_refl}
use boruna.Vm.EventLog.{EventLog, Event, cap_call}

pub data Divergence : Type 0 where
  different_count : ℕ → ℕ → Divergence
  different_event : ℕ → Divergence

pub data ReplayResult : Type 0 where
  identical : ReplayResult
  diverged : Divergence → ReplayResult

abbrev pub is_identical : ReplayResult → Bool
is_identical identical = true
is_identical (diverged _) = false

abbrev is_cap_call : Event → Bool
is_cap_call (cap_call _ _) = true
is_cap_call _ = false

-- `matches!(e, Event::CapCall { .. })`, filtered
unfoldable pub cap_calls : EventLog → List Event
cap_calls log = keep is_cap_call log.events

-- the test of two events in the loop of `verify`: other events than calls are passed over
unfoldable pub same_call : Event → Event → Bool
same_call (cap_call c a) (cap_call d b) = str_eq c d && args_eq a b
same_call _ _ = true

-- the loop over the zipped events from number `i` on
unfoldable pub compare_from : (Event → Event → Bool) → ℕ → List Event → List Event → ReplayResult
compare_from same i [] rs = identical
compare_from same i (o ∷ os) [] = identical
compare_from same i (o ∷ os) (r ∷ rs) =
    let rest = compare_from same (suc i) os rs in
    if same o r then rest else diverged (different_event i)

-- the lengths, then the events
unfoldable pub compare_events : (Event → Event → Bool) → List Event → List Event → ReplayResult
compare_events same os rs =
    if length os == length rs
    then compare_from same 0 os rs
    else diverged (different_count (length os) (length rs))

unfoldable pub verify : EventLog → EventLog → ReplayResult
verify original replay = compare_events same_call (cap_calls original) (cap_calls replay)

-- `serde_json::to_string(e).unwrap_or_default()`, compared
abbrev pub same_json : (Event → Option String) → Event → Event → Bool
same_json to_string o r = str_eq (unwrap_or "" (to_string o)) (unwrap_or "" (to_string r))

unfoldable pub verify_full : (Event → Option String) → EventLog → EventLog → ReplayResult
verify_full to_string original replay =
    compare_events (same_json to_string) original.events replay.events

-- position by position, with nothing left over
abbrev pub agrees : (Event → Event → Bool) → List Event → List Event → Bool
agrees same [] [] = true
agrees same (o ∷ os) (r ∷ rs) = same o r && agrees same os rs
agrees same _ _ = false

compare_from-agrees :
    (same : Event → Event → Bool) (i : ℕ) (os rs : List Event)
    → length os ≡ length rs
    → is_identical (compare_from same i os rs) ≡ agrees same os rs
unfolding compare_from
compare_from-agrees same i [] [] l = refl
compare_from-agrees same i [] (r ∷ rs) l = absurd (omega arith)
compare_from-agrees same i (o ∷ os) [] l = absurd (omega arith)
compare_from-agrees same i (o ∷ os) (r ∷ rs) l =
    ground (arith, compare_from-agrees same (suc i) os rs (omega arith))

agrees-length :
    (same : Event → Event → Bool) (os rs : List Event)
    → agrees same os rs ≡ true
    → length os ≡ length rs
agrees-length same [] [] h = refl
agrees-length same [] (r ∷ rs) h = cc
agrees-length same (o ∷ os) [] h = cc
agrees-length same (o ∷ os) (r ∷ rs) h = ap suc (agrees-length same os rs (ground arith))

-- The lengths and the loop together decide agreement, position by position.
compare_events-agrees :
    (same : Event → Event → Bool) (os rs : List Event)
    → is_identical (compare_events same os rs) ≡ agrees same os rs
unfolding compare_events
compare_events-agrees same os rs =
    ground (arith, compare_from-agrees same 0 os rs, agrees-length same os rs)

agrees-json :
    (to_string : Event → Option String) (es : List Event)
    → agrees (same_json to_string) es es ≡ true
agrees-json to_string [] = refl
agrees-json to_string (e ∷ es) = ground (
  arith,
  eq_iff (unwrap_or "" (to_string e)) (unwrap_or "" (to_string e)),
  agrees-json to_string es,
)

identical_of : (r : ReplayResult) → is_identical r ≡ true → r ≡ identical
identical_of identical h = refl
identical_of (diverged _) h = cc

pub verify_full_self :
    (to_string : Event → Option String) (log : EventLog) → verify_full to_string log log ≡ identical
unfolding verify_full
verify_full_self to_string log = identical_of _ (
    compare_events-agrees (same_json to_string) log.events log.events
    ∙ agrees-json to_string log.events)

-- a NaN stands in the arguments of a recorded call
abbrev pub calls_nan : List Event → Bool
calls_nan [] = false
calls_nan (cap_call _ args ∷ rest) = args_nan args || calls_nan rest
calls_nan (_ ∷ rest) = calls_nan rest

agrees-calls :
    (es : List Event)
    → agrees same_call (keep is_cap_call es) (keep is_cap_call es) ≡ not (calls_nan es)
unfolding same_call
agrees-calls [] = refl
agrees-calls (cap_call c args ∷ es) = ground (arith, eq_iff c c, args_eq_refl args, agrees-calls es)
agrees-calls (_ ∷ es) = agrees-calls es

-- `verify` finds a log identical to itself exactly if no recorded call has a NaN among its arguments.
pub verify_self : (log : EventLog) → is_identical (verify log log) ≡ not (calls_nan log.events)
unfolding verify cap_calls
verify_self log =
    compare_events-agrees same_call (keep is_cap_call log.events) (keep is_cap_call log.events)
    ∙ agrees-calls log.events

-- the calls of a list of events, each its name and arguments
abbrev pub recorded_calls : List Event → List (String × List Value)
recorded_calls [] = []
recorded_calls (cap_call c args ∷ rest) = (c, args) ∷ recorded_calls rest
recorded_calls (_ ∷ rest) = recorded_calls rest

-- as many calls, one by one of the same name, with arguments that the equality of values finds equal
abbrev pub SameCalls : List (String × List Value) → List (String × List Value) → Type 0
SameCalls [] [] = Unit
SameCalls ((c, a) ∷ os) ((d, b) ∷ rs) = (c ≡ d) × (args_eq a b ≡ true) × SameCalls os rs
SameCalls _ _ = ⊥

abbrev call_event : String × List Value → Event
call_event (c, args) = cap_call c args

keep-recorded : (es : List Event) → keep is_cap_call es ≡ map call_event (recorded_calls es)
keep-recorded [] = refl
keep-recorded (cap_call c args ∷ es) = ap (λ l. cap_call c args ∷ l) (keep-recorded es)
keep-recorded (_ ∷ es) = keep-recorded es

agrees-SameCalls :
    (os rs : List (String × List Value))
    → (agrees same_call (map call_event os) (map call_event rs) ≡ true) ↔ SameCalls os rs
unfolding same_call
agrees-SameCalls [] [] = (λ h. tt, λ h. refl)
agrees-SameCalls [] (r ∷ rs) = (λ h. cc, λ h. absurd h)
agrees-SameCalls (o ∷ os) [] = (λ h. cc, λ h. absurd h)
agrees-SameCalls ((c, a) ∷ os) ((d, b) ∷ rs) =
    let (to, from) = agrees-SameCalls os rs in
    (
      λ h. ((eq_iff c d).0 (ground (arith, h)), ground (arith, h), to (ground (arith, h))),
      λ h. let e = (eq_iff c d).1 h.0 in let r = from h.2 in ground (arith, e, h.1, r),
    )

-- Two logs are found identical exactly if their calls agree one by one: as many, of the same names,
-- with arguments that the equality of values finds equal.
pub verify_iff :
    (original replay : EventLog)
    → (verify original replay ≡ identical)
      ↔ SameCalls (recorded_calls original.events) (recorded_calls replay.events)
unfolding verify cap_calls
verify_iff original replay = (
  λ e. (agrees-SameCalls os rs).0 (sym decided ∙ ap is_identical e),
  λ h. identical_of _ (decided ∙ (agrees-SameCalls os rs).1 h),
)
  where
    os : List (String × List Value)
    os = recorded_calls original.events

    rs : List (String × List Value)
    rs = recorded_calls replay.events

    decided :
        is_identical (verify original replay)
        ≡ agrees same_call (map call_event os) (map call_event rs)
    decided =
        compare_events-agrees same_call (cap_calls original) (cap_calls replay)
        ∙ (ap (λ l. agrees same_call l (keep is_cap_call replay.events))
              (keep-recorded original.events)
            ∙ ap (agrees same_call (map call_event os)) (keep-recorded replay.events))
