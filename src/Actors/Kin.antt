-- ===== src/Actors/Kin.antt =====
-- crates/llmvm/src/actor.rs: the identifiers of the actors. An actor stands at the place of its
-- identifier, its children come after it and its parent before it; each step of a turn keeps this.
use mathlib.Core.Path.{subst}
use boruna.Prelude.{
  ℕ, String, zero, suc, ◌+◌, ◌==◌, ◌<◌, ◌≤◌, ◌≡◌, refl, sym, ap, ◌∙◌, Bool, true, List, [], ◌∷◌,
  Option, none, some, ok, err, arith, length, length-append, get_elem?, if◌then◌else◌, push,
  modify_at, update_first, All, All-append, Option-cases, inl, inr, Bool-cases,
}
use boruna.Vm.Error.{VmError}
use boruna.Vm.Client.{Outcome}
use boruna.Machine.Loop.{StepResult, Vm}
use boruna.Machine.Loop
use boruna.Actors.System.{Actor, ActorSystem, Boxed, cascade_failure, children_in, fail_it}
use boruna.Actors.Turns.{adopt, fail_actor, sliced, status_after, with_child}

abbrev pub ParentBelow : ℕ → Option ℕ → Type 0
ParentBelow k none = Unit
ParentBelow k (some p) = p < k

module _ {S : Type 0} where
  -- the actor at the place `k`, of `n`
  pub record Fits (k n : ℕ) (a : Actor S) : Type 0 where
    pub id : a.id ≡ k
    pub below : All (λ c. (k < c) × (c < n)) a.children
    pub above : ParentBelow k a.parent

  abbrev pub AllFit : ℕ → ℕ → List (Actor S) → Type 0
  AllFit k n [] = Unit
  AllFit k n (a ∷ rest) = Fits k n a × AllFit (suc k) n rest

  pub record IsWell (sys : ActorSystem S) : Type 0 where
    pub next : sys.next_id ≡ length sys.actors
    pub actors : AllFit 0 sys.next_id sys.actors

  length-modify_at :
      (i : ℕ) (f : Actor S → Actor S) (actors : List (Actor S))
      → length (modify_at i f actors) ≡ length actors
  length-modify_at i f [] = refl
  length-modify_at zero f (a ∷ rest) = refl
  length-modify_at (suc i) f (a ∷ rest) = ap suc (length-modify_at i f rest)

  -- the identifier of an actor is among those given out
  pub get-lt :
      (i k n : ℕ) (actors : List (Actor S)) (a : Actor S)
      → AllFit k n actors
      → k + length actors ≤ n
      → get_elem? actors i ≡ some a
      → a.id < n
  get-lt i k n [] a w l e = absurd cc
  get-lt zero k n (b ∷ rest) a w l e =
      let same : a ≡ b = cc in omega (arith, ap (λ x. x.id) same, w.0.id, l)
  get-lt (suc i) k n (b ∷ rest) a w l e = get-lt i (suc k) n rest a w.1 (omega (arith, l)) e

  modify_at-AllFit :
      (i k n : ℕ) (f : Actor S → Actor S) (actors : List (Actor S))
      → ((j : ℕ) (a : Actor S) → get_elem? actors i ≡ some a → Fits j n a → Fits j n (f a))
      → AllFit k n actors
      → AllFit k n (modify_at i f actors)
  modify_at-AllFit i k n f [] h w = w
  modify_at-AllFit zero k n f (a ∷ rest) h w = (h k a refl w.0, w.1)
  modify_at-AllFit (suc i) k n f (a ∷ rest) h w = (w.0, modify_at-AllFit i (suc k) n f rest h w.1)

  pub length-update_first :
      (p : Actor S → Bool) (f : Actor S → Actor S) (actors : List (Actor S))
      → length (update_first p f actors) ≡ length actors
  length-update_first p f [] = refl
  length-update_first p f (a ∷ rest) = ground (arith, length-update_first p f rest)

  pub update_first-AllFit :
      (k n : ℕ) (p : Actor S → Bool) (f : Actor S → Actor S) (actors : List (Actor S))
      → ((j : ℕ) (a : Actor S) → Fits j n a → Fits j n (f a))
      → AllFit k n actors
      → AllFit k n (update_first p f actors)
  update_first-AllFit k n p f [] h w = w
  update_first-AllFit k n p f (a ∷ rest) h w = elim (Bool-cases (p a)) [
    | inl e ↦ rw e (h k a w.0, w.1)
    | inr e ↦ rw e (w.0, update_first-AllFit (suc k) n p f rest h w.1)
  ]

  -- a change that keeps the kin
  abbrev Kept : (Actor S → Actor S) → Type 0
  Kept f = (j n : ℕ) (a : Actor S) → Fits j n a → Fits j n (f a)

  pub fail_it-Fits : Kept fail_it
  fail_it-Fits j n a w = record { id = w.id; below = w.below; above = w.above }

  pub cascade_failure-AllFit :
      (k n : ℕ) (ids : List ℕ) (actors : List (Actor S))
      → AllFit 0 n actors
      → AllFit 0 n (cascade_failure k ids actors)
  unfolding cascade_failure
  cascade_failure-AllFit k n [] actors w = w
  cascade_failure-AllFit zero n (c ∷ rest) actors w = w
  cascade_failure-AllFit (suc k) n (c ∷ rest) actors w = cascade_failure-AllFit (suc k) n rest _ (
      cascade_failure-AllFit k n (children_in actors c) _
        (update_first-AllFit 0 n (λ a. a.id == c) fail_it actors (λ j. fail_it-Fits j n) w))

  length-cascade_failure :
      (k : ℕ) (ids : List ℕ) (actors : List (Actor S))
      → length (cascade_failure k ids actors) ≡ length actors
  unfolding cascade_failure
  length-cascade_failure k [] actors = refl
  length-cascade_failure zero (c ∷ rest) actors = refl
  length-cascade_failure (suc k) (c ∷ rest) actors =
      length-cascade_failure (suc k) rest _
      ∙ length-cascade_failure k (children_in actors c) _
      ∙ length-update_first (λ a. a.id == c) fail_it actors

  Fits-more : (j n n' : ℕ) (a : Actor S) → n ≤ n' → Fits j n a → Fits j n' a
  Fits-more j n n' a le w = record { id = w.id; below = wider a.children w.below; above = w.above }
    where
      wider : (ids : List ℕ) → All (λ c. (j < c) × (c < n)) ids → All (λ c. (j < c) × (c < n')) ids
      wider [] h = h
      wider (c ∷ rest) h = ((h.0.0, omega (arith, h.0.1, le)), wider rest h.1)

  AllFit-more :
      (k n n' : ℕ) (actors : List (Actor S)) → n ≤ n' → AllFit k n actors → AllFit k n' actors
  AllFit-more k n n' [] le w = w
  AllFit-more k n n' (a ∷ rest) le w =
      (Fits-more k n n' a le w.0, AllFit-more (suc k) n n' rest le w.1)

  AllFit-push :
      (k n j : ℕ) (actors : List (Actor S)) (a : Actor S)
      → AllFit k n actors
      → j ≡ k + length actors
      → Fits j n a
      → AllFit k n (push actors a)
  AllFit-push k n j [] a w e h = (subst (λ i. Fits i n a) (omega (arith, e)) h, tt)
  AllFit-push k n j (b ∷ rest) a w e h =
      (w.0, AllFit-push (suc k) n j rest a w.1 (omega (arith, e)) h)

  pub get_elem?-push :
      (i : ℕ) (actors : List (Actor S)) (a c : Actor S)
      → get_elem? actors i ≡ some a
      → get_elem? (push actors c) i ≡ some a
  get_elem?-push i [] a c e = absurd cc
  get_elem?-push zero (b ∷ rest) a c e = e
  get_elem?-push (suc i) (b ∷ rest) a c e = get_elem?-push i rest a c e

  pub get_elem?-modify_at :
      (i : ℕ) (f : Actor S → Actor S) (actors : List (Actor S)) (a : Actor S)
      → get_elem? actors i ≡ some a
      → get_elem? (modify_at i f actors) i ≡ some (f a)
  get_elem?-modify_at i f [] a e = absurd cc
  get_elem?-modify_at zero f (b ∷ rest) a e = cc
  get_elem?-modify_at (suc i) f (b ∷ rest) a e = get_elem?-modify_at i f rest a e

  pub get_elem?_id :
      (i k n : ℕ) (actors : List (Actor S)) (a : Actor S)
      → AllFit k n actors
      → get_elem? actors i ≡ some a
      → a.id ≡ k + i
  get_elem?_id i k n [] a w e = absurd cc
  get_elem?_id zero k n (b ∷ rest) a w e =
      let same : a ≡ b = cc in omega (arith, ap (λ (x : Actor S). x.id) same, w.0.id)
  get_elem?_id (suc i) k n (b ∷ rest) a w e = omega (arith, get_elem?_id i (suc k) n rest a w.1 e)

  -- the actor at a place, after a change of the first actor with a property that settles its identifier
  pub get_elem?-update_first :
      (p : Actor S → Bool) (f : Actor S → Actor S)
      → ((x y : Actor S) → p x ≡ true → p y ≡ true → x.id ≡ y.id)
      → (i k n : ℕ) (actors : List (Actor S)) (a : Actor S) → AllFit k n actors
      → get_elem? actors i ≡ some a
      → get_elem? (update_first p f actors) i ≡ some (if p a then f a else a)
  get_elem?-update_first p f one i k n [] a w e = absurd cc
  get_elem?-update_first p f one zero k n (b ∷ rest) a w e =
      subst (λ x. get_elem? (update_first p f (b ∷ rest)) 0 ≡ some (if p x then f x else x)) same
        here
    where
      same : b ≡ a
      same = cc

      here : get_elem? (update_first p f (b ∷ rest)) 0 ≡ some (if p b then f b else b)
      here = elim (Bool-cases (p b)) [ inl r ↦ rw r refl | inr r ↦ rw r refl ]
  get_elem?-update_first p f one (suc i) k n (b ∷ rest) a w e = elim (Bool-cases (p b)) [
    | inl r ↦ elim (Bool-cases (p a)) [
      | inl r' ↦ absurd (omega (arith, one b a r r', w.0.id, get_elem?_id i (suc k) n rest a w.1 e))
      | inr r' ↦ rw r (rw r' e)
    ]
    | inr r ↦ rw r (get_elem?-update_first p f one i (suc k) n rest a w.1 e)
  ]

  -- a change of the actor at a place that keeps its kin
  pub modified-IsWell :
      (idx : ℕ) (f : Actor S → Actor S) (sys : ActorSystem S)
      → ((j n : ℕ) (a : Actor S) → get_elem? sys.actors idx ≡ some a → Fits j n a → Fits j n (f a))
      → IsWell sys
      → IsWell (record sys { actors = modify_at idx f sys.actors })
  modified-IsWell idx f sys h w = record {
    next = w.next ∙ sym (length-modify_at idx f sys.actors);
    actors =
        modify_at-AllFit idx 0 sys.next_id f sys.actors (λ j a e. h j sys.next_id a e) w.actors;
  }

  pub fail_actor-IsWell :
      (idx : ℕ) (e : VmError) (sys : ActorSystem S) → IsWell sys → IsWell (fail_actor idx e sys).1
  unfolding fail_actor
  fail_actor-IsWell idx e sys w = elim (Option-cases (get_elem? sys.actors idx)) [
    | inl h ↦ rw (h, fail_actor) w
    | inr (a, h) ↦
        rw (h, fail_actor)
          (record {
            next =
                w.next
                ∙ sym (
                    length-cascade_failure (suc sys.next_id) a.children
                      (modify_at idx fail_it sys.actors)
                    ∙ length-modify_at idx fail_it sys.actors);
            actors =
                cascade_failure-AllFit (suc sys.next_id) sys.next_id a.children
                  (modify_at idx fail_it sys.actors)
                  (modify_at-AllFit idx 0 sys.next_id fail_it sys.actors
                    (λ j b _. fail_it-Fits j sys.next_id b) w.actors);
          })
  ]

  pub adopt-IsWell :
      (idx : ℕ) (a child : Actor S) (name : String) (sys : ActorSystem S)
      → IsWell sys
      → get_elem? sys.actors idx ≡ some a
      → Fits sys.next_id (suc sys.next_id) child
      → IsWell (adopt idx child name sys)
  unfolding adopt
  adopt-IsWell idx a child name sys w e h =
      let n = sys.next_id in
      let pushed = push sys.actors child in
      record {
        next = omega (
          arith,
          w.next,
          length-modify_at idx (with_child child.id) pushed,
          length-append sys.actors (child ∷ []),
        );
        actors =
            modify_at-AllFit idx 0 (suc n) (with_child child.id) pushed
              (λ j b at fits. record {
                id = fits.id;
                below =
                    All-append (λ c. (j < c) × (c < suc n)) b.children (child.id ∷ []) fits.below
                      (
                        (
                          omega (
                            arith,
                            ap (λ (x : Actor S). x.id) (same b at),
                            fits.id,
                            h.id,
                            get-lt idx 0 n sys.actors a w.actors (omega (arith, w.next)) e,
                          ),
                          omega (arith, h.id),
                        ),
                        tt,
                      );
                above = fits.above;
              })
              (AllFit-push 0 (suc n) n sys.actors child
                (AllFit-more 0 n (suc n) sys.actors (omega arith) w.actors) (omega (arith, w.next))
                h);
      }
    where
      same : (b : Actor S) → get_elem? (push sys.actors child) idx ≡ some b → a ≡ b
      same b at = let there = get_elem?-push idx sys.actors a child e in cc

  status_after-Fits :
      (j n : ℕ) (r : StepResult) (a : Actor S) → Fits j n a → Fits j n (status_after r a)
  status_after-Fits j n (Loop.completed v) a w = record {
    id = w.id;
    below = w.below;
    above = w.above;
  }
  status_after-Fits j n (Loop.yielded _) a w = w
  status_after-Fits j n Loop.blocked a w = record { id = w.id; below = w.below; above = w.above }
  status_after-Fits j n (Loop.error _) a w = record { id = w.id; below = w.below; above = w.above }

  pub sliced-Fits :
      (j n : ℕ) (a : Actor S) (o : Outcome (StepResult × Vm) Vm (Boxed S))
      → Fits j n a
      → Fits j n (status_after (sliced a o).0 (sliced a o).1)
  sliced-Fits j n a (ok (r, vm), g, log) w =
      status_after-Fits j n r _ (record { id = w.id; below = w.below; above = w.above })
  sliced-Fits j n a (err (e, vm), g, log) w = record { id = w.id; below = w.below; above = w.above }
