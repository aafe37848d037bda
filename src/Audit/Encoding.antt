-- ===== src/Audit/Encoding.antt =====
-- orchestrator/src/audit/log.rs: what the bytes that are hashed determine.
use native.Mathlib.Nat.{pow-suc}
use mathlib.Core.List.{append-nil}
use boruna.Prelude.{
  ℕ, zero, suc, ◌^◌, ◌%◌, ◌/◌, ◌<◌, ◌≡◌, refl, sym, ap, ◌∙◌, List, [], ◌∷◌, ◌++◌, arith, length,
  map,
}
use boruna.Audit.Entry.{Bytes}
use boruna.Audit.Log.{to_le_bytes}

pub to_le_bytes_injective :
    (k m n : ℕ) (x y : Bytes)
    → m < 256 ^ k
    → n < 256 ^ k
    → to_le_bytes k m ++ x ≡ to_le_bytes k n ++ y
    → (m ≡ n) × (x ≡ y)
unfolding to_le_bytes
to_le_bytes_injective zero m n x y p q h = (omega arith, h)
to_le_bytes_injective (suc k) m n x y p q h =
    let heads : (m % 256 ≡ n % 256)
        × (to_le_bytes k (m / 256) ++ x ≡ to_le_bytes k (n / 256) ++ y) =
      (cc, cc) in
    let tails =
      to_le_bytes_injective k (m / 256) (n / 256) x y (omega (arith, pow-suc 256 k))
        (omega (arith, pow-suc 256 k)) heads.1 in
    (omega (arith, heads.0, tails.0), tails.1)

pub append_cancel_prefix :
    (p q x y : Bytes) → length p ≡ length q → p ++ x ≡ q ++ y → (p ≡ q) × (x ≡ y)
append_cancel_prefix [] [] x y l h = (refl, h)
append_cancel_prefix [] (b ∷ q) x y l h = absurd (omega arith)
append_cancel_prefix (a ∷ p) [] x y l h = absurd (omega arith)
append_cancel_prefix (a ∷ p) (b ∷ q) x y l h =
    let heads : (a ≡ b) × (p ++ x ≡ q ++ y) = (cc, cc) in
    let tails = append_cancel_prefix p q x y (omega arith) heads.1 in (cc, tails.1)

module _ {ℓ} {A : Type ℓ} where
  abbrev pub rev_onto : List A → List A → List A
  rev_onto [] acc = acc
  rev_onto (e ∷ rest) acc = rev_onto rest (e ∷ acc)

  rev_onto-rev_onto : (xs acc ys : List A) → rev_onto (rev_onto xs acc) ys ≡ rev_onto acc (xs ++ ys)
  rev_onto-rev_onto [] acc ys = refl
  rev_onto-rev_onto (x ∷ xs) acc ys = rev_onto-rev_onto xs (x ∷ acc) ys

  pub rev_onto_injective : (xs ys : List A) → rev_onto xs [] ≡ rev_onto ys [] → xs ≡ ys
  rev_onto_injective xs ys h =
      sym (append-nil xs)
      ∙ (sym (rev_onto-rev_onto xs [] [])
          ∙ (ap (λ l. rev_onto l []) h ∙ (rev_onto-rev_onto ys [] [] ∙ append-nil ys)))

pub map-rev_onto :
    {A B : Type 0} (f : A → B) (xs acc : List A)
    → map f (rev_onto xs acc) ≡ rev_onto (map f xs) (map f acc)
map-rev_onto f [] acc = refl
map-rev_onto f (x ∷ xs) acc = map-rev_onto f xs (x ∷ acc)
