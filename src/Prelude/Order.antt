-- ===== src/Prelude/Order.antt =====
-- The order of texts that a `BTreeMap` keeps its keys in.
use Prim.Native.Nat.{ℕ, Ordering, compare as compare_ℕ}
use Prim.Native.Char.{code}
use Prim.Native.String.compare
use Prim.Native.String.{String, [], ◌∷◌, compare, then}
use mathlib.Core.Path.{◌≡◌, sym, ◌∙◌}
use native.Mathlib.Omega.{arith}

then_trans :
    (c d e : ℕ) (o p q : Ordering)
    → (o ≡ Ordering.lt → p ≡ Ordering.lt → q ≡ Ordering.lt)
    → then (compare_ℕ c d) o ≡ Ordering.lt
    → then (compare_ℕ d e) p ≡ Ordering.lt
    → then (compare_ℕ c e) q ≡ Ordering.lt
then_trans c d e o p q f h k = ground arith

then_flip :
    (c d : ℕ) (o p : Ordering)
    → (o ≡ Ordering.gt → p ≡ Ordering.lt)
    → then (compare_ℕ c d) o ≡ Ordering.gt
    → then (compare_ℕ d c) p ≡ Ordering.lt
then_flip c d o p f h = ground arith

pub lt_trans :
    (s t u : String)
    → compare s t ≡ Ordering.lt
    → compare t u ≡ Ordering.lt
    → compare s u ≡ Ordering.lt
lt_trans [] [] u h k = k
lt_trans [] (d ∷ t) [] h k = cc (sym (compare.cons-nil d t) ∙ k)
lt_trans [] (d ∷ t) (e ∷ u) h k = compare.nil-cons e u
lt_trans (c ∷ s) [] u h k = cc (sym (compare.cons-nil c s) ∙ h)
lt_trans (c ∷ s) (d ∷ t) [] h k = cc (sym (compare.cons-nil d t) ∙ k)
lt_trans (c ∷ s) (d ∷ t) (e ∷ u) h k =
    compare.cons-cons c e s u
    ∙ then_trans (code c) (code d) (code e) (compare s t) (compare t u) (compare s u)
        (lt_trans s t u) (sym (compare.cons-cons c d s t) ∙ h) (sym (compare.cons-cons d e t u) ∙ k)

pub gt_flip : (s t : String) → compare s t ≡ Ordering.gt → compare t s ≡ Ordering.lt
gt_flip [] [] h = cc
gt_flip [] (d ∷ t) h = cc (sym (compare.nil-cons d t) ∙ h)
gt_flip (c ∷ s) [] h = compare.nil-cons c s
gt_flip (c ∷ s) (d ∷ t) h =
    compare.cons-cons d c t s
    ∙ then_flip (code c) (code d) (compare s t) (compare t s) (gt_flip s t)
        (sym (compare.cons-cons c d s t) ∙ h)
