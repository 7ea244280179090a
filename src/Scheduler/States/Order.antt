-- ===== src/Scheduler/States/Order.antt =====
-- The order of texts that `sort.Strings` sorts by.
use Prim.Native.Char.{code}
use Prim.Native.Nat.{ℕ, Ordering, compare as compare_ℕ}
use Prim.Native.String.{compare, then}
use Prim.Native.String.compare.{nil-nil, nil-cons, cons-nil, cons-cons}
use text.Mathlib.TextEquality.{path_by_compare}
use text.Mathlib.TextPositions.{compare_refl}
use publish_carousel.Prelude.{String, ◌≡◌, refl, sym, ap, ◌∙◌, Bool, true, false, arith}
use mathlib.Core.Bool.{false≢true}
use publish_carousel.Scheduler.States.{text_le}

abbrev flip : Ordering → Ordering
flip Ordering.lt = Ordering.gt
flip Ordering.eq = Ordering.eq
flip Ordering.gt = Ordering.lt

flip-compare : (m n : ℕ) → compare_ℕ n m ≡ flip (compare_ℕ m n)
flip-compare m n = ground arith

flip-then : (o r : Ordering) → flip (then o r) ≡ then (flip o) (flip r)
flip-then Ordering.lt r = refl
flip-then Ordering.eq r = refl
flip-then Ordering.gt r = refl

flip-text : (s t : String) → compare t s ≡ flip (compare s t)
flip-text String.[] String.[] = nil-nil ∙ ap flip (sym nil-nil)
flip-text String.[] (String.◌∷◌ d t) = cons-nil d t ∙ ap flip (sym (nil-cons d t))
flip-text (String.◌∷◌ c s) String.[] = nil-cons c s ∙ ap flip (sym (cons-nil c s))
flip-text (String.◌∷◌ c s) (String.◌∷◌ d t) =
    cons-cons d c t s
    ∙ ap (then (compare_ℕ (code d) (code c))) (flip-text s t)
    ∙ ap (λ o. then o (flip (compare s t))) (flip-compare (code c) (code d))
    ∙ sym (flip-then (compare_ℕ (code c) (code d)) (compare s t))
    ∙ ap flip (sym (cons-cons c d s t))

abbrev is_le : Ordering → Bool
is_le Ordering.gt = false
is_le Ordering.lt = true
is_le Ordering.eq = true

le_of_not_le : (o : Ordering) → is_le o ≡ false → is_le (flip o) ≡ true
le_of_not_le Ordering.lt h = cc
le_of_not_le Ordering.eq h = cc
le_of_not_le Ordering.gt h = refl

eq_of_le : (o : Ordering) → is_le o ≡ true → is_le (flip o) ≡ true → o ≡ Ordering.eq
eq_of_le Ordering.lt h k = cc k
eq_of_le Ordering.eq h k = refl
eq_of_le Ordering.gt h k = cc h

le_of_compare : (s t : String) → text_le s t ≡ is_le (compare s t)
le_of_compare s t = by_order (compare s t)
  where
    by_order : (o : Ordering) → (elim o [ Ordering.gt ↦ false | _ ↦ true ]) ≡ is_le o
    by_order Ordering.lt = refl
    by_order Ordering.eq = refl
    by_order Ordering.gt = refl

then_trans :
    (c d e : ℕ) (o p r : Ordering)
    → (is_le o ≡ true → is_le p ≡ true → is_le r ≡ true)
    → is_le (then (compare_ℕ c d) o) ≡ true
    → is_le (then (compare_ℕ d e) p) ≡ true
    → is_le (then (compare_ℕ c e) r) ≡ true
then_trans c d e o p r h a b = ground (arith, h, a, b)

trans_lem :
    (s t u : String)
    → is_le (compare s t) ≡ true
    → is_le (compare t u) ≡ true
    → is_le (compare s u) ≡ true
trans_lem String.[] t String.[] a b = ap is_le nil-nil
trans_lem String.[] t (String.◌∷◌ e u) a b = ap is_le (nil-cons e u)
trans_lem (String.◌∷◌ c s) String.[] u a b = absurd (false≢true (sym (ap is_le (cons-nil c s)) ∙ a))
trans_lem (String.◌∷◌ c s) (String.◌∷◌ d t) String.[] a b =
    absurd (false≢true (sym (ap is_le (cons-nil d t)) ∙ b))
trans_lem (String.◌∷◌ c s) (String.◌∷◌ d t) (String.◌∷◌ e u) a b =
    ap is_le (cons-cons c e s u)
    ∙ then_trans (code c) (code d) (code e) (compare s t) (compare t u) (compare s u)
        (trans_lem s t u) (sym (ap is_le (cons-cons c d s t)) ∙ a)
        (sym (ap is_le (cons-cons d e t u)) ∙ b)

pub text_le_trans : (s t u : String) → text_le s t ≡ true → text_le t u ≡ true → text_le s u ≡ true
text_le_trans s t u a b =
    le_of_compare s u ∙ trans_lem s t u (sym (le_of_compare s t) ∙ a) (sym (le_of_compare t u) ∙ b)

pub text_le_antisym : (s t : String) → text_le s t ≡ true → text_le t s ≡ true → s ≡ t
text_le_antisym s t a b = path_by_compare s t (
    eq_of_le (compare s t) (sym (le_of_compare s t) ∙ a)
      (ap is_le (sym (flip-text s t)) ∙ sym (le_of_compare t s) ∙ b))

pub text_le_total : (s t : String) → text_le s t ≡ false → text_le t s ≡ true
text_le_total s t a =
    le_of_compare t s
    ∙ ap is_le (flip-text s t)
    ∙ le_of_not_le (compare s t) (sym (le_of_compare s t) ∙ a)

pub text_le_refl : (s : String) → text_le s s ≡ true
text_le_refl s = le_of_compare s s ∙ ap is_le (compare_refl s)
