-- ===== src/Prelude/Split/Laws.antt =====
-- Splitting undoes joining, and a text with a character that is no space is not blank.
use Prim.Native.Nat.{ℕ, suc}
use Prim.Native.Char.{Char, code}
use Prim.Native.String.{String, ◌++◌ as append}
use mathlib.Core.Path.{◌≡◌, refl, sym, ap, ◌∙◌}
use mathlib.Core.Bool.{true, false}
use mathlib.Core.Logic.{inl, inr}
use mathlib.Core.List.{List, [], ◌∷◌}
use native.Mathlib.Omega.{arith}
use text.Mathlib.TextLemmas.{cons-append, nil-append}
use text.Mathlib.TextEquality.{eq_iff}
use publish_carousel.Prelude.Lists.{All}
use publish_carousel.Prelude.Tests.{◌==◌, Bool-cases}
use publish_carousel.Prelude.Text.{text_eq, is_space, trim_left, trim_right, trim_space, is_blank}
use publish_carousel.Prelude.Split.{split, split_n, join, has_code}

abbrev pub Lacks : ℕ → String → Type 0
Lacks separator s = has_code separator s ≡ false

code_self : (c : Char) → (code c == code c) ≡ true
code_self c = ground arith

Lacks-head : (n : ℕ) (c : Char) (s : String) → Lacks n (String.◌∷◌ c s) → (code c == n) ≡ false
Lacks-head n c s h = ground arith

Lacks-tail : (n : ℕ) (c : Char) (s : String) → Lacks n (String.◌∷◌ c s) → Lacks n s
Lacks-tail n c s h = ground arith

split-Lacks : (n : ℕ) (s : String) → Lacks n s → split n s ≡ s ∷ []
unfolding split
split-Lacks n String.[] h = refl
split-Lacks n (String.◌∷◌ c s) h =
    rw (Lacks-head n c s h, split-Lacks n s (Lacks-tail n c s h)) refl

split-append :
    (separator : Char) (s t : String)
    → Lacks (code separator) s
    → split (code separator) (append s (String.◌∷◌ separator t)) ≡ s ∷ split (code separator) t
unfolding split
split-append separator String.[] t h =
    ap (split (code separator)) (nil-append (String.◌∷◌ separator t))
    ∙ rw (code_self separator) refl
split-append separator (String.◌∷◌ c s) t h =
    ap (split (code separator)) (cons-append c s (String.◌∷◌ separator t))
    ∙ rw
        (
          Lacks-head (code separator) c s h,
          split-append separator s t (Lacks-tail (code separator) c s h),
        )
        refl

-- The pieces that were joined, where the separator is in none of them.
pub split-join :
    (separator : Char) (piece : String) (pieces : List String)
    → All (Lacks (code separator)) (piece ∷ pieces)
    → split (code separator) (join separator (piece ∷ pieces)) ≡ piece ∷ pieces
unfolding join
split-join separator piece [] (h, hs) = split-Lacks (code separator) piece h
split-join separator piece (q ∷ pieces) (h, hs) =
    split-append separator piece (join separator (q ∷ pieces)) h
    ∙ ap (λ rest. piece ∷ rest) (split-join separator q pieces hs)

-- The first piece, where the separator is not in it.
pub split_n-append :
    (n : ℕ) (separator : Char) (s t : String)
    → Lacks (code separator) s
    → split_n (suc (suc n)) (code separator) (append s (String.◌∷◌ separator t))
      ≡ s ∷ split_n (suc n) (code separator) t
unfolding split_n
split_n-append n separator String.[] t h =
    ap (split_n (suc (suc n)) (code separator)) (nil-append (String.◌∷◌ separator t))
    ∙ rw (code_self separator) refl
split_n-append n separator (String.◌∷◌ c s) t h =
    ap (split_n (suc (suc n)) (code separator)) (cons-append c s (String.◌∷◌ separator t))
    ∙ rw
        (
          Lacks-head (code separator) c s h,
          split_n-append n separator s t (Lacks-tail (code separator) c s h),
        )
        refl

pub has_code-append :
    (separator : Char) (s t : String)
    → has_code (code separator) (append s (String.◌∷◌ separator t)) ≡ true
has_code-append separator String.[] t =
    ap (has_code (code separator)) (nil-append (String.◌∷◌ separator t))
    ∙ rw (code_self separator) refl
has_code-append separator (String.◌∷◌ c s) t =
    ap (has_code (code separator)) (cons-append c s (String.◌∷◌ separator t))
    ∙ elim (Bool-cases (code c == code separator)) [
      | inl e ↦ rw e refl
      | inr e ↦ rw e (has_code-append separator s t)
    ]

pub has_code-append_left :
    (n : ℕ) (s t : String) → has_code n s ≡ true → has_code n (append s t) ≡ true
has_code-append_left n String.[] t h = cc h
has_code-append_left n (String.◌∷◌ c s) t h =
    ap (has_code n) (cons-append c s t) ∙ elim (Bool-cases (code c == n)) [
      | inl e ↦ rw e refl
      | inr e ↦ rw e (has_code-append_left n s t (rw e at h))
    ]

-- A character of the first piece.
pub has_code-join :
    (n : ℕ) (separator : Char) (piece : String) (pieces : List String)
    → has_code n piece ≡ true
    → has_code n (join separator (piece ∷ pieces)) ≡ true
unfolding join
has_code-join n separator piece [] h = h
has_code-join n separator piece (q ∷ pieces) h = has_code-append_left n piece _ h

has_code-not_empty : (n : ℕ) (t : String) → has_code n t ≡ true → text_eq t "" ≡ false
has_code-not_empty n t h = elim (Bool-cases (text_eq t "")) [
  | inl e ↦ let same : t ≡ "" = (eq_iff t "").0 e in cc (sym h ∙ ap (has_code n) same)
  | inr e ↦ e
]

-- A space at the front is not the character.
space_apart :
    (n : ℕ) (c : Char) → is_space n ≡ false → is_space (code c) ≡ true → (code c == n) ≡ false
space_apart n c v sp = elim (Bool-cases (code c == n)) [
  | inl e ↦ let same : code c ≡ n = ground (arith, e) in cc (sym v ∙ ap is_space (sym same) ∙ sp)
  | inr e ↦ e
]

trim_left-has_code :
    (n : ℕ) (s : String)
    → is_space n ≡ false
    → has_code n s ≡ true
    → has_code n (trim_left s) ≡ true
unfolding trim_left
trim_left-has_code n String.[] v h = cc h
trim_left-has_code n (String.◌∷◌ c s) v h = elim (Bool-cases (is_space (code c))) [
  | inl sp ↦ rw sp (trim_left-has_code n s v (rw (space_apart n c v sp) at h))
  | inr sp ↦ rw sp h
]

trim_right-has_code :
    (n : ℕ) (s : String)
    → is_space n ≡ false
    → has_code n s ≡ true
    → has_code n (trim_right s) ≡ true
unfolding trim_right
trim_right-has_code n String.[] v h = cc h
trim_right-has_code n (String.◌∷◌ c s) v h = elim (Bool-cases (code c == n)) [
  | inl e ↦ elim (Bool-cases (is_space (code c))) [
    | inl sp ↦ cc (sym e ∙ space_apart n c v sp)
    | inr sp ↦ elim (Bool-cases (text_eq (trim_right s) "")) [
      | inl z ↦ rw (z, sp, e) refl
      | inr z ↦ rw (z, e) refl
    ]
  ]
  | inr e ↦
      let inside = trim_right-has_code n s v (rw e at h) in
      rw (has_code-not_empty n (trim_right s) inside, e) inside
]

-- A text with a character that is no space is not blank.
pub is_blank-has_code :
    (n : ℕ) (s : String) → is_space n ≡ false → has_code n s ≡ true → is_blank s ≡ false
unfolding is_blank trim_space
is_blank-has_code n s v h =
    has_code-not_empty n (trim_right (trim_left s))
      (trim_right-has_code n (trim_left s) v (trim_left-has_code n s v h))
