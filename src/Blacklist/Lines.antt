-- ===== src/Blacklist/Lines.antt =====
-- blacklist/blacklist.go: a UUID is blacklisted where a line of the file has it inside.
use Prim.Native.Char.{code}
use Prim.Native.String.{String, ◌++◌ as append}
use text.Mathlib.TextEquality.{Char-path}
use text.Mathlib.TextLemmas.{cons-append, nil-append}
use publish_carousel.Prelude.{
  ◌≡◌, refl, sym, ap, subst, ◌∙◌, ◌⊎◌, inl, inr, true, false, List, [], ◌∷◌, Option, none, Error,
  starts_with, arith, Bool-cases, ◌==◌,
}
use publish_carousel.Blacklist.{contains, Scanned, Answer, scan, scanned, is_blacklisted}

-- The text before and the text after the word.
abbrev pub Inside : String → String → Type 0
Inside word s = (before : String) × (after : String) × (s ≡ append before (append word after))

abbrev pub InALine : String → List String → Type 0
InALine word [] = ⊥
InALine word (line ∷ lines) = Inside word line ⊎ InALine word lines

starts_with-append : (word after : String) → starts_with word (append word after) ≡ true
unfolding starts_with
starts_with-append String.[] after = refl
starts_with-append (String.◌∷◌ c word) after =
    let same : (code c == code c) ≡ true = ground arith in
    ap (starts_with (String.◌∷◌ c word)) (cons-append c word after)
    ∙ rw same (starts_with-append word after)

starts_with-after :
    (word s : String) → starts_with word s ≡ true → (after : String) × (s ≡ append word after)
unfolding starts_with
starts_with-after String.[] s h = (s, sym (nil-append s))
starts_with-after (String.◌∷◌ c word) String.[] h = cc h
starts_with-after (String.◌∷◌ c word) (String.◌∷◌ d s) h = elim (Bool-cases (code c == code d)) [
  | inl e ↦
      let (after, found) = starts_with-after word s (rw e at h) in
      let same : code c ≡ code d = ground (arith, e) in
      (
        after,
        ap (λ t. String.◌∷◌ d t) found
            ∙ ap (λ x. String.◌∷◌ x (append word after)) (Char-path d c (sym same))
            ∙ sym (cons-append c word after),
      )
  | inr e ↦ absurd (ne (rw e at h))
]
  where
    ne : false ≡ true → ⊥
    ne k = cc k

contains-Inside : (s word : String) → contains s word ≡ true → Inside word s
unfolding contains
contains-Inside String.[] word h =
    let (after, found) = starts_with-after word "" h in
    ("", after, found ∙ sym (nil-append (append word after)))
contains-Inside (String.◌∷◌ c s) word h = elim (Bool-cases (starts_with word (String.◌∷◌ c s))) [
  | inl e ↦
      let (after, found) = starts_with-after word (String.◌∷◌ c s) e in
      ("", after, found ∙ sym (nil-append (append word after)))
  | inr e ↦
      let (before, after, found) = contains-Inside s word (rw e at h) in
      (
        String.◌∷◌ c before,
        after,
        ap (λ t. String.◌∷◌ c t) found ∙ sym (cons-append c before (append word after)),
      )
]

contains_head : (s word : String) → starts_with word s ≡ true → contains s word ≡ true
unfolding contains
contains_head String.[] word h = h
contains_head (String.◌∷◌ c s) word h = rw h refl

contains-append :
    (before word after : String) → contains (append before (append word after)) word ≡ true
unfolding contains
contains-append String.[] word after =
    ap (λ t. contains t word) (nil-append (append word after))
    ∙ contains_head (append word after) word (starts_with-append word after)
contains-append (String.◌∷◌ c before) word after =
    ap (λ t. contains t word) (cons-append c before (append word after))
    ∙ elim (Bool-cases (starts_with word (String.◌∷◌ c (append before (append word after))))) [
      | inl e ↦ rw e refl
      | inr e ↦ rw e (contains-append before word after)
    ]

Inside-contains : (s word : String) → Inside word s → contains s word ≡ true
Inside-contains s word (before, after, found) =
    ap (λ t. contains t word) found ∙ contains-append before word after

-- What the scanner answers, against what stands in the lines.
abbrev pub Decides : String → List String → Option Error → Answer → Type 0
Decides uuid lines e a =
    ((a ≡ (true, none)) × InALine uuid lines) ⊎ ((a ≡ (false, e)) × (InALine uuid lines → ⊥))

scan-Decides :
    (uuid : String) (lines : List String) (e : Option Error)
    → Decides uuid lines e (scan uuid lines e)
unfolding scan
scan-Decides uuid [] e = inr (refl, λ z. z)
scan-Decides uuid (line ∷ lines) e = elim (Bool-cases (contains line uuid)) [
  | inl found ↦ rw found (inl (refl, inl (contains-Inside line uuid found)))
  | inr missing ↦ rw missing (elim (scan-Decides uuid lines e) [
    | inl (a, i) ↦ inl (a, inr i)
    | inr (a, n) ↦ inr (
      a,
      λ i. elim i [
        | inl here ↦ (let k = sym missing ∙ Inside-contains line uuid here in cc k)
        | inr there ↦ n there
      ],
    )
  ])
]

-- Where the file can be opened: the answer is true, with no error, and the UUID stands inside a line
-- that the scanner gave; or it stands in none of them, and the answer is false, with the scanner's
-- error.
pub is_blacklisted-Decides :
    {W : Type 0} (open_file : String → W → W × (Error ⊎ Scanned)) (file uuid : String) (w w' : W)
    (lines : List String) (e : Option Error)
    → open_file file w ≡ (w', inr (lines, e))
    → Decides uuid lines e (is_blacklisted open_file file uuid w).1
unfolding is_blacklisted
is_blacklisted-Decides open_file file uuid w w' lines e h =
    subst (Decides uuid lines e)
      (ap (λ (a : _ × (Error ⊎ Scanned)). (scanned open_file uuid a).1) (sym h))
      (scan-Decides uuid lines e)
