-- ===== src/Scheduler/States/Canonical.antt =====
-- scheduler/cycle_states.go: what `State.Update` stores depends on the set of the names alone.
use publish_carousel.Prelude.{
  String, ◌≡◌, ◌↔◌, refl, sym, ap, ◌∙◌, ◌⊎◌, inl, inr, Bool, true, false, ◌||◌, List, [], ◌∷◌,
  text_eq, eq_iff, arith, Bool-cases,
}
use publish_carousel.Scheduler.States.{text_le, insert_text, sort_texts, contains, to_set, update}
use publish_carousel.Scheduler.States.Order.{
  text_le_trans, text_le_antisym, text_le_total, text_le_refl,
}

-- Each name once, and each before the greater ones.
abbrev pub IsDistinct : List String → Type 0
IsDistinct [] = Unit
IsDistinct (s ∷ ss) = (contains s ss ≡ false) × IsDistinct ss

abbrev pub IsSorted : List String → Type 0
IsSorted [] = Unit
IsSorted (s ∷ ss) = ((j : String) → contains j ss ≡ true → text_le s j ≡ true) × IsSorted ss

contains-insert_text :
    (j s : String) (ss : List String)
    → contains j (insert_text s ss) ≡ (text_eq s j || contains j ss)
unfolding contains insert_text
contains-insert_text j s [] = refl
contains-insert_text j s (t ∷ ts) = ground (arith, contains-insert_text j s ts)

contains-sort_texts : (j : String) (ss : List String) → contains j (sort_texts ss) ≡ contains j ss
unfolding contains sort_texts
contains-sort_texts j [] = refl
contains-sort_texts j (s ∷ ss) =
    contains-insert_text j s (sort_texts ss) ∙ ap (λ b. text_eq s j || b) (contains-sort_texts j ss)

contains-to_set : (j : String) (ss : List String) → contains j (to_set ss) ≡ contains j ss
unfolding contains to_set
contains-to_set j [] = refl
contains-to_set j (s ∷ ss) = ground (arith, eq_iff s j, contains-to_set s ss, contains-to_set j ss)

to_set-IsDistinct : (ss : List String) → IsDistinct (to_set ss)
unfolding to_set
to_set-IsDistinct [] = tt
to_set-IsDistinct (s ∷ ss) = elim (Bool-cases (contains s (to_set ss))) [
  | inl old ↦ rw old (to_set-IsDistinct ss)
  | inr new ↦ rw new (new, to_set-IsDistinct ss)
]

insert_text-IsDistinct :
    (s : String) (ss : List String)
    → contains s ss ≡ false
    → IsDistinct ss
    → IsDistinct (insert_text s ss)
unfolding insert_text contains
insert_text-IsDistinct s [] h d = (refl, tt)
insert_text-IsDistinct s (t ∷ ts) h (fresh, d) = elim (Bool-cases (text_le s t)) [
  | inl le ↦ rw le (h, (fresh, d))
  | inr gt ↦ rw gt (
    contains-insert_text t s ts ∙ ground (arith, eq_iff t s, eq_iff s t, h, fresh),
    insert_text-IsDistinct s ts (ground (arith, h)) d,
  )
]

sort_texts-IsDistinct : (ss : List String) → IsDistinct ss → IsDistinct (sort_texts ss)
unfolding sort_texts
sort_texts-IsDistinct [] d = tt
sort_texts-IsDistinct (s ∷ ss) (fresh, d) =
    insert_text-IsDistinct s (sort_texts ss) (contains-sort_texts s ss ∙ fresh)
      (sort_texts-IsDistinct ss d)

or_true : (a b : Bool) → (a || b) ≡ true → (a ≡ true) ⊎ (b ≡ true)
or_true true b h = inl refl
or_true false b h = inr h

insert_text-IsSorted : (s : String) (ss : List String) → IsSorted ss → IsSorted (insert_text s ss)
unfolding insert_text contains
insert_text-IsSorted s [] h = (λ j k. cc k, tt)
insert_text-IsSorted s (t ∷ ts) (least, h) = elim (Bool-cases (text_le s t)) [
  | inl le ↦ rw le (
    λ j k. elim (or_true (text_eq t j) (contains j ts) k) [
      | inl same ↦ ap (text_le s) (sym ((eq_iff t j).0 same)) ∙ le
      | inr later ↦ text_le_trans s t j le (least j later)
    ],
    (least, h),
  )
  | inr gt ↦ rw gt (
    λ j k. elim (or_true (text_eq s j) (contains j ts) (sym (contains-insert_text j s ts) ∙ k)) [
      | inl same ↦ ap (text_le t) (sym ((eq_iff s j).0 same)) ∙ text_le_total s t gt
      | inr later ↦ least j later
    ],
    insert_text-IsSorted s ts h,
  )
]

sort_texts-IsSorted : (ss : List String) → IsSorted (sort_texts ss)
unfolding sort_texts
sort_texts-IsSorted [] = tt
sort_texts-IsSorted (s ∷ ss) = insert_text-IsSorted s (sort_texts ss) (sort_texts-IsSorted ss)

self_eq : (s : String) → text_eq s s ≡ true
self_eq s = (eq_iff s s).1 refl

-- The head of the one list is not greater than that of the other.
head_le :
    (x y : String) (xs ys : List String)
    → IsSorted (y ∷ ys)
    → contains x (x ∷ xs) ≡ contains x (y ∷ ys)
    → text_le y y ≡ true
    → text_le y x ≡ true
unfolding contains
head_le x y xs ys (least, h) k reflexive =
    elim (or_true (text_eq y x) (contains x ys)
      (sym k ∙ ap (λ b. b || contains x xs) (self_eq x))) [
        | inl same ↦ ap (text_le y) (sym ((eq_iff y x).0 same)) ∙ reflexive
        | inr later ↦ least x later
      ]

tail_same :
    (j x : String) (xs ys : List String)
    → contains j (x ∷ xs) ≡ contains j (x ∷ ys)
    → contains x xs ≡ false
    → contains x ys ≡ false
    → contains j xs ≡ contains j ys
unfolding contains
tail_same j x xs ys h a b = ground (arith, eq_iff x j, h, a, b)

pub sorted_unique :
    (xs ys : List String)
    → IsSorted xs
    → IsSorted ys
    → IsDistinct xs
    → IsDistinct ys
    → ((j : String) → contains j xs ≡ contains j ys)
    → xs ≡ ys
unfolding contains
sorted_unique [] [] a b c d h = refl
sorted_unique [] (y ∷ ys) a b c d h = cc (h y, ap (λ b. b || contains y ys) (self_eq y))
sorted_unique (x ∷ xs) [] a b c d h = cc (h x, ap (λ b. b || contains x xs) (self_eq x))
sorted_unique (x ∷ xs) (y ∷ ys) (a, sa) (b, sb) (c, dc) (d, dd) h =
    let e : x ≡ y =
      text_le_antisym x y (head_le y x ys xs (a, sa) (sym (h y)) (text_le_refl x))
        (head_le x y xs ys (b, sb) (h x) (text_le_refl y)) in
    let d' : contains x ys ≡ false = ap (λ z. contains z ys) e ∙ d in
    let same : (j : String) → contains j (x ∷ xs) ≡ contains j (x ∷ ys) =
      λ j. h j ∙ ap (λ z. contains j (z ∷ ys)) (sym e) in
    ap (λ l. x ∷ l) (sorted_unique xs ys sa sb dc dd (λ j. tail_same j x xs ys (same j) c d'))
    ∙ ap (λ z. z ∷ ys) e

contains-update : (j : String) (ss : List String) → contains j (update ss) ≡ contains j ss
unfolding update
contains-update j ss = contains-sort_texts j (to_set ss) ∙ contains-to_set j ss

pub update-IsSorted : (ss : List String) → IsSorted (update ss) × IsDistinct (update ss)
unfolding update
update-IsSorted ss =
    (sort_texts-IsSorted (to_set ss), sort_texts-IsDistinct (to_set ss) (to_set-IsDistinct ss))

-- `Update` stores the same for two sequences of names exactly where each name occurs in both of them
-- or in neither, however often and in whatever order.
pub update_iff :
    (xs ys : List String) → (update xs ≡ update ys) ↔ ((j : String) → contains j xs ≡ contains j ys)
update_iff xs ys = (
  λ e j. sym (contains-update j xs) ∙ ap (contains j) e ∙ contains-update j ys,
  λ h.
      sorted_unique (update xs) (update ys) (update-IsSorted xs).0 (update-IsSorted ys).0
        (update-IsSorted xs).1 (update-IsSorted ys).1
        (λ j. contains-update j xs ∙ h j ∙ sym (contains-update j ys)),
)

pub update-update : (ss : List String) → update (update ss) ≡ update ss
update-update ss = (update_iff (update ss) ss).1 (λ j. contains-update j ss)
