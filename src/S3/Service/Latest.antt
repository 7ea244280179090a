-- ===== src/S3/Service/Latest.antt =====
-- s3/service.go: the key that `GetLatestKeyForID` picks.
use publish_carousel.Prelude.{
  String, ◌≡◌, refl, sym, ap, List, [], ◌∷◌, ◌++◌, some, ◌⊎◌, inl, inr, arith, All, Bool-cases,
}
use publish_carousel.Prelude.Int.{ℤ, ◌≤ℤ◌, ◌<ℤ◌, ltb_ℤ}
use publish_carousel.S3.Service.{Object, latest_from, latest_key}

-- An object of the list that is newer than all before it, and not older than any after it.
pub record IsLatest (os : List Object) (k : String) : Type 0 where
  pub object : Object
  pub earlier : List Object
  pub later : List Object
  pub listed : os ≡ earlier ++ object ∷ later
  pub keyed : object.key ≡ k
  pub newer : All (λ (p : Object). p.last_modified <ℤ object.last_modified) earlier
  pub newest : All (λ (p : Object). p.last_modified ≤ℤ object.last_modified) later

-- What the rest of the loop picks, where the latest time so far is `t` and its key `k`.
abbrev Picks : ℤ → String → List Object → String → Type 0
Picks t k os r =
    ((r ≡ k) × All (λ (p : Object). p.last_modified ≤ℤ t) os)
    ⊎ ((l : IsLatest os r) × (t <ℤ l.object.last_modified))

abbrev cons_later :
    (p : Object) (os : List Object) (r : String) (l : IsLatest os r)
    → p.last_modified <ℤ l.object.last_modified
    → IsLatest (p ∷ os) r
cons_later p os r l h = record {
  object = l.object;
  earlier = p ∷ l.earlier;
  later = l.later;
  listed = ap (◌∷◌ p) l.listed;
  keyed = l.keyed;
  newer = (h, l.newer);
  newest = l.newest;
}

take_newer :
    (t : ℤ) (k : String) (p : Object) (os : List Object) (r : String)
    → t <ℤ p.last_modified
    → Picks p.last_modified p.key os r
    → Picks t k (p ∷ os) r
take_newer t k p os r h (inl (e, all)) = inr (
  record {
    object = p;
    earlier = [];
    later = os;
    listed = refl;
    keyed = sym e;
    newer = tt;
    newest = all;
  },
  h,
)
take_newer t k p os r h (inr (l, g)) = inr (cons_later p os r l g, omega (arith, h, g))

keep_older :
    (t : ℤ) (k : String) (p : Object) (os : List Object) (r : String)
    → p.last_modified ≤ℤ t
    → Picks t k os r
    → Picks t k (p ∷ os) r
keep_older t k p os r h (inl (e, all)) = inl (e, (h, all))
keep_older t k p os r h (inr (l, g)) = inr (cons_later p os r l (omega (arith, h, g)), g)

latest_from-Picks :
    (t : ℤ) (k : String) (os : List Object) → Picks t k os (latest_from (some t) k os)
unfolding latest_from
latest_from-Picks t k [] = inl (refl, tt)
latest_from-Picks t k (p ∷ os) = elim (Bool-cases (ltb_ℤ t p.last_modified)) [
  | inl h ↦ rw h (
      take_newer t k p os (latest_from (some p.last_modified) p.key os) (ground (arith, h))
        (latest_from-Picks p.last_modified p.key os))
  | inr h ↦ rw h (
      keep_older t k p os (latest_from (some t) k os) (ground (arith, h))
        (latest_from-Picks t k os))
]

-- In a listing that is not empty, the key picked is that of an object newer than every object listed
-- before it and not older than any listed after it: of the latest objects, the first.
pub latest_key-IsLatest : (o : Object) (os : List Object) → IsLatest (o ∷ os) (latest_key (o ∷ os))
unfolding latest_key latest_from
latest_key-IsLatest o os = elim (latest_from-Picks o.last_modified o.key os) [
  | inl (e, all) ↦ record {
    object = o;
    earlier = [];
    later = os;
    listed = refl;
    keyed = sym e;
    newer = tt;
    newest = all;
  }
  | inr (l, h) ↦ cons_later o os (latest_from (some o.last_modified) o.key os) l h
]
