-- ===== src/Cluster/Environments/Keys.antt =====
-- Setting keys of a map one after the other, as cluster/file/read_environments.go does: the last
-- value is found.
use Prim.Native.String.{String}
use publish_carousel.Prelude.{
  ◌≡◌, refl, ap, ◌∙◌, Bool, true, false, List, [], ◌∷◌, Option, none, some, if◌then◌else◌, text_eq,
  eq_iff, arith,
}
use publish_carousel.Cluster.Environments.{set_key, get_key}

-- The value of the last pair with a key.
abbrev pub or_else {ℓ} : {A : Type ℓ} → Option A → Option A → Option A
or_else (some a) o = some a
or_else none o = o

abbrev pub last_of {ℓ} : {V : Type ℓ} → String → List (String × V) → Option V
last_of j [] = none
last_of j ((k, v) ∷ m) = or_else (last_of j m) (if text_eq k j then some v else none)

abbrev pub set_all {ℓ} : {V : Type ℓ} → List (String × V) → List (String × V) → List (String × V)
set_all [] m = m
set_all ((k, v) ∷ l) m = set_all l (set_key k v m)

pub get_key-set_key {ℓ} :
    {V : Type ℓ} (k j : String) (v : V) (m : List (String × V))
    → get_key j (set_key k v m) ≡ (if text_eq k j then some v else get_key j m)
unfolding get_key set_key
get_key-set_key k j v [] = refl
get_key-set_key k j v ((i, u) ∷ m) =
    ground (arith, eq_iff k j, eq_iff i k, eq_iff i j, get_key-set_key k j v m)

or_else-if {ℓ} :
    {V : Type ℓ} (o : Option V) (b : Bool) (v : V) (p : Option V)
    → or_else o (if b then some v else p) ≡ or_else (or_else o (if b then some v else none)) p
or_else-if (some x) b v p = refl
or_else-if none true v p = refl
or_else-if none false v p = refl

-- The last value that was set is found.
pub get_key-set_all {ℓ} :
    {V : Type ℓ} (j : String) (l m : List (String × V))
    → get_key j (set_all l m) ≡ or_else (last_of j l) (get_key j m)
get_key-set_all j [] m = refl
get_key-set_all j ((k, v) ∷ l) m =
    get_key-set_all j l (set_key k v m)
    ∙ ap (or_else (last_of j l)) (get_key-set_key k j v m)
    ∙ or_else-if (last_of j l) (text_eq k j) v (get_key j m)

pub or_else-none {ℓ} : {V : Type ℓ} (o : Option V) → or_else o none ≡ o
or_else-none none = refl
or_else-none (some v) = refl
