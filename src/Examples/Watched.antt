-- ===== src/Examples/Watched.antt =====
-- A file that is read four times, and a blacklist of two lines.
use publish_carousel.Prelude.{
  ℕ, String, ◌≡◌, refl, List, [], ◌∷◌, ◌++◌, none, ◌⊎◌, inl, inr, Error, Result, panic,
}
use publish_carousel.Cluster.Environments.{get_key}
use publish_carousel.Watcher.{Files, Watching, read, watch}
use publish_carousel.Watcher.Changes.{IsScripted, watch-changes}
use publish_carousel.Blacklist.{Scanned, is_blacklisted}
use publish_carousel.Blacklist.Lines.{Decides, is_blacklisted-Decides}

-- The readings to come, and the values that the callback was called with.
abbrev Script : Type 0
Script = List String × List String

abbrev next_reading : List String → List String × (Error ⊎ String)
next_reading [] = ([], inl "no such file")
next_reading (x ∷ xs) = (xs, inr x)

abbrev scripted : Files Script
scripted = record {
  walk = λ folder w. (w, inr []);
  read_file = λ path w. (((next_reading w.0).0, w.1), (next_reading w.0).1);
  ctx_err = λ w. none;
}

abbrev paths : List (String × String)
paths = ("toggle", "/configs/toggle") ∷ []

-- The callback panics after each value.
abbrev remember : String → Script → Script × Result (Unit {0})
remember value w = ((w.0, w.1 ++ value ∷ []), panic)

abbrev to_come : Script → List (Error ⊎ String)
to_come w = texts w.0
  where
    texts : List String → List (Error ⊎ String)
    texts [] = []
    texts (x ∷ xs) = inr x ∷ texts xs

scripted-IsScripted : IsScripted scripted remember paths "toggle" to_come (λ w. w.1)
unfolding read get_key
scripted-IsScripted = record {
  live = λ w. refl;
  reading = λ w r rs h. first w.0 w.1 r rs h;
  calling = λ v w. (refl, refl);
}
  where
    first :
        (xs cs : List String) (r : Error ⊎ String) (rs : List (Error ⊎ String))
        → to_come (xs, cs) ≡ r ∷ rs
        → ((read scripted paths "toggle" (xs, cs)).1 ≡ r)
          × (to_come (read scripted paths "toggle" (xs, cs)).0 ≡ rs)
          × ((read scripted paths "toggle" (xs, cs)).0.1 ≡ cs)
    first [] cs r rs h = cc h
    first (x ∷ xs) cs r rs h = (cc h, cc h, refl)

abbrev watching : Watching Script
watching = record { world = ("true" ∷ "true" ∷ "false" ∷ "true" ∷ [], []); file_contents = [] }

watch-changes_example :
    (watch scripted remember 4 paths "toggle" watching).world.1 ≡ "true" ∷ "false" ∷ "true" ∷ []
unfolding get_key
watch-changes_example =
    watch-changes scripted remember paths "toggle" to_come (λ w. w.1)
      (inr "true" ∷ inr "true" ∷ inr "false" ∷ inr "true" ∷ []) watching scripted-IsScripted refl

abbrev two_lines : String → ℕ → ℕ × (Error ⊎ Scanned)
two_lines file w = (w, inr ("a1 # broken" ∷ "b2" ∷ [], none))

is_blacklisted-Decides_example :
    Decides "b2" ("a1 # broken" ∷ "b2" ∷ []) none (is_blacklisted two_lines "blacklist" "b2" 0).1
is_blacklisted-Decides_example =
    is_blacklisted-Decides two_lines "blacklist" "b2" 0 0 ("a1 # broken" ∷ "b2" ∷ []) none refl
