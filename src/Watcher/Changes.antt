-- ===== src/Watcher/Changes.antt =====
-- file/watcher.go: `Watch` hands on the changes of the file.
use mathlib.Core.List.{append_assoc, append-nil}
use publish_carousel.Prelude.{
  String, ◌≡◌, refl, sym, ap, ◌∙◌, List, [], ◌∷◌, ◌++◌, none, some, ◌⊎◌, inl, inr, Error, Result,
  if◌then◌else◌, text_eq, eq_iff, arith, length, Bool-cases,
}
use publish_carousel.Cluster.Environments.{set_key, get_key}
use publish_carousel.Cluster.Environments.Keys.{get_key-set_key}
use publish_carousel.Watcher.{Files, Watching, text_or_empty, read, after_read, tick, watch}

-- The values that differ from the one before, where what cannot be read is passed over.
abbrev pub changes : String → List (Error ⊎ String) → List String
changes current [] = []
changes current (inl e ∷ readings) = changes current readings
changes current (inr value ∷ readings) =
    if text_eq value current then changes current readings else value ∷ changes value readings

module _ {W : Type 0} (files : Files W) (callback : String → W → W × Result (Unit {0}))
    (paths : List (String × String)) (file_name : String) (readings : W → List (Error ⊎ String))
    (calls : W → List String) where
  -- A world with the readings of the file to come and the calls of the callback so far; the context
  -- is never done.
  pub record IsScripted : Type 0 where
    pub live : (w : W) → files.ctx_err w ≡ none
    pub reading :
        (w : W) (r : Error ⊎ String) (rs : List (Error ⊎ String))
        → readings w ≡ r ∷ rs
        → ((read files paths file_name w).1 ≡ r)
          × (readings (read files paths file_name w).0 ≡ rs)
          × (calls (read files paths file_name w).0 ≡ calls w)
    pub calling :
        (v : String) (w : W)
        → (calls (callback v w).0 ≡ calls w ++ v ∷ []) × (readings (callback v w).0 ≡ readings w)

  abbrev current : Watching W → String
  current s = text_or_empty (get_key file_name s.file_contents)

  set_value :
      (v : String) (contents : List (String × String))
      → text_or_empty (get_key file_name (set_key file_name v contents)) ≡ v
  set_value v contents = ap text_or_empty (get_key-set_key file_name file_name v contents) ∙ self
    where
      self :
          text_or_empty (if text_eq file_name file_name then some v else get_key file_name contents)
          ≡ v
      self = ground (arith, eq_iff file_name file_name)

  -- What was handed on and what is to come stay the same.
  abbrev Kept : List (Error ⊎ String) → List String → Watching W → Type 0
  Kept rs all s = (readings s.world ≡ rs) × (calls s.world ++ changes (current s) rs ≡ all)

  after_read-Kept :
      (contents : List (String × String)) (w : W) (x : Error ⊎ String) (rs : List (Error ⊎ String))
      → IsScripted
      → readings w ≡ rs
      → Kept rs
          (calls w ++ changes (text_or_empty (get_key file_name contents)) (x ∷ rs))
          (after_read files callback file_name contents (w, x))
  after_read-Kept contents w (inl e) rs g h = (h, refl)
  after_read-Kept contents w (inr v) rs g h =
      elim (Bool-cases (text_eq v (text_or_empty (get_key file_name contents)))) [
        | inl same ↦ rw same (h, refl)
        | inr new ↦ rw new (
          (g.calling v w).1 ∙ h,
          ap (λ c. calls (callback v w).0 ++ changes c rs) (set_value v contents)
              ∙ ap (λ l. l ++ changes v rs) (g.calling v w).0
              ∙ append_assoc (calls w) (v ∷ []) (changes v rs),
        )
      ]

  tick-Kept :
      (s : Watching W) (r : Error ⊎ String) (rs : List (Error ⊎ String))
      → IsScripted
      → readings s.world ≡ r ∷ rs
      → Kept rs
          (calls s.world ++ changes (current s) (r ∷ rs))
          (tick files callback paths file_name s)
  unfolding tick
  tick-Kept s r rs g h =
      let (x, rest, same) = g.reading s.world r rs h in
      let a = read files paths file_name s.world in
      let (k, l) = after_read-Kept s.file_contents a.0 a.1 rs g rest in
      (
        k,
        l
            ∙ ap (λ y. calls a.0 ++ changes (current s) (y ∷ rs)) x
            ∙ ap (λ c. c ++ changes (current s) (r ∷ rs)) same,
      )

  -- With a context that is not done, and a file whose next readings are given: after as many ticks
  -- `Watch` has called the callback with each value that differs from the value before, in order,
  -- and with no other, whether the callback panics or not. The value before is the one that the
  -- watcher holds for the file, or the empty text.
  pub watch-changes :
      (rs : List (Error ⊎ String)) (s : Watching W)
      → IsScripted
      → readings s.world ≡ rs
      → calls (watch files callback (length rs) paths file_name s).world
        ≡ calls s.world ++ changes (current s) rs
  unfolding watch
  watch-changes [] s g h = sym (append-nil (calls s.world))
  watch-changes (r ∷ rs) s g h =
      let (k, l) = tick-Kept s r rs g h in
      rw (g.live s.world) (watch-changes rs (tick files callback paths file_name s) g k ∙ l)
