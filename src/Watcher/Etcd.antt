-- ===== src/Watcher/Etcd.antt =====
-- etcd/watcher.go: a key of etcd that is read, and a callback for the values that it is given.
-- The client of etcd is a parameter over the world `W`.
use mathlib.Core.List.{append_assoc, append-nil}
use publish_carousel.Prelude.{
  ℕ, zero, suc, String, ◌≡◌, refl, sym, ap, ◌∙◌, List, [], ◌∷◌, ◌++◌, Option, none, some, ◌⊎◌, inl,
  inr, Error, Result, length,
}

-- `Get` and the watcher's `Next`, which gives no value where the response or its node is nil; the
-- context; and a sleep of ten seconds.
pub record Keys (W : Type 0) : Type 0 where
  pub get : String → W → W × (Error ⊎ String)
  pub next : String → W → W × (Error ⊎ Option String)
  pub ctx_err : W → Option Error
  pub sleep : W → W

-- What one answer of `Next` hands on.
abbrev pub value_of : Error ⊎ Option String → List String
value_of (inl e) = []
value_of (inr none) = []
value_of (inr (some value)) = value ∷ []

-- The values of the answers, in order.
abbrev pub values : List (Error ⊎ Option String) → List String
values [] = []
values (a ∷ rest) = value_of a ++ values rest

module _ {W : Type 0} (keys : Keys W) where
  -- `Read`
  unfoldable pub read_key : String → W → W × (Error ⊎ String)
  read_key key w = keys.get key w

module _ {W : Type 0} (keys : Keys W) (callback : String → W → W × Result (Unit {0})) where
  -- After `Next`; a panic of the callback is recovered.
  abbrev pub after_next : W × (Error ⊎ Option String) → W
  after_next (w, inl e) = keys.sleep w
  after_next (w, inr none) = w
  after_next (w, inr (some value)) = (callback value w).0

  -- `Watch` for a number of rounds; it ends where the context is done.
  unfoldable pub watch_key : ℕ → String → W → W
  watch_key zero key w = w
  watch_key (suc n) key w =
      let next = watch_key n key (after_next (keys.next key w)) in
      elim (keys.ctx_err w) [ none ↦ next | some e ↦ w ]

module _ {W : Type 0} (keys : Keys W) (callback : String → W → W × Result (Unit {0})) (key : String)
    (answers : W → List (Error ⊎ Option String)) (calls : W → List String) where
  -- A world with the answers of `Next` to come and the calls of the callback so far.
  pub record IsAnswered : Type 0 where
    pub live : (w : W) → keys.ctx_err w ≡ none
    pub answer :
        (w : W) (a : Error ⊎ Option String) (rest : List (Error ⊎ Option String))
        → answers w ≡ a ∷ rest
        → ((keys.next key w).1 ≡ a)
          × (answers (keys.next key w).0 ≡ rest)
          × (calls (keys.next key w).0 ≡ calls w)
    pub sleeping : (w : W) → (answers (keys.sleep w) ≡ answers w) × (calls (keys.sleep w) ≡ calls w)
    pub calling :
        (v : String) (w : W)
        → (calls (callback v w).0 ≡ calls w ++ v ∷ []) × (answers (callback v w).0 ≡ answers w)

  after_next-values :
      (w : W) (a : Error ⊎ Option String)
      → IsAnswered
      → (answers (after_next keys callback (w, a)) ≡ answers w)
        × (calls (after_next keys callback (w, a)) ≡ calls w ++ value_of a)
  after_next-values w (inl e) g = ((g.sleeping w).0, (g.sleeping w).1 ∙ sym (append-nil (calls w)))
  after_next-values w (inr none) g = (refl, sym (append-nil (calls w)))
  after_next-values w (inr (some v)) g = ((g.calling v w).1, (g.calling v w).0)

  -- With a context that is not done: after as many rounds as `Next` has answers, the callback was
  -- called with each value among them, in order, and with no other; an error is passed over.
  pub watch_key-values :
      (rest : List (Error ⊎ Option String)) (w : W)
      → IsAnswered
      → answers w ≡ rest
      → calls (watch_key keys callback (length rest) key w) ≡ calls w ++ values rest
  unfolding watch_key
  watch_key-values [] w g h = sym (append-nil (calls w))
  watch_key-values (a ∷ rest) w g h =
      let n = keys.next key w in
      let (same, more, quiet) = g.answer w a rest h in
      let (left, called) = after_next-values n.0 n.1 g in
      rw (g.live w) (
        watch_key-values rest (after_next keys callback n) g (left ∙ more)
        ∙ ap (λ l. l ++ values rest) (called ∙ ap (λ l. l ++ value_of n.1) quiet)
        ∙ ap (λ x. calls w ++ value_of x ++ values rest) same
        ∙ append_assoc (calls w) (value_of a) (values rest))
