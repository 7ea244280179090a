-- ===== src/Native/Load/Filter.antt =====
-- native/in_memory_collection.go: which UUIDs `LoadIntoMemory` keeps.
use publish_carousel.Prelude.{
  ℕ, zero, suc, ◌+◌, ◌-◌, ◌<◌, String, ◌≡◌, refl, sym, ap, ◌∙◌, Bool, not, List, [], ◌∷◌, ◌++◌,
  Option, none, some, Error, if◌then◌else◌, ◌&&◌, is_blank, leb, int_le-leb, inc, drop, length,
  keep, arith, sign_bit, Bool-cases, inl, inr,
}
use mathlib.Core.List.{append_assoc, append-nil}
use publish_carousel.Native.Collection.{UuidCollection}
use publish_carousel.Native.InMemory.{InMemory, append_uuid, item, end_of_list}
use publish_carousel.Native.Load.{
  Loader, Load, again, leave, complete, is_refused, take_uuid, after_next, after_ctx, load_step,
  load_loop,
}

-- The source gives the UUIDs `ys` one by one, with no error, and then ends.
abbrev pub Yields : {S : Type 0} → UuidCollection S → S → List String → Type 0
Yields {S} src s [] = (s' : S) × (src.next s ≡ (s', some end_of_list))
Yields {S} src s (y ∷ ys) = (s' : S) × (src.next s ≡ (s', some (item y))) × Yields src s' ys

module _ {W S B : Type 0} (l : Loader W S B) (w : W) (verdict : String → Bool × Option Error) where
  -- A UUID is kept if it is not blank and the blacklist lets it pass without an error.
  abbrev pub is_kept : String → Bool
  is_kept uuid = not (is_blank uuid) && not (is_refused (verdict uuid).0 (verdict uuid).1)

  -- The world stands still: the context is live, and the blacklist answers by `verdict`.
  pub record Still : Type 0 where
    pub live : l.ctx_err w ≡ none
    pub answers :
        (uuid : String) → l.is_blacklisted uuid w ≡ (w, (verdict uuid).0, (verdict uuid).1)

  -- The UUIDs kept so far, after one more.
  abbrev grown : ℕ → String → List String → ℕ → List String
  grown skip y us i = if leb i skip then us else if is_kept y then us ++ y ∷ [] else us

  take_uuid-grown :
      (skip : ℕ) (y : String) (r : Load W S)
      → Still
      → r.world ≡ w
      → r.seen < sign_bit
      → skip < sign_bit
      → take_uuid l skip y r
        ≡ again (record r { it = record r.it { uuids = grown skip y r.it.uuids r.seen } })
  unfolding take_uuid append_uuid
  take_uuid-grown skip y r st e b k =
      rw (int_le-leb r.seen skip b k, e, st.answers y) (ground arith)

  abbrev kept : ℕ → List String → List String
  kept n ys = keep is_kept (drop n ys)

  abbrev with_uuids : InMemory → List String → InMemory
  with_uuids it us = record it { uuids = us }

  kept-nil : (n : ℕ) (us : List String) → us ++ kept n [] ≡ us
  kept-nil zero us = append-nil us
  kept-nil (suc n) us = append-nil us

  kept-cons :
      (y : String) (us ys : List String)
      → (if is_kept y then us ++ y ∷ [] else us) ++ keep is_kept ys ≡ us ++ keep is_kept (y ∷ ys)
  kept-cons y us ys = elim (Bool-cases (is_kept y)) [
    | inl e ↦ rw e (append_assoc us (y ∷ []) (keep is_kept ys))
    | inr e ↦ rw e
  ]

  grown-kept :
      (skip i : ℕ) (y : String) (us ys : List String)
      → grown skip y us (i + 1) ++ kept (skip - (i + 1)) ys ≡ us ++ kept (skip - i) (y ∷ ys)
  grown-kept skip i y us ys = elim (Bool-cases (leb (i + 1) skip)) [
    | inl e ↦ let d : skip - i ≡ suc (skip - (i + 1)) = ground arith in rw (e, d) refl
    | inr e ↦
        let d : skip - i ≡ 0 = ground arith in
        let d' : skip - (i + 1) ≡ 0 = ground arith in rw (e, d, d') (kept-cons y us ys)
  ]

  load_step-cons :
      (skip : ℕ) (y : String) (r : Load W S) (s' : S)
      → Still
      → r.world ≡ w
      → l.source.next r.rest ≡ (s', some (item y))
      → r.seen + 1 < sign_bit
      → skip < sign_bit
      → load_step l skip r
        ≡ again (record r {
          rest = s';
          seen = r.seen + 1;
          it = record r.it { uuids = grown skip y r.it.uuids (r.seen + 1) };
        })
  unfolding load_step
  load_step-cons skip y r s' st e n b k =
      let i : inc r.seen ≡ r.seen + 1 = omega arith in
      let live : l.ctx_err r.world ≡ none = ap l.ctx_err e ∙ st.live in
      ap (after_ctx l skip r) live
      ∙ ap (after_next l skip r) n
      ∙ ap (λ seen. take_uuid l skip y (record r { rest = s'; seen = seen })) i
      ∙ (take_uuid-grown skip y (record r { rest = s'; seen = r.seen + 1 }) st e b k)

  load_step-nil :
      (skip : ℕ) (r : Load W S) (s' : S)
      → Still
      → r.world ≡ w
      → l.source.next r.rest ≡ (s', some end_of_list)
      → load_step l skip r ≡ leave (record r { rest = s'; seen = inc r.seen }) complete
  unfolding load_step
  load_step-nil skip r s' st e n =
      let live : l.ctx_err r.world ≡ none = ap l.ctx_err e ∙ st.live in
      ap (after_ctx l skip r) live ∙ ap (after_next l skip r) n

  -- Over a source that yields `ys`, fewer than 2 ^ 63 and than the fuel, where the context stays live
  -- and the blacklist answers by `verdict` and changes nothing, the loop reads the source to its end,
  -- leaves the world as it was, and keeps, in the source's order, those past the first `skip` that
  -- are not blank and that the blacklist lets pass.
  pub load_loop-kept :
      (fuel skip : ℕ) (ys : List String) (r : Load W S)
      → Still
      → r.world ≡ w
      → Yields l.source r.rest ys
      → r.seen + length ys < sign_bit
      → skip < sign_bit
      → length ys < fuel
      → (r' : Load W S) × (load_loop l fuel skip r ≡ some (r', complete))
        × (r'.world ≡ w)
        × (r'.it ≡ record r.it { uuids = r.it.uuids ++ keep is_kept (drop (skip - r.seen) ys) })
  unfolding load_loop
  load_loop-kept zero skip ys r st e y b k f = elim f [ ]
  load_loop-kept (suc fuel) skip [] r st e (s', n) b k f = (
    record r { rest = s'; seen = inc r.seen },
    rw (load_step-nil skip r s' st e n, load_loop),
    e,
    ap (with_uuids r.it) (sym (kept-nil (skip - r.seen) r.it.uuids)),
  )
  load_loop-kept (suc fuel) skip (y ∷ ys) r st e (s', n, rest) b k f =
      let r1 : Load W S = record r {
        rest = s';
        seen = r.seen + 1;
        it = record r.it { uuids = grown skip y r.it.uuids (r.seen + 1) };
      } in
      let (r', run, same, it) =
        load_loop-kept fuel skip ys r1 st e rest (omega arith) k (omega arith) in
      (
        r',
        rw (load_step-cons skip y r s' st e n (omega arith) k, load_loop) run,
        same,
        it ∙ ap (with_uuids r.it) (grown-kept skip r.seen y r.it.uuids ys),
      )
