-- ===== src/Native/Load/Persisted.antt =====
-- native/in_memory_collection.go: `LoadIntoMemory` from the list kept in S3.
use publish_carousel.Prelude.{
  ℕ, suc, ◌<◌, String, ◌≡◌, refl, ap, ◌∙◌, true, false, List, [], ◌∷◌, Option, none, some, Error,
  ok, ◌==◌, is_positive, int_lt, int_lt-ltb, drop, length, arith, sign_bit,
}
use publish_carousel.Native.InMemory.{is_empty}
use publish_carousel.Native.Persist.{Store, read_from_s3}
use publish_carousel.Native.Load.{
  Loader, Load, interrupted, leave, after_ctx, load_step, load_loop, load_from_cursor,
  load_persisted, load_with_store, load_into_memory,
}

module _ {W S B : Type 0} (l : Loader W S B) where
  nonempty : (n : ℕ) (us : List String) → n < length us → is_empty us ≡ false
  nonempty n [] h = elim h [ ]
  nonempty n (u ∷ us) h = refl

  -- A list in S3 that is longer than the positive skip is used from the skip on, and the cursor is
  -- closed unread.
  pub load_into_memory-persisted :
      (fuel : ℕ) (collection : String) (skip : ℕ) (s : S) (w w' : W) (store : Store W B)
      (us : List String)
      → l.store ≡ some store
      → read_from_s3 store collection w ≡ (w', ok us)
      → 0 < skip
      → skip < length us
      → length us < sign_bit
      → load_into_memory l fuel collection skip s w
        ≡ some (
          w',
          l.source.close s,
          ok (record { uuids = drop skip us; collection = collection; skip = skip }, none),
        )
  unfolding load_into_memory
  load_into_memory-persisted fuel collection skip s w w' store us st rd pos lt b =
      let positive : is_positive skip ≡ true = ground arith in
      let longer : int_lt skip (length us) ≡ true =
        int_lt-ltb skip (length us) (omega arith) b ∙ ground arith in
      ap (load_with_store l fuel collection skip s w) st
      ∙ rw positive
          (ap (load_persisted l fuel collection skip s) rd ∙ rw (nonempty skip us lt, longer) refl)

  load_step-cancelled :
      (skip : ℕ) (r : Load W S) (e : Error)
      → l.ctx_err r.world ≡ some e
      → load_step l skip r ≡ leave r interrupted
  unfolding load_step
  load_step-cancelled skip r e c = ap (after_ctx l skip r) c

  load_from_cursor-cancelled :
      (fuel : ℕ) (collection : String) (s : S) (w : W) (e : Error)
      → l.ctx_err w ≡ some e
      → (l.source.length s == 0) ≡ false
      → load_from_cursor l (suc fuel) collection 0 s w
        ≡ some (
          w,
          l.source.close s,
          ok (record { uuids = []; collection = collection; skip = 0 }, none),
        )
  unfolding load_from_cursor load_loop
  load_from_cursor-cancelled fuel collection s w e c nz =
      rw
        (
          nz,
          load_step-cancelled 0
              (record {
                world = w;
                rest = s;
                it = record { uuids = []; collection = collection; skip = 0 };
                seen = 0;
              })
              e c,
          load_loop,
        )
        refl

  -- Where the context is cancelled before the first UUID was read, the loading returns an empty
  -- collection with no error.
  pub load_into_memory-cancelled :
      (fuel : ℕ) (collection : String) (s : S) (w : W) (e : Error)
      → l.ctx_err w ≡ some e
      → (l.source.length s == 0) ≡ false
      → load_into_memory l (suc fuel) collection 0 s w
        ≡ some (
          w,
          l.source.close s,
          ok (record { uuids = []; collection = collection; skip = 0 }, none),
        )
  unfolding load_into_memory
  load_into_memory-cancelled fuel collection s w e c nz = with_store l.store
    where
      with_store :
          (o : Option (Store W B))
          → load_with_store l (suc fuel) collection 0 s w o
            ≡ some (
              w,
              l.source.close s,
              ok (record { uuids = []; collection = collection; skip = 0 }, none),
            )
      with_store none = load_from_cursor-cancelled fuel collection s w e c nz
      with_store (some st) = load_from_cursor-cancelled fuel collection s w e c nz
