-- ===== src/Examples/Loading.antt =====
-- Loading a collection, from a cursor and from S3, and stopping and starting a cycle.
use publish_carousel.Prelude.{
  ℕ, String, ◌≡◌, refl, Bool, true, List, [], ◌∷◌, Option, none, some, Error, ok, arith, keep,
  is_blank, text_eq,
}
use publish_carousel.Prelude.Int.{ℤ, pos}
use publish_carousel.Examples.Publish.{three}
use publish_carousel.Native.Batch.{compute_batchsize}
use publish_carousel.Native.Builder.{Builder}
use publish_carousel.Native.Collection.{Next}
use publish_carousel.Native.Cursor.{DbIter}
use publish_carousel.Native.InMemory.{InMemory, in_memory, next_in_memory}
use publish_carousel.Native.Load.{Loader, Load, complete, load_loop}
use publish_carousel.Native.Load.Filter.{is_kept, load_loop-kept}
use publish_carousel.Native.Persist.{Store}
use publish_carousel.S3.{ReadWriter}

-- S3 keeps one list, under any key; the world is the list of UUIDs that were prepared.
abbrev pub kept_in_s3 : ReadWriter (List String) (List String)
kept_in_s3 = record {
  write = λ id key body content_type w. (w, none);
  read = λ key w. (w, ok (some ("a" ∷ "b" ∷ "c" ∷ [], some "application/json")));
  get_latest_key_for_id = λ id w. (w, ok "methode-uuids/20170101T00000000.json");
}

abbrev pub store : Store (List String) (List String)
store = record {
  rw = kept_in_s3;
  timestamp = λ w. "20170101T00000000";
  marshal = λ us. us;
  unmarshal = λ us. ok us;
}

-- The blacklist has the UUID "x".
abbrev pub loader : Option Error → Loader (List String) InMemory (List String)
loader cancelled = record {
  ctx_err = λ w. cancelled;
  source = in_memory;
  is_blacklisted = λ uuid w. (w, text_eq uuid "x", none);
  store = some store;
}

abbrev on_cursor : InMemory
on_cursor = record { uuids = "a" ∷ " " ∷ "x" ∷ "b" ∷ []; collection = "methode"; skip = 0 }

abbrev pub nothing_loaded : InMemory
nothing_loaded = record { uuids = []; collection = "methode"; skip = 0 }

abbrev at_start : Load (List String) InMemory
at_start = record { world = []; rest = on_cursor; it = nothing_loaded; seen = 0 }

abbrev verdict : String → Bool × Option Error
verdict uuid = (text_eq uuid "x", none)

abbrev rest_of : List String → InMemory
rest_of us = record { uuids = us; collection = "methode"; skip = 0 }

load_loop-kept_example :
    (r : Load (List String) InMemory) × (load_loop (loader none) 5 0 at_start ≡ some (r, complete))
    × (r.world ≡ [])
    × (r.it ≡ record nothing_loaded {
      uuids = keep (is_kept (loader none) [] verdict) ("a" ∷ " " ∷ "x" ∷ "b" ∷ []);
    })
unfolding next_in_memory
load_loop-kept_example =
    load_loop-kept (loader none) [] verdict 5 0 ("a" ∷ " " ∷ "x" ∷ "b" ∷ []) at_start
      (record { live = refl; answers = λ uuid. refl }) refl
      (
        rest_of (" " ∷ "x" ∷ "b" ∷ []),
        refl,
        (
          rest_of ("x" ∷ "b" ∷ []),
          refl,
          (rest_of ("b" ∷ []), refl, (rest_of [], refl, (rest_of [], refl))),
        ),
      )
      (omega arith) (omega arith) (omega arith)

kept_two : keep (is_kept (loader none) [] verdict) ("a" ∷ " " ∷ "x" ∷ "b" ∷ []) ≡ "a" ∷ "b" ∷ []
unfolding is_blank
kept_two = refl

abbrev builder : Builder (List String) InMemory (List String)
builder = record {
  open_db = λ w. (w, none);
  find_uuids = λ collection skip batch w. (w, ok three);
  loader = loader (some "context canceled");
}

abbrev print_duration : ℤ → String
print_duration i = "1m0s"

one_minute : compute_batchsize print_duration (pos 60000000000) ≡ ok 9
unfolding compute_batchsize
one_minute = refl

-- An iterator over nothing, which has timed out.
abbrev timed_out : DbIter ℕ
timed_out = record { next = λ i. (i, none); err = λ i. none; timeout = λ i. true; close = λ i. i }

abbrev ended : Next
ended = record { finished = true; uuid = ""; error = none }
