-- ===== src/Native/InMemory.antt =====
-- native/in_memory_collection.go: the collection that is held in memory, and its methods.
use publish_carousel.Prelude.{
  ℕ, String, ◌≡◌, Bool, true, false, List, [], ◌∷◌, ◌++◌, Option, none, some, if◌then◌else◌, length,
  add_int,
}
use publish_carousel.Native.Collection.{Next, UuidCollection}

pub record InMemory : Type 0 where
  pub uuids : List String
  pub collection : String
  pub skip : ℕ

abbrev pub is_empty : List String → Bool
is_empty [] = true
is_empty (x ∷ xs) = false

unfoldable pub done : InMemory → Bool
done it = is_empty it.uuids

unfoldable pub length_in_memory : InMemory → ℕ
length_in_memory it = add_int (length it.uuids) it.skip

unfoldable pub append_uuid : InMemory → String → InMemory
append_uuid it uuid = record it { uuids = it.uuids ++ uuid ∷ [] }

-- `shift` reads `uuids[0]`: it panics on an empty slice.
abbrev pub shift_from : List String → InMemory → InMemory × Option String
shift_from [] it = (it, none)
shift_from (x ∷ xs) it = (record it { uuids = xs }, some x)

unfoldable pub shift : InMemory → InMemory × Option String
shift it = shift_from it.uuids it

abbrev pub end_of_list : Next
end_of_list = record { finished = true; uuid = ""; error = none }

abbrev pub item : String → Next
item uuid = record { finished = false; uuid = uuid; error = none }

abbrev pub answer_shift : InMemory × Option String → InMemory × Option Next
answer_shift (it, none) = (it, none)
answer_shift (it, some uuid) = (it, some (item uuid))

unfoldable pub next_in_memory : InMemory → InMemory × Option Next
unfolding done shift
next_in_memory it = if done it then (it, some end_of_list) else answer_shift (shift it)

abbrev pub in_memory : UuidCollection InMemory
in_memory = record { next = next_in_memory; length = length_in_memory; close = λ it. it }

-- `Next` never panics: it shifts only what is there.
pub next_in_memory-nil :
    (it : InMemory) → it.uuids ≡ [] → next_in_memory it ≡ (it, some end_of_list)
unfolding next_in_memory
next_in_memory-nil it e = rw (e, is_empty)

pub next_in_memory-cons :
    (it : InMemory) (x : String) (xs : List String)
    → it.uuids ≡ x ∷ xs
    → next_in_memory it ≡ (record it { uuids = xs }, some (item x))
unfolding next_in_memory
next_in_memory-cons it x xs e = rw (e, is_empty, shift_from)
