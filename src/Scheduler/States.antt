-- ===== src/Scheduler/States.antt =====
-- scheduler/cycle_states.go: the names of a cycle's states, and the sorted set of them.
pub mod Order
pub mod Canonical
pub mod Json
use Prim.Native.String.{compare}
use Prim.Native.Nat.{Ordering}
use publish_carousel.Prelude.{
  String, ◌≡◌, refl, Bool, true, false, List, [], ◌∷◌, if◌then◌else◌, text_eq, ◌||◌, Option, none,
  some, ◌⊎◌, inl, inr, Error,
}

abbrev pub starting_state : String
starting_state = "starting"

abbrev pub running_state : String
running_state = "running"

abbrev pub stopped_state : String
stopped_state = "stopped"

abbrev pub unhealthy_state : String
unhealthy_state = "unhealthy"

abbrev pub cool_down_state : String
cool_down_state = "cooldown"

abbrev pub text_le : String → String → Bool
text_le s t = elim (compare s t) [ Ordering.gt ↦ false | _ ↦ true ]

unfoldable pub insert_text : String → List String → List String
insert_text s [] = s ∷ []
insert_text s (t ∷ ts) = if text_le s t then s ∷ t ∷ ts else t ∷ insert_text s ts

-- `sort.Strings`
unfoldable pub sort_texts : List String → List String
unfolding insert_text
sort_texts [] = []
sort_texts (s ∷ ss) = insert_text s (sort_texts ss)

unfoldable pub contains : String → List String → Bool
contains s [] = false
contains s (t ∷ ts) = text_eq t s || contains s ts

-- The keys of the map that `Update` fills: each state once.
unfoldable pub to_set : List String → List String
unfolding contains
to_set [] = []
to_set (s ∷ ss) = let rest = to_set ss in if contains s rest then rest else s ∷ rest

-- `State.Update`: what is stored. The map gives its keys in any order, and the sort forgets it.
unfoldable pub update : List String → List String
unfolding to_set sort_texts
update states = sort_texts (to_set states)

-- `State`, without its lock.
pub record State : Type 0 where
  pub states : List String

unfoldable pub new_state : State
new_state = record { states = [] }

unfoldable pub update_state : List String → State → State
unfolding update
update_state states s = record { states = update states }

-- Its JSON, over `json.Marshal` and `json.Unmarshal` of a list of texts.
module _ {B : Type 0} (marshal : List String → Error ⊎ B) where
  unfoldable pub marshal_json : State → Error ⊎ B
  marshal_json s = marshal s.states

module _ {B : Type 0} (unmarshal : B → Error ⊎ List String) where
  abbrev after_unmarshal : State → Error ⊎ List String → State × Option Error
  after_unmarshal s (inl e) = (s, some e)
  after_unmarshal s (inr states) = (update_state states s, none)

  unfoldable pub unmarshal_json : B → State → State × Option Error
  unfolding update_state
  unmarshal_json b s = after_unmarshal s (unmarshal b)

test_update : update ("b" ∷ "a" ∷ "b" ∷ []) ≡ "a" ∷ "b" ∷ []
unfolding update
test_update = refl
