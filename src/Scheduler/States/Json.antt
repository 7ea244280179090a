-- ===== src/Scheduler/States/Json.antt =====
-- scheduler/cycle_states.go: the JSON of the states is read back.
use publish_carousel.Prelude.{String, ◌≡◌, ap, List, none, ◌⊎◌, inr, Error}
use publish_carousel.Scheduler.States.{State, update_state, marshal_json, unmarshal_json}
use publish_carousel.Scheduler.States.Canonical.{update-update}

module _ {B : Type 0} (marshal : List String → Error ⊎ B)
    (unmarshal : B → Error ⊎ List String) where
  -- States that were stored by `Update` and encoded with no error are read back into any others as
  -- they were, where the decoder reads what the encoder wrote.
  pub unmarshal_json-marshal_json :
      (names : List String) (s t : State) (b : B)
      → marshal_json marshal (update_state names s) ≡ inr b
      → unmarshal b ≡ inr (update_state names s).states
      → unmarshal_json unmarshal b t ≡ (update_state names s, none)
  unfolding unmarshal_json update_state
  unmarshal_json-marshal_json names s t b encoded decoded =
      rw decoded (ap (λ l. (record { states = l }, none)) (update-update names))
