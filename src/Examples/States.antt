-- ===== src/Examples/States.antt =====
-- The states of a cycle, and their JSON.
use publish_carousel.Prelude.{String, ◌≡◌, ◌↔◌, [], ◌∷◌}
use publish_carousel.Scheduler.States.{update, contains, stopped_state, unhealthy_state}
use publish_carousel.Scheduler.States.Canonical.{update_iff}

update_iff_example :
    (update (unhealthy_state ∷ stopped_state ∷ [])
      ≡ update (stopped_state ∷ unhealthy_state ∷ stopped_state ∷ []))
    ↔ ((j : String)
        → contains j (unhealthy_state ∷ stopped_state ∷ [])
          ≡ contains j (stopped_state ∷ unhealthy_state ∷ stopped_state ∷ []))
update_iff_example =
    update_iff (unhealthy_state ∷ stopped_state ∷ [])
      (stopped_state ∷ unhealthy_state ∷ stopped_state ∷ [])
