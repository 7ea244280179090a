-- ===== src/Examples/Healthy.antt =====
-- Two services, one of them not healthy, and their goroutines in one order.
use publish_carousel.Prelude.{
  ℕ, ◌≤◌, String, ◌≡◌, refl, ◌⊎◌, true, false, List, [], ◌∷◌, map, none, some, err, arith, is_none,
}
use publish_carousel.Scheduler.Mode.{running, is_running}
use publish_carousel.Scheduler.Control.{MetadataReadWriter}
use publish_carousel.Scheduler.Control.Life.{IsWell}
use publish_carousel.Resources.Health.{unhealthy_clusters}
use publish_carousel.Resources.Health.Channel.{
  check_result, collect, Exchange, new_exchange, Move, sends, receives, Moved, moved, take_at, move,
  play, is_finished,
}
use publish_carousel.Resources.Health.Channel.Collected.{Complete, play-Complete}
use publish_carousel.Resources.Health.Clusters.{Service, send_of, unhealthy_clusters-all_healthy}
use publish_carousel.Examples.Schedules.{with_one}

abbrev services : List Service
services = ("kafka-lagcheck", none) ∷ ("pam", some "down") ∷ []

-- The second goroutine sends first.
abbrev moves : List Move
moves = sends 1 ∷ receives ∷ sends 0 ∷ receives ∷ []

abbrev exchange_of : Moved → Exchange
exchange_of (moved e) = e
exchange_of m = new_exchange []

abbrev collected : Exchange
collected = exchange_of (play 2 moves (new_exchange (map send_of services)))

all_moved : play 2 moves (new_exchange (map send_of services)) ≡ moved collected
unfolding play new_exchange check_result move collect take_at
all_moved = refl

all_collected : is_finished collected ≡ true
unfolding play new_exchange check_result is_finished move collect take_at
all_collected = refl

play-Complete_example :
    (4 ≤ 4)
    × (Complete (map send_of services) collected
        ⊎ ((m : Move) × (e' : Exchange) × (move 2 m collected ≡ moved e')))
play-Complete_example =
    play-Complete (map send_of services) (omega arith) (omega arith) moves collected all_moved

-- A scheduler that runs is shut down, as one of the services is not healthy.
abbrev unkept : MetadataReadWriter ℕ
unkept = record {
  load_metadata = λ id w. (w, err "not found");
  write_metadata = λ id c m w. (w, none);
}

abbrev listed : List String → String
listed names = "pam"

running-IsWell : IsWell (with_one running 1)
unfolding is_running
running-IsWell = record { checkpointed = refl; known = λ e. cc e }

unhealthy_clusters-all_healthy_example :
    let (s, w, checked) =
      unhealthy_clusters listed unkept collected.collector (with_one running 1) 0 in
    (is_running s.state ≡ false) × (is_none checked.1 ≡ false)
unhealthy_clusters-all_healthy_example =
    unhealthy_clusters-all_healthy listed unkept services moves collected (with_one running 1) 0
      (omega arith) (omega arith) (refl, (refl, tt)) all_moved all_collected running-IsWell
