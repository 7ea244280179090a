-- ===== src/Start/Serve/Runs.antt =====
-- main.go: events that are served one part after the other.
use publish_carousel.Prelude.{String, ◌≡◌, refl, List, [], ◌∷◌, ◌++◌}
use publish_carousel.Scheduler.Duration.{DurationText}
use publish_carousel.Scheduler.Control.{Scheduler, MetadataReadWriter}
use publish_carousel.Start.Serve.{Event, serve_one, serve}

module _ {W : Type 0} (rw' : MetadataReadWriter W) (d : DurationText) (digest : String → String)
    (to_json : List String → String) where
  pub serve-append :
      (xs ys : List Event) (a : Scheduler × W)
      → serve rw' d digest to_json (xs ++ ys) a
        ≡ serve rw' d digest to_json ys (serve rw' d digest to_json xs a)
  unfolding serve
  serve-append [] ys a = refl
  serve-append (e ∷ xs) ys a = serve-append xs ys (serve_one rw' d digest to_json e a)
