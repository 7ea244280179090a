-- ===== src/S3.antt =====
-- s3/service.go: the interface `ReadWriter`, over a world `W` and the stored bytes `B`.
pub mod Service
use publish_carousel.Prelude.{String, Option, Error, Result}

pub record ReadWriter (W B : Type 0) : Type 0 where
  -- id, key, body, content type
  pub write : String → String → B → String → W → W × Option Error
  -- none where the key is not found; else the body and its content type, which may be missing
  pub read : String → W → W × Result (Option (B × Option String))
  pub get_latest_key_for_id : String → W → W × Result String
