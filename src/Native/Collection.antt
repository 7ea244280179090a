-- ===== src/Native/Collection.antt =====
-- native/native_uuid_collection.go: what one call of `Next` answers, and the interface
-- `UUIDCollection` over a state `S` of the collection.
use publish_carousel.Prelude.{ℕ, String, Bool, Option, Error}

-- The three results of `Next`.
pub record Next : Type 0 where
  pub finished : Bool
  pub uuid : String
  pub error : Option Error

-- `next` gives no answer where the call panics.
pub record UuidCollection (S : Type 0) : Type 0 where
  pub next : S → S × Option Next
  pub length : S → ℕ
  pub close : S → S
