-- ===== src/Native/Database/Sessions.antt =====
-- native/mongo.go: how many connections `Open` makes.
use publish_carousel.Prelude.{
  ℕ, zero, suc, ◌≡◌, refl, ◌≤◌, Bool, true, false, Option, none, some, Error, if◌then◌else◌, arith,
}
use publish_carousel.Native.Database.{
  Driver, Database, new_database, expected_connections, dialled, open_session,
}

-- A connection is counted exactly where there is a session.
abbrev pub IsCounted : Database → Type 0
IsCounted db = db.connections ≡ (if db.has_session then 1 else 0)

module _ {W S : Type 0} (driver : Driver W S) where
  dialled-IsCounted :
      (db : Database) (a : W × Option Error)
      → db.has_session ≡ false
      → IsCounted db
      → IsCounted (dialled driver db a).1
  dialled-IsCounted db (w, some e) new h = h
  dialled-IsCounted db (w, none) new h = omega (arith, rw new at h)

  open_at-IsCounted :
      (has : Bool) (n : ℕ) (w : W)
      → IsCounted (record { has_session = has; connections = n })
      → IsCounted (open_session driver (record { has_session = has; connections = n }) w).1
  unfolding open_session
  open_at-IsCounted true n w h = h
  open_at-IsCounted false n w h = dialled-IsCounted _ (driver.dial w) refl h

  open_session-IsCounted :
      (db : Database) (w : W) → IsCounted db → IsCounted (open_session driver db w).1
  open_session-IsCounted db w h = open_at-IsCounted db.has_session db.connections w h

  -- The database after so many calls of `Open`.
  unfoldable pub opens : ℕ → Database → W → W × Database
  opens zero db w = (w, db)
  opens (suc n) db w = let a = open_session driver db w in opens n a.1 a.0

  opens-IsCounted : (n : ℕ) (db : Database) (w : W) → IsCounted db → IsCounted (opens n db w).1
  unfolding opens
  opens-IsCounted zero db w h = h
  opens-IsCounted (suc n) db w h =
      opens-IsCounted n (open_session driver db w).1 (open_session driver db w).0
        (open_session-IsCounted db w h)

  -- Whatever the answers of the driver, after any number of calls of `Open` on a new database there
  -- is at most the one connection that is expected.
  pub opens-connections :
      (n : ℕ) (w : W) → (opens n new_database w).1.connections ≤ expected_connections
  opens-connections n w =
      counted_le (opens n new_database w).1 (opens-IsCounted n new_database w refl)
    where
      counted_le : (db : Database) → IsCounted db → db.connections ≤ expected_connections
      counted_le db h = ground (arith, h)
