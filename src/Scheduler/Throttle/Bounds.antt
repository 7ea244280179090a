-- ===== src/Scheduler/Throttle/Bounds.antt =====
-- scheduler/throttle.go: the interval of a throttle lies within its bounds.
use publish_carousel.Prelude.{ℕ, ◌*◌, ◌/◌, ◌≤◌, ◌<◌, ◌≡◌, refl, false, ok, arith, as_int, sign_bit}
use native.Mathlib.Nat.{div-mul-le_self}
use publish_carousel.Prelude.Int.{ℤ, pos, ◌≤ℤ◌, quot, is_zero}
use publish_carousel.Scheduler.Throttle.{cap_delay, determine_rate_interval}

-- Where the least throttle is not above the greatest, and the number of publishes is not 0, there is
-- an interval, and it lies between the two throttles.
determine_rate_interval_bounds :
    (interval lo hi : ℤ) (publishes : ℕ)
    → lo ≤ℤ hi
    → is_zero (as_int publishes) ≡ false
    → (r : ℤ) × (determine_rate_interval interval lo hi publishes ≡ ok r) × (lo ≤ℤ r) × (r ≤ℤ hi)
unfolding determine_rate_interval
determine_rate_interval_bounds interval lo hi publishes h nz =
    (cap_delay lo hi (quot interval (as_int publishes)), rw nz refl, ground arith, ground arith)

scaled : (r q p w : ℕ) → r ≤ q → q * p ≤ w → r * p ≤ w
scaled r q p w h k = grind arith

-- Where the window divided by the publishes is not below the least throttle, that many publishes, at
-- the interval found, take no longer than the window.
determine_rate_interval_fits :
    (window : ℕ) (lo hi : ℤ) (publishes r : ℕ)
    → 0 < publishes
    → publishes < sign_bit
    → lo ≤ℤ pos (window / publishes)
    → determine_rate_interval (pos window) lo hi publishes ≡ ok (pos r)
    → r * publishes ≤ window
unfolding determine_rate_interval quot
determine_rate_interval_fits window lo hi publishes r pos' small h e =
    ground (arith, scaled r (window / publishes) publishes window, div-mul-le_self window publishes)
