-- ===== src/Scheduler/Overlapping/Deadlock.antt =====
-- scheduler/scheduler.go: a `Shutdown` that comes while `Start` still starts its cycles.
use publish_carousel.Prelude.{ℕ, zero, suc, ◌≡◌, refl, true, false}
use publish_carousel.Scheduler.Overlapping.{
  starting, unasked, stopping, sending, Pair, Step, tests, runs, starts_cycle, ticks, asks,
  stops_cycle, halts, locks, sends, saves, Runs, here, later,
}

-- Neither call has returned, and neither can make a step.
pub record IsStuck (s : Pair) : Type 0 where
  pub start_waits : s.start_pc ≡ starting 0
  pub shutdown_waits : s.shutdown_pc ≡ sending
  pub no_step : (t : Pair) → Step s t → ⊥

stuck :
    (s : Pair)
    → s.start_pc ≡ starting 0
    → s.shutdown_pc ≡ sending
    → s.locked ≡ true
    → s.goroutines ≡ 0
    → (t : Pair) → Step s t
    → ⊥
stuck s a b c d t (tests e f) = cc (a, e)
stuck s a b c d t (runs e) = cc (a, e)
stuck s a b c d t (starts_cycle n e) = cc (a, e)
stuck s a b c d t (ticks e f) = cc (c, f)
stuck s a b c d t (asks e f) = cc (b, e)
stuck s a b c d t (stops_cycle n e) = cc (b, e)
stuck s a b c d t (halts e) = cc (b, e)
stuck s a b c d t (locks e f) = cc (b, e)
stuck s a b c d t (sends n e f) = cc (d, f)
stuck s a b c d t (saves e) = cc (b, e)

abbrev Gets : Pair → Type 0
Gets s = (n : ℕ) × (t : Pair) × Runs s n t × IsStuck t

then_stuck : {s t : Pair} → Step s t → Gets t → Gets s
then_stuck step (n, u, run, at_last) = (suc n, u, later step run, at_last)

-- `Shutdown` goes as far as the send, and `Start` as far as the lock.
rest_starts :
    (n : ℕ) (s : Pair)
    → s.start_pc ≡ starting n
    → s.shutdown_pc ≡ sending
    → s.locked ≡ true
    → s.goroutines ≡ 0
    → Gets s
rest_starts zero s a b c d =
    (0, s, here, record { start_waits = a; shutdown_waits = b; no_step = stuck s a b c d })
rest_starts (suc n) s a b c d =
    then_stuck (starts_cycle n a) (rest_starts n (record s { start_pc = starting n }) refl b c d)

rest_stops :
    (k n : ℕ) (s : Pair)
    → s.shutdown_pc ≡ stopping k
    → s.start_pc ≡ starting n
    → s.locked ≡ false
    → s.goroutines ≡ 0
    → Gets s
rest_stops zero n s b a c d =
    then_stuck (halts b) (then_stuck (locks refl c) (rest_starts n _ a refl refl d))
rest_stops (suc k) n s b a c d =
    then_stuck (stops_cycle k b) (rest_stops k n (record s { shutdown_pc = stopping k }) refl a c d)

-- While `Start` still has cycles to start, or is about to start the goroutine of the checkpoints, and
-- none runs, a `Shutdown` can come whose send waits for that goroutine with the lock that `Start`
-- waits for: both calls are blocked for ever.
pub starting-IsStuck :
    (n : ℕ) (s : Pair)
    → s.start_pc ≡ starting n
    → s.running ≡ true
    → s.shutdown_pc ≡ unasked
    → s.locked ≡ false
    → s.goroutines ≡ 0
    → (k : ℕ) × (t : Pair) × Runs s k t × IsStuck t
starting-IsStuck n s a r b c d =
    then_stuck (asks b r)
      (rest_stops s.cycles n (record s { shutdown_pc = stopping s.cycles }) refl a c d)
