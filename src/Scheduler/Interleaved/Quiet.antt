-- ===== src/Scheduler/Interleaved/Quiet.antt =====
-- scheduler/cycle.go: the goroutine of a stopped cycle ends, and what the cycle shows then.
use publish_carousel.Prelude.{
  ℕ, ◌+◌, ◌≤◌, String, ◌≡◌, refl, ◌⊎◌, inl, inr, true, false, List, [], ◌∷◌, arith, ◌==◌,
  Bool-cases, Bool, if◌then◌else◌, ◌≢◌, none, is_blank,
}
use publish_carousel.Scheduler.States.{stopped_state, unhealthy_state, sort_texts}
use publish_carousel.Scheduler.Metadata.{update_state}
use publish_carousel.Native.InMemory.{length_in_memory}
use publish_carousel.Scheduler.Interleaved.{
  Pc, building, reading_iteration, reading_attempts, storing, queueing, checked, holding,
  publishing, finishing, leaving, gone, Shared, Act, Step, refused, built, reads_iteration,
  reads_attempts, stores, interrupted, goes_on, next, finished, passes_over, prepared, progress,
  counted_end, left, cancels, updates, clears, Runs, here, later,
}

-- Whether a step is the goroutine's, and how many of a run are.
abbrev pub is_own : {s t : Shared} {a : Act} → Step s a t → ℕ
is_own (cancels is_reset e) = 0
is_own (updates is_reset e) = 0
is_own (clears e) = 0
is_own _ = 1

pub own : {s t : Shared} {acts : List Act} → Runs s acts t → ℕ
own here = 0
own (later step rest) = is_own step + own rest

-- The steps that a stopped goroutine has left at most.
abbrev pub rank : Pc → ℕ
rank (checked uuids) = 8
rank finishing = 7
rank (building skip) = 6
rank (reading_iteration skip it) = 5
rank (reading_attempts skip it i) = 4
rank (storing skip it i n) = 3
rank (holding uuid uuids) = 4
rank (publishing uuid uuids) = 3
rank (queueing uuids) = 2
rank (leaving unhealthy) = 1
rank gone = 0

abbrev Descends : {s t : Shared} {a : Act} → Step s a t → Type 0
Descends {s} {t} step = (t.cancelled ≡ true) × (is_own step + rank t.pc ≤ rank s.pc)

step-Descends : {s t : Shared} {a : Act} (step : Step s a t) → s.cancelled ≡ true → Descends step
step-Descends (refused skip e) c = (c, rw e (omega arith))
step-Descends (built skip it e) c = (c, rw e (omega arith))
step-Descends (reads_iteration skip it e) c = (c, rw e (omega arith))
step-Descends (reads_attempts skip it i e) c = (c, rw e (omega arith))
step-Descends (stores skip it i n e) c = elim (Bool-cases (length_in_memory it == 0)) [
  | inl bare ↦ (c, rw (bare, e) (omega arith))
  | inr more ↦ (c, rw (more, e) (omega arith))
]
step-Descends (interrupted uuids e k) c = (c, rw e (omega arith))
step-Descends (goes_on uuids e k) c = cc (c, k)
step-Descends (next uuid uuids e) c = (c, rw e (omega arith))
step-Descends (finished e) c = (c, rw e (omega arith))
step-Descends (passes_over uuid uuids e k) c = (c, rw e (omega arith))
step-Descends (prepared uuid uuids e k) c = (c, rw e (omega arith))
step-Descends (progress uuid tx error uuids e) c = (c, rw e (omega arith))
step-Descends (counted_end e) c = (c, rw e (omega arith))
step-Descends (left unhealthy e) c = (c, rw e (omega arith))
step-Descends (cancels is_reset e) c = (refl, omega arith)
step-Descends (updates is_reset e) c = (c, omega arith)
step-Descends (clears e) c = (c, omega arith)

-- The goroutine has left, or it has a step.
Goes : Shared → Type 0
Goes t = (t.pc ≡ gone) ⊎ ((a : Act) × (u : Shared) × (step : Step t a u) × (is_own step ≡ 1))

goes : (pc : Pc) (t : Shared) → t.pc ≡ pc → t.cancelled ≡ true → Goes t
unfolding Goes
goes (building skip) t e c = inr (_, _, refused skip e, refl)
goes (reading_iteration skip it) t e c = inr (_, _, reads_iteration skip it e, refl)
goes (reading_attempts skip it i) t e c = inr (_, _, reads_attempts skip it i e, refl)
goes (storing skip it i n) t e c = inr (_, _, stores skip it i n e, refl)
goes (checked []) t e c = inr (_, _, finished e, refl)
goes (checked (uuid ∷ uuids)) t e c = inr (_, _, next uuid uuids e, refl)
goes (holding uuid uuids) t e c = elim (Bool-cases (is_blank uuid)) [
  | inl blank ↦ inr (_, _, passes_over uuid uuids e blank, refl)
  | inr full ↦ inr (_, _, prepared uuid uuids e full, refl)
]
goes (queueing uuids) t e c = inr (_, _, interrupted uuids e c, refl)
goes (publishing uuid uuids) t e c = inr (_, _, progress uuid "" none uuids e, refl)
goes finishing t e c = inr (_, _, counted_end e, refl)
goes (leaving unhealthy) t e c = inr (_, _, left unhealthy e, refl)
goes gone t e c = inl e

run_lem :
    {s t : Shared} {acts : List Act} (r : Runs s acts t)
    → s.cancelled ≡ true
    → (t.cancelled ≡ true) × (own r + rank t.pc ≤ rank s.pc)
unfolding own
run_lem here c = (c, omega arith)
run_lem (later step rest) c =
    let (c', k) = step-Descends step c in let (d, l) = run_lem rest c' in (d, omega (arith, k, l))

-- Once the context is cancelled, however the steps of the goroutine and of the caller interleave, the
-- goroutine makes no more steps than its place allows, eight at most, and until it has left it always
-- has one that it can make.
pub Runs-goes :
    {s t : Shared} {acts : List Act} (r : Runs s acts t)
    → s.cancelled ≡ true
    → (own r + rank t.pc ≤ rank s.pc)
      × (rank s.pc ≤ 8)
      × ((t.pc ≡ gone) ⊎ ((a : Act) × (u : Shared) × (step : Step t a u) × (is_own step ≡ 1)))
unfolding Goes
Runs-goes {s} {t} r c = let (d, l) = run_lem r c in (l, at_most s.pc, goes t.pc t refl d)
  where
    at_most : (pc : Pc) → rank pc ≤ 8
    at_most (building skip) = omega arith
    at_most (reading_iteration skip it) = omega arith
    at_most (reading_attempts skip it i) = omega arith
    at_most (storing skip it i n) = omega arith
    at_most (checked uuids) = omega arith
    at_most (holding uuid uuids) = omega arith
    at_most (queueing uuids) = omega arith
    at_most (publishing uuid uuids) = omega arith
    at_most finishing = omega arith
    at_most (leaving unhealthy) = omega arith
    at_most gone = omega arith

-- The states that a cycle shows whose goroutine has left: it was stopped, with an error or without,
-- or it was reset since.
pub data IsQuiet : List String → Type 0 where
  stopped : IsQuiet (stopped_state ∷ [])
  unhealthy : IsQuiet (stopped_state ∷ unhealthy_state ∷ [])
  cleared : IsQuiet []

abbrev Rests : Shared → Type 0
Rests s = s.pc ≡ gone → IsQuiet s.metadata.state

not_gone : (b : Bool) (uuids : List String) → (if b then leaving true else queueing uuids) ≢ gone
not_gone true uuids g = cc g
not_gone false uuids g = cc g

step-Rests : {s t : Shared} {a : Act} → Step s a t → Rests s → Rests t
unfolding update_state sort_texts
step-Rests (refused skip e) h g = cc g
step-Rests (built skip it e) h g = cc g
step-Rests (reads_iteration skip it e) h g = cc g
step-Rests (reads_attempts skip it i e) h g = cc g
step-Rests (stores skip it i n e) h g = absurd (not_gone (length_in_memory it == 0) it.uuids g)
step-Rests (interrupted uuids e k) h g = cc g
step-Rests (goes_on uuids e k) h g = cc g
step-Rests (next uuid uuids e) h g = cc g
step-Rests (finished e) h g = cc g
step-Rests (passes_over uuid uuids e k) h g = cc g
step-Rests (prepared uuid uuids e k) h g = cc g
step-Rests (progress uuid tx error uuids e) h g = cc g
step-Rests (counted_end e) h g = cc g
step-Rests (left true e) h g = unhealthy
step-Rests (left false e) h g = stopped
step-Rests (cancels is_reset e) h g = h g
step-Rests (updates is_reset e) h g = stopped
step-Rests (clears e) h g = cleared

-- From any place of the goroutine but its end, and whatever its cycle shows: once it has left, the
-- cycle shows that it is stopped, with an error or without, or nothing where it was reset.
pub Runs-IsQuiet :
    {s t : Shared} {acts : List Act}
    → Runs s acts t
    → (s.pc ≡ gone → IsQuiet s.metadata.state)
    → t.pc ≡ gone
    → IsQuiet t.metadata.state
Runs-IsQuiet here h g = h g
Runs-IsQuiet (later step rest) h g = Runs-IsQuiet rest (step-Rests step h) g
