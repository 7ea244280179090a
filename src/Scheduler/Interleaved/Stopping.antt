-- ===== src/Scheduler/Interleaved/Stopping.antt =====
-- scheduler/cycle.go: what the goroutine of a cycle still does once it was stopped.
use publish_carousel.Prelude.{
  ℕ, suc, ◌+◌, ◌≤◌, ◌≡◌, refl, true, List, [], ◌∷◌, arith, ◌==◌, Bool-cases, inl, inr,
}
use publish_carousel.Native.InMemory.{length_in_memory}
use publish_carousel.Scheduler.Interleaved.{
  Pc, building, reading_iteration, reading_attempts, storing, queueing, checked, holding,
  publishing, finishing, leaving, gone, Shared, Act, takes, prepares, counts, other, Step, refused,
  built, reads_iteration, reads_attempts, stores, interrupted, goes_on, next, finished, passes_over,
  prepared, progress, counted_end, left, cancels, updates, clears, Runs, here, later,
}

-- How often a run took a UUID, called `Prepare`, and counted an item.
abbrev pub taken : List Act → ℕ
taken [] = 0
taken (takes ∷ acts) = suc (taken acts)
taken (_ ∷ acts) = taken acts

abbrev pub handed : List Act → ℕ
handed [] = 0
handed (prepares ∷ acts) = suc (handed acts)
handed (_ ∷ acts) = handed acts

abbrev pub counted : List Act → ℕ
counted [] = 0
counted (counts ∷ acts) = suc (counted acts)
counted (_ ∷ acts) = counted acts

-- What a goroutine may still do of each once the context is cancelled.
abbrev pub to_take : Pc → ℕ
to_take (checked uuids) = 1
to_take _ = 0

abbrev pub to_hand : Pc → ℕ
to_hand (checked uuids) = 1
to_hand (holding uuid uuids) = 1
to_hand _ = 0

abbrev pub to_count : Pc → ℕ
to_count (checked uuids) = 1
to_count (holding uuid uuids) = 1
to_count (publishing uuid uuids) = 1
to_count finishing = 1
to_count _ = 0

-- A step of a stopped cycle stays stopped, and does what its place still allowed.
abbrev Winds : Shared → Shared → Act → Type 0
Winds s t a =
    (t.cancelled ≡ true)
    × (taken (a ∷ []) + to_take t.pc ≤ to_take s.pc)
    × (handed (a ∷ []) + to_hand t.pc ≤ to_hand s.pc)
    × (counted (a ∷ []) + to_count t.pc ≤ to_count s.pc)

step-Winds : {s t : Shared} {a : Act} → Step s a t → s.cancelled ≡ true → Winds s t a
step-Winds (refused skip e) c = (c, omega arith, omega arith, omega arith)
step-Winds (built skip it e) c = (c, omega arith, omega arith, omega arith)
step-Winds (reads_iteration skip it e) c = (c, omega arith, omega arith, omega arith)
step-Winds (reads_attempts skip it i e) c = (c, omega arith, omega arith, omega arith)
step-Winds (stores skip it i n e) c = elim (Bool-cases (length_in_memory it == 0)) [
  | inl bare ↦ rw bare (c, omega arith, omega arith, omega arith)
  | inr more ↦ rw more (c, omega arith, omega arith, omega arith)
]
step-Winds (interrupted uuids e k) c = (c, omega arith, omega arith, omega arith)
step-Winds (goes_on uuids e k) c = cc (c, k)
step-Winds (next uuid uuids e) c = rw e (c, omega arith, omega arith, omega arith)
step-Winds (finished e) c = rw e (c, omega arith, omega arith, omega arith)
step-Winds (passes_over uuid uuids e k) c = rw e (c, omega arith, omega arith, omega arith)
step-Winds (prepared uuid uuids e k) c = rw e (c, omega arith, omega arith, omega arith)
step-Winds (progress uuid tx error uuids e) c = rw e (c, omega arith, omega arith, omega arith)
step-Winds (counted_end e) c = rw e (c, omega arith, omega arith, omega arith)
step-Winds (left unhealthy e) c = (c, omega arith, omega arith, omega arith)
step-Winds (cancels is_reset e) c = (refl, omega arith, omega arith, omega arith)
step-Winds (updates is_reset e) c = (c, omega arith, omega arith, omega arith)
step-Winds (clears e) c = (c, omega arith, omega arith, omega arith)

taken-cons : (a : Act) (acts : List Act) → taken (a ∷ acts) ≡ taken (a ∷ []) + taken acts
taken-cons takes acts = omega arith
taken-cons prepares acts = omega arith
taken-cons counts acts = omega arith
taken-cons other acts = omega arith

handed-cons : (a : Act) (acts : List Act) → handed (a ∷ acts) ≡ handed (a ∷ []) + handed acts
handed-cons takes acts = omega arith
handed-cons prepares acts = omega arith
handed-cons counts acts = omega arith
handed-cons other acts = omega arith

counted-cons : (a : Act) (acts : List Act) → counted (a ∷ acts) ≡ counted (a ∷ []) + counted acts
counted-cons takes acts = omega arith
counted-cons prepares acts = omega arith
counted-cons counts acts = omega arith
counted-cons other acts = omega arith

within_one : (pc : Pc) → (to_take pc ≤ 1) × (to_hand pc ≤ 1) × (to_count pc ≤ 1)
within_one (building skip) = (omega arith, omega arith, omega arith)
within_one (reading_iteration skip it) = (omega arith, omega arith, omega arith)
within_one (reading_attempts skip it i) = (omega arith, omega arith, omega arith)
within_one (storing skip it i n) = (omega arith, omega arith, omega arith)
within_one (queueing uuids) = (omega arith, omega arith, omega arith)
within_one (checked uuids) = (omega arith, omega arith, omega arith)
within_one (holding uuid uuids) = (omega arith, omega arith, omega arith)
within_one (publishing uuid uuids) = (omega arith, omega arith, omega arith)
within_one finishing = (omega arith, omega arith, omega arith)
within_one (leaving unhealthy) = (omega arith, omega arith, omega arith)
within_one gone = (omega arith, omega arith, omega arith)

run-Winds :
    {s t : Shared} {acts : List Act}
    → Runs s acts t
    → s.cancelled ≡ true
    → (taken acts + to_take t.pc ≤ to_take s.pc)
      × (handed acts + to_hand t.pc ≤ to_hand s.pc)
      × (counted acts + to_count t.pc ≤ to_count s.pc)
run-Winds here c = (omega arith, omega arith, omega arith)
run-Winds (later {s} {t} {u} {a} {acts} step rest) c =
    let (c', x, y, z) = step-Winds step c in
    let (k, l, m) = run-Winds rest c' in
    (
      omega (arith, k, x, taken-cons a acts),
      omega (arith, l, y, handed-cons a acts),
      omega (arith, m, z, counted-cons a acts),
    )

-- Once the context is cancelled, whatever the goroutine and the caller of `Stop` or `Reset` do, and
-- whatever the database and the task answer: a UUID is taken from the collection only if the test of
-- the context was passed before, `Prepare` is called only if the test was passed or a UUID was taken
-- before, and an item is counted only if one of these or the end of the collection was under way;
-- so each happens once at most. What was still allowed and has not
-- happened is still allowed at the end.
pub Runs-cancelled :
    {s t : Shared} {acts : List Act}
    → Runs s acts t
    → s.cancelled ≡ true
    → ((taken acts + to_take t.pc ≤ to_take s.pc) × (to_take s.pc ≤ 1))
      × ((handed acts + to_hand t.pc ≤ to_hand s.pc) × (to_hand s.pc ≤ 1))
      × ((counted acts + to_count t.pc ≤ to_count s.pc) × (to_count s.pc ≤ 1))
Runs-cancelled {s} r c =
    let (k, l, m) = run-Winds r c in let (x, y, z) = within_one s.pc in ((k, x), (l, y), (m, z))
