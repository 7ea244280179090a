-- ===== src/Scheduler/Overlapping/Ordered.antt =====
-- scheduler/scheduler.go: a `Shutdown` that comes once `Start` has returned.
use publish_carousel.Prelude.{
  ℕ, zero, suc, ◌+◌, ◌≡◌, refl, subst, sym, ap, ◌∙◌, ◌⊎◌, inl, inr, true, false, arith,
}
use publish_carousel.Scheduler.Overlapping.{
  started, ShutdownPc, unasked, stopping, locking, sending, saving, done, Pair, Step, tests, runs,
  starts_cycle, ticks, asks, stops_cycle, halts, locks, sends, saves, Runs, here, later,
}

-- The steps that `Shutdown` has left.
abbrev pub steps_left : ℕ → ShutdownPc → ℕ
steps_left cycles unasked = cycles + 5
steps_left cycles (stopping n) = n + 4
steps_left cycles locking = 3
steps_left cycles sending = 2
steps_left cycles saving = 1
steps_left cycles done = 0

-- What holds once `Start` has returned: the handler has its goroutine until the send, and its lock is
-- taken only for the send.
abbrev Holds : Pair → ShutdownPc → Type 0
Holds s unasked = (s.running ≡ true) × (s.locked ≡ false) × (s.goroutines ≡ 1)
Holds s (stopping n) = (s.locked ≡ false) × (s.goroutines ≡ 1)
Holds s locking = (s.running ≡ false) × (s.locked ≡ false) × (s.goroutines ≡ 1)
Holds s sending = (s.running ≡ false) × (s.goroutines ≡ 1)
Holds s saving = (s.running ≡ false) × (s.locked ≡ false) × (s.goroutines ≡ 0)
Holds s done = (s.running ≡ false) × (s.locked ≡ false) × (s.goroutines ≡ 0)

abbrev At : Pair → Type 0
At s = (s.start_pc ≡ started) × Holds s s.shutdown_pc

abbrev rank : Pair → ℕ
rank s = steps_left s.cycles s.shutdown_pc

advance : {s t : Pair} → Step s t → At s → At t × (suc (rank t) ≡ rank s)
advance (tests e f) (a, h) = cc (a, e)
advance (runs e) (a, h) = cc (a, e)
advance (starts_cycle n e) (a, h) = cc (a, e)
advance (ticks e f) (a, h) = cc (a, e)
advance {s} (asks e f) (a, h) = let k = subst (Holds s) e h in ((a, (k.1, k.2)), rw e (omega arith))
advance {s} (stops_cycle n e) (a, h) = ((a, subst (Holds s) e h), rw e (omega arith))
advance {s} (halts e) (a, h) =
    let k = subst (Holds s) e h in ((a, (refl, k.0, k.1)), rw e (omega arith))
advance {s} (locks e f) (a, h) =
    let k = subst (Holds s) e h in ((a, (k.0, k.2)), rw e (omega arith))
advance {s} (sends n e f) (a, h) =
    let k = subst (Holds s) e h in ((a, (k.0, refl, omega (arith, f, k.1))), rw e (omega arith))
advance {s} (saves e) (a, h) = ((a, subst (Holds s) e h), rw e (omega arith))

run-At : {s t : Pair} {n : ℕ} → Runs s n t → At s → At t × (n + rank t ≡ rank s)
run-At here h = (h, omega arith)
run-At (later step rest) h =
    let (k, one) = advance step h in let (l, more) = run-At rest k in (l, omega (arith, one, more))

moves :
    (pc : ShutdownPc) (s : Pair)
    → s.shutdown_pc ≡ pc
    → Holds s pc
    → (pc ≡ done) ⊎ ((t : Pair) × Step s t)
moves unasked s e h = inr (_, asks e h.0)
moves (stopping zero) s e h = inr (_, halts e)
moves (stopping (suc n)) s e h = inr (_, stops_cycle n e)
moves locking s e h = inr (_, locks e h.1)
moves sending s e h = inr (_, sends 0 e h.1)
moves saving s e h = inr (_, saves e)
moves done s e h = inl refl

ended : (s : Pair) → At s → s.shutdown_pc ≡ done → (s.running ≡ false) × (s.goroutines ≡ 0)
ended s (a, h) e = let k = subst (Holds s) e h in (k.0, k.2)

-- Once `Start` has returned, with its goroutine of the checkpoints, and with no other call and no tick
-- meanwhile: a `Shutdown` that comes then has a
-- step that it can make until it has returned, it returns after one step for each cycle and five
-- more, and the scheduler is stopped then and the goroutine gone.
pub started-done :
    {s t : Pair} {n : ℕ}
    → Runs s n t
    → s.start_pc ≡ started
    → s.shutdown_pc ≡ unasked
    → s.running ≡ true
    → s.locked ≡ false
    → s.goroutines ≡ 1
    → (n + steps_left t.cycles t.shutdown_pc ≡ s.cycles + 5)
      × (((t.shutdown_pc ≡ done) × (t.running ≡ false) × (t.goroutines ≡ 0))
          ⊎ ((u : Pair) × Step t u))
started-done {s} {t} run a e r l g =
    let (k, count) = run-At run (a, subst (Holds s) (sym e) (r, l, g)) in
    (
      count ∙ ap (steps_left s.cycles) e,
      elim (moves t.shutdown_pc t refl k.1) [
        | inl e' ↦ let (x, y) = ended t k e' in inl (e', x, y)
        | inr step ↦ inr step
      ],
    )
