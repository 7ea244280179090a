-- ===== src/Scheduler/Cycle/Runs.antt =====
-- scheduler/cycle.go: the goroutines whose contexts `Start` makes and `Stop` cancels. A goroutine that
-- ends by itself stays in the register.
use publish_carousel.Prelude.{
  ℕ, zero, suc, ◌<◌, ◌≡◌, refl, ap, ◌∙◌, Bool, not, List, [], ◌∷◌, Option, none, some, ◌==◌, keep,
  All, arith,
}
use publish_carousel.Scheduler.Cycle.{Cycle, start, stop, cancel_run}

-- The contexts are numbered below the count of those made.
abbrev pub IsNumbered : Cycle → Type 0
IsNumbered c = All (λ r. r < c.contexts) c.runs

All-mono : (n : ℕ) (rs : List ℕ) → All (λ r. r < n) rs → All (λ r. r < suc n) rs
All-mono n [] h = tt
All-mono n (r ∷ rs) (b, h) = (omega arith, All-mono n rs h)

pub start-IsNumbered : (c : Cycle) → IsNumbered c → IsNumbered (start c)
unfolding start
start-IsNumbered c h = (omega arith, All-mono c.contexts c.runs h)

All-keep : (n : ℕ) (p : ℕ → Bool) (rs : List ℕ) → All (λ r. r < n) rs → All (λ r. r < n) (keep p rs)
All-keep n p [] h = tt
All-keep n p (r ∷ rs) (b, h) = ground (arith, All-keep n p rs h)

pub stop-IsNumbered : (c : Cycle) → IsNumbered c → IsNumbered (stop c)
unfolding stop
stop-IsNumbered c h = cancelled c.cancel
  where
    cancelled : (o : Option ℕ) → All (λ r. r < c.contexts) (cancel_run o c.runs)
    cancelled none = h
    cancelled (some x) = All-keep c.contexts _ c.runs h

keep_below : (n : ℕ) (rs : List ℕ) → All (λ r. r < n) rs → keep (λ r. not (r == n)) rs ≡ rs
keep_below n [] h = refl
keep_below n (r ∷ rs) (b, h) = ground (arith, keep_below n rs h)

runs-start : (c : Cycle) → (start c).runs ≡ c.contexts ∷ c.runs
unfolding start
runs-start c = refl

keep_twice : (p : ℕ → Bool) (rs : List ℕ) → keep p (keep p rs) ≡ keep p rs
keep_twice p [] = refl
keep_twice p (r ∷ rs) = ground (arith, keep_twice p rs)

runs-stop-stop : (c : Cycle) → (stop (stop c)).runs ≡ (stop c).runs
unfolding stop
runs-stop-stop c = twice c.cancel
  where
    twice : (o : Option ℕ) → cancel_run o (cancel_run o c.runs) ≡ cancel_run o c.runs
    twice none = refl
    twice (some x) = keep_twice _ c.runs

-- Where every goroutine has the number of an earlier context, a start and then a stop leave the
-- goroutines as they were.
pub runs-stop-start : (c : Cycle) → IsNumbered c → (stop (start c)).runs ≡ c.runs
unfolding start stop
runs-stop-start c h = ground (arith, keep_below c.contexts c.runs h)

abbrev stops : ℕ → Cycle → Cycle
stops zero c = c
stops (suc n) c = stop (stops n c)

runs-stops : (n : ℕ) (c : Cycle) → (stops (suc n) c).runs ≡ (stop c).runs
runs-stops zero c = refl
runs-stops (suc n) c = runs-stop-stop (stops n c) ∙ runs-stops n c

-- Where every goroutine has the number of an earlier context, any number of stops of a cycle that was
-- started twice in a row cancels the context of the second start only.
runs-stop-start-start :
    (n : ℕ) (c : Cycle)
    → IsNumbered c
    → (stops (suc n) (start (start c))).runs ≡ c.contexts ∷ c.runs
runs-stop-start-start n c h =
    runs-stops n (start (start c)) ∙ runs-stop-start (start c) (start-IsNumbered c h) ∙ runs-start c

-- At most one goroutine runs, and it is the one that the cycle can cancel.
pub data IsSingle (c : Cycle) : Type 0 where
  idle : c.runs ≡ [] → IsSingle c
  one : (x : ℕ) → c.cancel ≡ some x → c.runs ≡ x ∷ [] → IsSingle c

none_left : (o : Option ℕ) → cancel_run o [] ≡ []
none_left none = refl
none_left (some x) = refl

stop-IsSingle : (c : Cycle) → IsSingle c → (stop c).runs ≡ []
unfolding stop
stop-IsSingle c (idle e) = rw e (none_left c.cancel)
stop-IsSingle c (one x k e) = rw (k, e, cancel_run) (ground arith)

-- A cycle with at most one goroutine, which it can cancel, is idle after `Stop`, and started then it
-- has one goroutine again, which the next `Stop` ends.
stop-start-IsSingle :
    (c : Cycle)
    → IsSingle c
    → ((stop c).runs ≡ []) × IsSingle (start (stop c)) × ((stop (start (stop c))).runs ≡ [])
unfolding start
stop-start-IsSingle c h =
    let again : IsSingle (start (stop c)) =
      one (stop c).contexts refl (ap (◌∷◌ (stop c).contexts) (stop-IsSingle c h)) in
    (stop-IsSingle c h, again, stop-IsSingle (start (stop c)) again)
