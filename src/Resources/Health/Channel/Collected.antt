-- ===== src/Resources/Health/Channel/Collected.antt =====
-- resources/healthchecks.go: every interleaving of the goroutines comes to its end, and collects
-- the result of each service once.
use mathlib.Core.List.{Perm, append-nil}
use publish_carousel.Prelude.{
  ℕ, suc, ◌+◌, ◌*◌, ◌≤◌, ◌<◌, ◌≡◌, ◌≢◌, ◌⊎◌, inl, inr, refl, subst, ◌∙◌, Bool, true, List, [], ◌∷◌,
  Option, none, some, ◌==◌, arith, length, word_mod,
}
use publish_carousel.Resources.Health.Channel.{
  CheckResult, Collector, new_collector, Exchange, new_exchange, Move, sends, receives, Moved,
  moved, blocked, panics, take_at, move, play_on, play, is_finished,
}
use publish_carousel.Resources.Health.Channel.Fair.{
  collect_all, IsFair, moves_left, at_state, Kept, new_exchange-IsFair, fair-open, receive-moved,
  move-Kept,
}

-- What is so at the end of the receiving loop.
unfoldable pub Complete : List CheckResult → Exchange → Type 0
Complete results e =
    (is_finished e ≡ true)
    × ((received : List CheckResult) × Perm received results
        × (e.collector ≡ collect_all received new_collector))

module _ (results : List CheckResult) (some_service : 0 < length results)
    (few : length results < word_mod) where
  -- After any moves.
  abbrev Played : ℕ → Exchange → Moved → Type 0
  Played n e (moved e') = IsFair results e' × (n + moves_left e' ≡ moves_left e)
  Played n e blocked = Unit
  Played n e panics = ⊥

  play_on-Played :
      (n : ℕ) (e : Exchange) (a : Moved) (rest : Exchange → Moved)
      → Kept results e a
      → ((e' : Exchange) → IsFair results e' → Played n e' (rest e'))
      → Played (suc n) e (play_on rest a)
  play_on-Played n e (moved e') rest (f, less) all = Played-more (rest e') (all e' f)
    where
      Played-more : (b : Moved) → Played n e' b → Played (suc n) e b
      Played-more (moved e'') (f', l) = (f', omega arith)
      Played-more blocked k = tt
      Played-more panics k = k
  play_on-Played n e blocked rest k all = tt
  play_on-Played n e panics rest k all = k

  play-Played :
      (ms : List Move) (e : Exchange)
      → IsFair results e
      → Played (length ms) e (play (length results) ms e)
  unfolding play
  play-Played [] e f = (f, omega arith)
  play-Played (m ∷ ms) e f =
      play_on-Played (length ms) e (move (length results) m e) _
        (move-Kept results some_service few m e f) (play-Played ms)

  empty-Complete :
      (shut : Bool) (c : Collector)
      → IsFair results (at_state [] none shut c)
      → Complete results (at_state [] none shut c)
  unfolding Complete is_finished
  empty-Complete shut c f =
      let all : (length f.received == length results) ≡ true = ground (arith, f.total) in
      (
        rw (f.closed ∙ all) refl,
        (f.received, subst (λ l. Perm l results) (append-nil f.received) f.perm, f.collected),
      )

  fair-at :
      (ws : List CheckResult) (b : Option CheckResult) (shut : Bool) (c : Collector)
      → IsFair results (at_state ws b shut c)
      → Complete results (at_state ws b shut c)
        ⊎ ((m : Move) × (e' : Exchange) × (move (length results) m (at_state ws b shut c)
              ≡ moved e'))
  unfolding Complete is_finished move take_at
  fair-at ws (some r) shut c f =
      let live = fair-open results some_service few (at_state ws (some r) shut c) f (omega arith) in
      inr (receives, _, receive-moved results some_service few ws r shut c live)
  fair-at (r ∷ ws) none shut c f =
      let live =
        fair-open results some_service few (at_state (r ∷ ws) none shut c) f (omega arith) in
      inr (sends 0, at_state ws (some r) shut c, rw live refl)
  fair-at [] none shut c f = inl (empty-Complete shut c f)

  fair-Complete :
      (e : Exchange)
      → IsFair results e
      → Complete results e ⊎ ((m : Move) × (e' : Exchange) × (move (length results) m e ≡ moved e'))
  unfolding Complete is_finished move
  fair-Complete e f = fair-at e.waiting e.buffer e.is_closed e.collector f

  finished-at :
      (ws : List CheckResult) (b : Option CheckResult) (shut : Bool) (c : Collector)
      → IsFair results (at_state ws b shut c)
      → is_finished (at_state ws b shut c) ≡ true
      → Complete results (at_state ws b shut c)
  unfolding is_finished
  finished-at [] none shut c f h = empty-Complete shut c f
  finished-at ws (some r) shut c f h = ground arith
  finished-at (r ∷ ws) none shut c f h =
      let live =
        fair-open results some_service few (at_state (r ∷ ws) none shut c) f (omega arith) in
      ground arith

  finished-Complete : (e : Exchange) → IsFair results e → is_finished e ≡ true → Complete results e
  finished-Complete e f h = finished-at e.waiting e.buffer e.is_closed e.collector f h

  Played-ne-panics : (n : ℕ) (e : Exchange) (a : Moved) → Played n e a → a ≢ panics
  Played-ne-panics n e (moved e') k h = cc h
  Played-ne-panics n e blocked k h = cc h
  Played-ne-panics n e panics k h = k

  -- For at least one service, and fewer than 2 ^ 64: in no order of the moves is there a send or a
  -- close on a channel that is closed.
  pub play-ne-panics : (ms : List Move) → play (length results) ms (new_exchange results) ≢ panics
  play-ne-panics ms =
      Played-ne-panics (length ms) (new_exchange results) _
        (play-Played ms (new_exchange results) (new_exchange-IsFair results some_service few))

  new_exchange-left : moves_left (new_exchange results) ≡ 2 * length results
  unfolding new_exchange
  new_exchange-left = omega arith

  Played-moved :
      (n : ℕ) (e e' : Exchange) (a : Moved)
      → a ≡ moved e'
      → Played n e a
      → IsFair results e' × (n + moves_left e' ≡ moves_left e)
  Played-moved n e e' a h k = subst (Played n e) h k

  -- For at least one service, and fewer than 2 ^ 64: whatever moves the goroutines made, they were at
  -- most two for each service, and either another move can be made, or the receiving loop is over and
  -- has collected the result of each service once, in some order.
  pub play-Complete :
      (ms : List Move) (e : Exchange)
      → play (length results) ms (new_exchange results) ≡ moved e
      → (length ms ≤ 2 * length results)
        × (Complete results e
            ⊎ ((m : Move) × (e' : Exchange) × (move (length results) m e ≡ moved e')))
  play-Complete ms e h =
      let (f, l) =
        Played-moved (length ms) (new_exchange results) e _ h
          (play-Played ms (new_exchange results) (new_exchange-IsFair results some_service few)) in
      (omega (arith, new_exchange-left), fair-Complete e f)

  -- The receiving loop that is over has collected the result of each service once.
  pub play-received :
      (ms : List Move) (e : Exchange)
      → play (length results) ms (new_exchange results) ≡ moved e
      → is_finished e ≡ true
      → (received : List CheckResult) × Perm received results
        × (e.collector ≡ collect_all received new_collector)
  unfolding Complete
  play-received ms e h done =
      let (f, l) =
        Played-moved (length ms) (new_exchange results) e _ h
          (play-Played ms (new_exchange results) (new_exchange-IsFair results some_service few)) in
      (finished-Complete e f done).1

-- With no service at all, no goroutine can move and the receiving loop is not over: the check waits
-- without end.
no_services_block : (m : Move) → move 0 m (new_exchange []) ≡ blocked
unfolding move take_at new_exchange
no_services_block (sends i) = refl
no_services_block receives = refl
