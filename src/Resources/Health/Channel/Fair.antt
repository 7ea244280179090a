-- ===== src/Resources/Health/Channel/Fair.antt =====
-- resources/healthchecks.go: what every move of the health goroutines keeps.
use mathlib.Core.List.{Perm, append_assoc}
use mathlib.Core.List.Perm
use publish_carousel.Prelude.{
  ℕ, zero, suc, ◌+◌, ◌*◌, ◌<◌, ◌≡◌, inl, inr, refl, sym, ap, subst, ◌∙◌, Bool, false, List, [], ◌∷◌,
  ◌++◌, Option, none, some, ◌==◌, arith, length, length-append, word_mod, Bool-cases,
}
use publish_carousel.Resources.Health.Channel.{
  CheckResult, Collector, new_collector, collect, Exchange, new_exchange, Move, sends, receives,
  Moved, moved, blocked, panics, put_back, take_at, send, receive, move,
}

-- The results in the order in which they were received.
abbrev pub collect_all : List CheckResult → Collector → Collector
collect_all [] c = c
collect_all (r ∷ rs) c = collect_all rs (collect r c)

abbrev pub in_buffer : Option CheckResult → List CheckResult
in_buffer none = []
in_buffer (some r) = r ∷ []

collect_all-append :
    (rs : List CheckResult) (r : CheckResult) (c : Collector)
    → collect_all (rs ++ r ∷ []) c ≡ collect r (collect_all rs c)
collect_all-append [] r c = refl
collect_all-append (x ∷ rs) r c = collect_all-append rs r (collect x c)

-- What was received, what is in the buffer and what waits are the results of all services; and the
-- channel is closed exactly when all were received.
pub record IsFair (results : List CheckResult) (e : Exchange) : Type 0 where
  pub received : List CheckResult
  pub collected : e.collector ≡ collect_all received new_collector
  pub counted : e.collector.checked_services ≡ length received
  pub total : length received + length (in_buffer e.buffer) + length e.waiting ≡ length results
  pub perm : Perm (received ++ (in_buffer e.buffer ++ e.waiting)) results
  pub closed : e.is_closed ≡ (length received == length results)

put_back-some {ℓ} :
    {A : Type ℓ} (o : Option (A × List A)) (x r : A) (rest : List A)
    → put_back x o ≡ some (r, rest)
    → (ys : List A) × (o ≡ some (r, ys)) × (x ∷ ys ≡ rest)
put_back-some none x r rest h = cc h
put_back-some (some (y, ys)) x r rest h = (ys, cc h, cc h)

take_at-perm {ℓ} :
    {A : Type ℓ} (n : ℕ) (l : List A) (r : A) (rest : List A)
    → take_at n l ≡ some (r, rest)
    → Perm (r ∷ rest) l × (length l ≡ suc (length rest))
unfolding take_at
take_at-perm n [] r rest h = cc h
take_at-perm zero (x ∷ xs) r rest h =
    let same : x ∷ xs ≡ r ∷ rest = cc h in
    (subst (λ l. Perm l (x ∷ xs)) same (Perm.refl (x ∷ xs)), ap length same)
take_at-perm (suc n) (x ∷ xs) r rest h =
    let (ys, found, e) = put_back-some (take_at n xs) x r rest h in
    let (p, l) = take_at-perm n xs r ys found in
    subst (λ zs. Perm (r ∷ zs) (x ∷ xs) × (length (x ∷ xs) ≡ suc (length zs))) e
      (Perm.trans (Perm.swap x r ys) (Perm.cons x p), ap suc l)

-- The moves that are left.
abbrev pub moves_left : Exchange → ℕ
moves_left e = length (in_buffer e.buffer) + 2 * length e.waiting

abbrev pub at_state : List CheckResult → Option CheckResult → Bool → Collector → Exchange
at_state ws b shut c = record { waiting = ws; buffer = b; is_closed = shut; collector = c }

-- A move that is made keeps the exchange fair and is one less to make; none panics.
abbrev pub Kept : List CheckResult → Exchange → Moved → Type 0
Kept results e (moved e') = IsFair results e' × (suc (moves_left e') ≡ moves_left e)
Kept results e blocked = Unit
Kept results e panics = ⊥

module _ (results : List CheckResult) (some_service : 0 < length results)
    (few : length results < word_mod) where
  pub new_exchange-IsFair : IsFair results (new_exchange results)
  unfolding new_exchange
  new_exchange-IsFair = record {
    received = [];
    collected = refl;
    counted = refl;
    total = omega arith;
    perm = Perm.refl results;
    closed = ground arith;
  }

  -- The channel is open while something is to be received.
  pub fair-open :
      (e : Exchange)
      → IsFair results e
      → 0 < length (in_buffer e.buffer) + length e.waiting
      → e.is_closed ≡ false
  fair-open e f more = f.closed ∙ less (omega (arith, f.total))
    where
      less : length f.received < length results → (length f.received == length results) ≡ false
      less h = ground arith

  send-Kept :
      (ws : List CheckResult) (b : Option CheckResult) (shut : Bool) (c : Collector)
      (o : Option (CheckResult × List CheckResult))
      → ((r : CheckResult) (rest : List CheckResult)
          → o ≡ some (r, rest)
          → Perm (r ∷ rest) ws × (length ws ≡ suc (length rest)))
      → IsFair results (at_state ws b shut c)
      → Kept results (at_state ws b shut c) (send (at_state ws b shut c) b o)
  send-Kept ws b shut c none taken f = tt
  send-Kept ws (some x) shut c (some (r, rest)) taken f =
      rw (fair-open (at_state ws (some x) shut c) f (omega arith)) tt
  send-Kept ws none shut c (some (r, rest)) taken f =
      let (p, l) = taken r rest refl in
      let live = fair-open (at_state ws none shut c) f (omega arith) in
      rw live (
        record {
          received = f.received;
          collected = f.collected;
          counted = f.counted;
          total = omega (arith, f.total);
          perm = Perm.trans (Perm.append_left f.received p) f.perm;
          closed = sym live ∙ f.closed;
        },
        omega arith,
      )

  pub receive-moved :
      (ws : List CheckResult) (r : CheckResult) (shut : Bool) (c : Collector)
      → shut ≡ false
      → receive (length results) (at_state ws (some r) shut c) (some r)
        ≡ moved (at_state ws none ((collect r c).checked_services == length results) (collect r c))
  receive-moved ws r shut c live =
      rw live (elim (Bool-cases ((collect r c).checked_services == length results)) [
        | inl last ↦ rw last refl
        | inr more ↦ rw more refl
      ])

  receive-Kept :
      (ws : List CheckResult) (b : Option CheckResult) (shut : Bool) (c : Collector)
      → IsFair results (at_state ws b shut c)
      → Kept results (at_state ws b shut c) (receive (length results) (at_state ws b shut c) b)
  unfolding collect
  receive-Kept ws none shut c f = tt
  receive-Kept ws (some r) shut c f =
      let live = fair-open (at_state ws (some r) shut c) f (omega arith) in
      let more = length-append f.received (r ∷ []) in
      let count : (collect r c).checked_services ≡ length (f.received ++ r ∷ []) =
        omega (arith, f.total, f.counted, more, few) in
      subst (Kept results (at_state ws (some r) shut c)) (sym (receive-moved ws r shut c live)) (
        record {
          received = f.received ++ r ∷ [];
          collected =
              ap (collect r) f.collected ∙ sym (collect_all-append f.received r new_collector);
          counted = count;
          total = omega (arith, f.total, more);
          perm = subst (λ l. Perm l results) (sym (append_assoc f.received (r ∷ []) ws)) f.perm;
          closed = ap (λ n. n == length results) count;
        },
        omega arith,
      )

  pub move-Kept :
      (m : Move) (e : Exchange) → IsFair results e → Kept results e (move (length results) m e)
  unfolding move
  move-Kept (sends i) e f =
      send-Kept e.waiting e.buffer e.is_closed e.collector (take_at i e.waiting)
        (take_at-perm i e.waiting) f
  move-Kept receives e f = receive-Kept e.waiting e.buffer e.is_closed e.collector f
