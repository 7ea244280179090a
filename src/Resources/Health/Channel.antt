-- ===== src/Resources/Health/Channel.antt =====
-- resources/healthchecks.go: the goroutines of `checkServicesGTG` and the one of
-- `getUnhealthyServices`, which meet at a channel with a buffer of one.
-- One goroutine for each service sends the result of its check; one goroutine receives, and closes
-- the channel at the last result. They move in any order: a list of moves is one interleaving.
pub mod Fair
pub mod Collected
use Prim.Native.String.{◌++◌ as append}
use publish_carousel.Prelude.{
  ℕ, zero, suc, String, Bool, true, false, List, [], ◌∷◌, ◌++◌, map, Option, none, some, Error,
  if◌then◌else◌, text_eq, ◌==◌, inc, ◌&&◌,
}

-- A result with a name has an error, as the senders make them.
pub record CheckResult : Type 0 where
  pub service_name : String
  pub error : Option Error

-- What a service's goroutine sends, from the service's name and its `Check`.
unfoldable pub check_result : String → Option Error → CheckResult
check_result name none = record { service_name = ""; error = none }
check_result name (some e) = record { service_name = name; error = some e }

-- `checkedServices`, `unhealthyServices` and `errMsg`.
pub record Collector : Type 0 where
  pub checked_services : ℕ
  pub unhealthy_services : List String
  pub message : String

abbrev pub new_collector : Collector
new_collector = record { checked_services = 0; unhealthy_services = []; message = "" }

abbrev pub error_text : Option Error → String
error_text none = ""
error_text (some e) = e

-- One round of the receiving loop, without the close.
unfoldable pub collect : CheckResult → Collector → Collector
collect r c = record {
  checked_services = inc c.checked_services;
  unhealthy_services =
      if text_eq r.service_name ""
      then c.unhealthy_services
      else c.unhealthy_services ++ r.service_name ∷ [];
  message =
      if text_eq r.service_name ""
      then c.message
      else append c.message (append (error_text r.error) ". ");
}

-- The goroutines that have not sent yet, the channel, and the receiver.
pub record Exchange : Type 0 where
  pub waiting : List CheckResult
  pub buffer : Option CheckResult
  pub is_closed : Bool
  pub collector : Collector

unfoldable pub new_exchange : List CheckResult → Exchange
new_exchange results = record {
  waiting = results;
  buffer = none;
  is_closed = false;
  collector = new_collector;
}

-- The goroutine of this number, among those that wait, sends; or the receiver takes what is there.
pub data Move : Type 0 where
  sends : ℕ → Move
  receives : Move

pub data Moved : Type 0 where
  moved : Exchange → Moved
  blocked panics : Moved

abbrev pub put_back {ℓ} : {A : Type ℓ} → A → Option (A × List A) → Option (A × List A)
put_back x none = none
put_back x (some (y, ys)) = some (y, x ∷ ys)

unfoldable pub take_at {ℓ} : {A : Type ℓ} → ℕ → List A → Option (A × List A)
take_at n [] = none
take_at zero (x ∷ xs) = some (x, xs)
take_at (suc n) (x ∷ xs) = put_back x (take_at n xs)

-- A send panics on a closed channel, and waits for room in the buffer.
abbrev pub send : Exchange → Option CheckResult → Option (CheckResult × List CheckResult) → Moved
send e buffer none = blocked
send e none (some (r, rest)) =
    if e.is_closed then panics else moved (record e { waiting = rest; buffer = some r })
send e (some x) (some (r, rest)) = if e.is_closed then panics else blocked

-- The receiver closes the channel at the last result; a second close panics.
abbrev pub receive : ℕ → Exchange → Option CheckResult → Moved
receive count e none = blocked
receive count e (some r) =
    let c = collect r e.collector in
    let is_last = c.checked_services == count in
    if is_last && e.is_closed
    then panics
    else moved (record e {
      buffer = none;
      collector = c;
      is_closed = if is_last then true else e.is_closed;
    })

unfoldable pub move : ℕ → Move → Exchange → Moved
unfolding collect take_at
move count (sends i) e = send e e.buffer (take_at i e.waiting)
move count receives e = receive count e e.buffer

abbrev pub play_on : (Exchange → Moved) → Moved → Moved
play_on rest (moved e) = rest e
play_on rest blocked = blocked
play_on rest panics = panics

unfoldable pub play : ℕ → List Move → Exchange → Moved
unfolding move
play count [] e = moved e
play count (m ∷ ms) e = play_on (λ e'. play count ms e') (move count m e)

-- The receiving loop ends at a channel that is closed and empty.
abbrev pub is_empty : Option CheckResult → Bool
is_empty none = true
is_empty (some r) = false

unfoldable pub is_finished : Exchange → Bool
is_finished e = e.is_closed && is_empty e.buffer
