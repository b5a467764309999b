-- ===== src/Breaker.antt =====
-- backend/internal/circuitbreaker/breaker.go: the circuit breaker of the outbound calls.
pub mod Sequence
pub mod Threads
use vaultscan.Prelude.{
  ℕ, ◌+◌, ◌-◌, Bool, true, false, ◌||◌, Option, none, some, List, [], ◌∷◌, ltb, leb, ◌==◌,
  if◌then◌else◌,
}

pub data State : Type 0 where
  closed open_ half_open : State

pub data Metric : Type 0 where
  close_event open_event reset_event : Metric

-- Numbers of failures and times; the times are nanoseconds of one clock that does not go back.
pub record Config : Type 0 where
  pub max_failures : ℕ
  pub cooldown : ℕ

pub record Breaker : Type 0 where
  pub cfg : Config
  pub state : State
  pub failures : ℕ
  pub opened_at : ℕ

-- `New`; a 0 stands for every setting that is not positive, and 30 s are counted in nanoseconds.
unfoldable pub new : Config → Breaker
new cfg = record {
  cfg = record {
    max_failures = if cfg.max_failures == 0 then 5 else cfg.max_failures;
    cooldown = if cfg.cooldown == 0 then 30_000_000_000 else cfg.cooldown;
  };
  state = closed;
  failures = 0;
  opened_at = 0;
}

abbrev pub is_closed : State → Bool
is_closed closed = true
is_closed _ = false

abbrev pub is_half_open : State → Bool
is_half_open half_open = true
is_half_open _ = false

-- `recordOutcome` at time `now`, and the metric that it emits.
unfoldable pub record_outcome : ℕ → Bool → Breaker → Breaker × Option Metric
record_outcome now true b =
    let b' = record b { failures = 0 } in
    if is_closed b.state then (b', none) else (record b' { state = closed }, some close_event)
record_outcome now false b =
    let b' = record b { failures = b.failures + 1 } in
    if is_half_open b.state || leb b.cfg.max_failures (b.failures + 1)
    then (record b' { state = open_; opened_at = now }, some open_event)
    else (b', none)

unfoldable pub reset : Breaker → Breaker × Option Metric
reset b =
    let b' = record b { failures = 0 } in
    if is_closed b.state then (b', none) else (record b' { state = closed }, some reset_event)

-- What `Call` decides before it runs `fn`: the breaker behind the decision, and whether `fn` runs.
-- `State()` and the test under the lock read the same state here; the steps in which another
-- goroutine comes between are those of Breaker/Threads.
unfoldable pub admit : ℕ → Breaker → Breaker × Bool
admit now b = elim b.state [
  | closed ↦ (b, true)
  | open_ ↦
      if leb b.cfg.cooldown (now - b.opened_at)
      then (record b { state = half_open }, true)
      else (b, false)
  | half_open ↦ (b, false)
]

pub data Reply : Type 0 where
  result : Bool → Reply
  breaker_open : Reply

-- `Call` of an `fn` that takes from `now` to `later` and returns no error if `ok`.
unfoldable pub call : ℕ → ℕ → Bool → Breaker → Breaker × Reply
call now later ok b =
    let (b', run) = admit now b in
    if run then ((record_outcome later ok b').0, result ok) else (b', breaker_open)
