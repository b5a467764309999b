-- ===== src/RateLimit.antt =====
-- backend/internal/middleware/ratelimit.go: the contract of a rate limiter and the two middlewares that
-- ask one; RateLimit/Redis holds the one over Redis.
pub mod Bound
pub mod Redis
pub mod Pool
pub mod Shared
pub mod Sliding
pub mod Kept
pub mod Refines
use vaultscan.Prelude.{
  ℕ, ◌+◌, ◌*◌, ◌/◌, Bool, true, false, List, [], ◌∷◌, ◌==◌, if◌then◌else◌, Bytes,
}
use vaultscan.Prelude.Result.{Result, ok, err}

-- What happens to the round trip to the store. Its command may not get there; it may run, but the reply
-- comes too late, or the connection ends before it.
pub data Net : Type 0 where
  up unreachable lost reset : Net

-- A call of `Allow` with what it draws from outside: the time in nanoseconds, and the member that
-- the sorted set is to take up.
pub record Ask : Type 0 where
  pub key : Bytes
  pub now : ℕ
  pub member : Bytes
  pub net : Net

-- time.Now().Unix()
unfoldable pub second : Ask → ℕ
second c = c.now / 1_000_000_000

pub data BackendError : Type 0 where
  backend : BackendError

-- What a round trip is to mean: what comes back of a script that grants or not, and the state that it
-- leaves.
unfoldable pub over_net {ℓ} : {S : Type ℓ} → Net → S → Bool × S → Result BackendError Bool × S
over_net up s (granted, s') = (ok granted, s')
over_net unreachable s after = (err backend, s)
over_net lost s (granted, s') = (err backend, s')
over_net reset s (granted, s') = (err backend, s')

-- `Limiter`: `Allow` at a key, a limit and a window in seconds (both not negative).
pub record Limiter : Type 1 where
  pub State : Type 0
  pub allow : ℕ → ℕ → Ask → State → Result BackendError Bool × State

-- `RateLimitMiddleware` but for its limiter.
pub record Middleware : Type 0 where
  pub limit : ℕ
  pub window : ℕ
  pub fail_open : Bool

unfoldable pub new_middleware : ℕ → ℕ → Middleware
new_middleware limit window = record {
  limit = if limit == 0 then 100 else limit;
  window = if window == 0 then 60 else window;
  fail_open = false;
}

-- What a client sees; the first two reach the handler.
pub data Response : Type 0 where
  passed degraded unavailable limited : Response

-- The branches of `Wrap` on the two results of `Allow`.
unfoldable pub reply : Bool → Result BackendError Bool → Response
reply true (err why) = degraded
reply false (err why) = unavailable
reply fail_open (ok true) = passed
reply fail_open (ok false) = limited

unfoldable pub reaches : Response → Bool
reaches passed = true
reaches degraded = true
reaches unavailable = false
reaches limited = false

module _ (l : Limiter) where
  -- `Wrap` of `RateLimitMiddleware`.
  unfoldable pub wrap : Middleware → Ask → l.State → Response × l.State
  wrap m c s = let (answer, s') = l.allow m.limit m.window c s in (reply m.fail_open answer, s')

  -- `Wrap` of `TenantRateLimitMiddleware`: the key is none for an empty `TenantKey`.
  unfoldable pub wrap_tenant : Middleware → ℕ → Bool → Ask → l.State → Response × l.State
  wrap_tenant m multiplier bound c s =
      if multiplier == 0
      then (passed, s)
      else if bound
      then wrap (record m { limit = m.limit * multiplier }) c s
      else (passed, s)

  -- The replies to requests one after the other.
  unfoldable pub serve : Middleware → List Ask → l.State → List Response
  serve m [] s = []
  serve m (c ∷ cs) s = let (r, s') = wrap m c s in r ∷ serve m cs s'
