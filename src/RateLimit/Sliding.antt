-- ===== src/RateLimit/Sliding.antt =====
-- What a sliding window promises: the requests that were charged, newest first, and how many of them
-- may fall into one window. It states the contract of backend/internal/middleware/ratelimit.go.
use vaultscan.Prelude.{
  ℕ, ◌+◌, ◌-◌, ◌≤◌, Bool, true, ◌&&◌, List, [], ◌∷◌, ltb, leb, ◌==◌, if◌then◌else◌, Bytes,
  bytes_equal,
}
use vaultscan.Prelude.Result.{Result, ok}
use vaultscan.RateLimit.{over_net, Ask, second, BackendError, Limiter, Response, reaches}

-- The calls of a key later than `lo`, and those of them not later than `hi`.
unfoldable pub used : Bytes → ℕ → List Ask → ℕ
used key lo [] = 0
used key lo (c ∷ cs) =
    let others = used key lo cs in
    if bytes_equal c.key key && ltb lo (second c) then others + 1 else others

unfoldable pub within : Bytes → ℕ → ℕ → List Ask → ℕ
within key lo hi [] = 0
within key lo hi (c ∷ cs) =
    let others = within key lo hi cs in
    if bytes_equal c.key key && (ltb lo (second c) && leb (second c) hi) then others + 1 else others

-- A call is granted, and charged, if fewer than `limit` were charged in the window that it ends.
unfoldable pub allow_sliding : ℕ → ℕ → Ask → List Ask → Result BackendError Bool × List Ask
allow_sliding limit window c charged =
    let free = ltb (used c.key (second c - window) charged) limit in
    if limit == 0
    then (ok true, charged)
    else over_net c.net charged (free, if free then c ∷ charged else charged)

abbrev pub sliding : Limiter
sliding = record { State = List Ask; allow = allow_sliding }

-- The requests that reach the handler.
unfoldable pub reached : List Ask → List Response → List Ask
reached [] rs = []
reached (c ∷ cs) [] = []
reached (c ∷ cs) (r ∷ rs) = let others = reached cs rs in if reaches r then c ∷ others else others

-- Calls in the order of their seconds, from `now` on.
unfoldable pub InOrder : ℕ → List Ask → Type 0
InOrder now (c ∷ cs) = (now ≤ second c) × InOrder (second c) cs
InOrder now [] = Unit
