-- ===== src/RateLimit/Pool.antt =====
-- The pooled connection of RedisLimiter (backend/internal/middleware/ratelimit.go), while every call gets
-- its reply.
use vaultscan.Prelude.{
  ℕ, ◌≡◌, ◌⊎◌, inl, inr, refl, Bool, Option, none, some, List, [], ◌∷◌, ◌==◌, Bool-cases,
}
use vaultscan.Prelude.Result.{ok}
use vaultscan.RateLimit.{up, over_net, Ask, second, Middleware, wrap, serve}
use vaultscan.RateLimit.Redis.{
  SortedSets, Conn, fresh_conn, next_reply, exchange, sliding_window, prefixed, allow_alone, alone,
  allow_redis, redis,
}

-- Every call gets its reply in time.
abbrev pub Answered : List Ask → Type 0
Answered [] = Unit
Answered (c ∷ cs) = (c.net ≡ up) × Answered cs

-- No connection yet, or one with nothing left on it.
abbrev pub IsClean : Option Conn → Type 0
IsClean k = (k ≡ none) ⊎ (k ≡ some fresh_conn)

exchange-up :
    {S : Type 0} (k : Option Conn) (s s' : S) (granted : Bool)
    → IsClean k
    → exchange up k s (granted, s') ≡ (ok granted, (s', some fresh_conn))
unfolding exchange next_reply
exchange-up k s s' granted (inl e) = rw e refl
exchange-up k s s' granted (inr e) = rw e refl

module _ (r : SortedSets) where
  allow_redis-alone :
      (limit window : ℕ) (c : Ask) (d : r.Db) (k : Option Conn)
      → c.net ≡ up
      → IsClean k
      → (k' : Option Conn) × IsClean k'
        × (allow_redis r limit window c (d, k)
            ≡ ((allow_alone r limit window c d).0, ((allow_alone r limit window c d).1, k')))
  unfolding allow_redis allow_alone over_net sliding_window second
  allow_redis-alone limit window c d k on clean =
      let (granted, d') = sliding_window r (prefixed c.key) (second c) window limit c.member d in
      elim (Bool-cases (limit == 0)) [
        | inl unlimited ↦ (k, clean, rw (unlimited, allow_redis, allow_alone) refl)
        | inr bounded ↦ (
          some fresh_conn,
          inr refl,
          rw (bounded, on, allow_redis, allow_alone) (exchange-up k d d' granted clean),
        )
      ]

  pub serve-alone :
      (m : Middleware) (calls : List Ask) (d : r.Db) (k : Option Conn)
      → Answered calls
      → IsClean k
      → serve (redis r) m calls (d, k) ≡ serve (alone r) m calls d
  unfolding serve wrap
  serve-alone m [] d k on clean = refl
  serve-alone m (c ∷ calls) d k (here, on) clean =
      let (k', clean', same) = allow_redis-alone m.limit m.window c d k here clean in
      rw (same, serve-alone m calls (allow_alone r m.limit m.window c d).1 k' on clean') refl
