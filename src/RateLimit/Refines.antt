-- ===== src/RateLimit/Refines.antt =====
-- RedisLimiter (backend/internal/middleware/ratelimit.go) answers as the list of charges does, whatever
-- Redis forgets in between.
use vaultscan.Prelude.{
  ℕ, ◌-◌, ◌≤◌, ◌<◌, ◌≡◌, ◌∙◌, inl, inr, refl, false, none, List, [], ◌∷◌, ◌==◌, if◌then◌else◌,
  Bytes, Bool-cases,
}
use vaultscan.RateLimit.{Ask, second, Middleware, wrap, serve}
use vaultscan.RateLimit.Redis.{SortedSets, Laws, allow_alone, alone, redis}
use vaultscan.RateLimit.Pool.{Answered, serve-alone}
use vaultscan.RateLimit.Sliding.{within, allow_sliding, sliding, reached, InOrder}
use vaultscan.RateLimit.Bound.{within-fresh}
use vaultscan.RateLimit.Kept.{
  drawn, IsFresh, Keeps, kept, charge, free, IsEmpty, empty-Keeps, script-eq, script-Keeps,
  later-Keeps, over_net-Keeps,
}

module _ (r : SortedSets) (law : Laws r) where
  -- One request: the same answer, and what is kept still fits the charges.
  allow-refines :
      (limit window now : ℕ) (c : Ask) (d : r.Db) (charged past : List Ask)
      → now ≤ second c
      → drawn c.member past ≡ false
      → Keeps r law window now d charged past
      → ((allow_alone r limit window c d).0 ≡ (allow_sliding limit window c charged).0)
        × Keeps r law window
            (second c)
            (allow_alone r limit window c d).1
            (allow_sliding limit window c charged).1
            (c ∷ past)
  unfolding allow_alone allow_sliding
  allow-refines limit window now c d charged past h new s = elim (Bool-cases (limit == 0)) [
    | inl unlimited ↦ rw unlimited (refl, later-Keeps r law window now c d charged past h s)
    | inr bounded ↦
        rw (bounded, script-eq r law limit window now c d charged past h s)
          (over_net-Keeps r law window (second c) (free limit window c charged) c.net d
            (if free limit window c charged
              then charge r law window c (kept r law window c d)
              else kept r law window c d)
            charged (if free limit window c charged then c ∷ charged else charged) (c ∷ past)
            (later-Keeps r law window now c d charged past h s)
            (script-Keeps r law limit window now c d charged past h new s))
  ]

  serve-Keeps :
      (m : Middleware) (now : ℕ) (calls : List Ask) (d : r.Db) (charged past : List Ask)
      → InOrder now calls
      → IsFresh past calls
      → Keeps r law m.window now d charged past
      → serve (alone r) m calls d ≡ serve sliding m calls charged
  unfolding serve wrap InOrder IsFresh
  serve-Keeps m now [] d charged past order fresh s = refl
  serve-Keeps m now (c ∷ calls) d charged past (here, order) (new, fresh) s =
      let (same, s') = allow-refines m.limit m.window now c d charged past here new s in
      rw
        (
          same,
          serve-Keeps m (second c) calls (allow_alone r m.limit m.window c d).1
              (allow_sliding m.limit m.window c charged).1 (c ∷ past) order fresh s',
        )
        refl

-- From an empty database and an empty pool, requests of any keys, one after the other in the order of
-- their seconds, that draw different members get from RedisLimiter, behind `RateLimitMiddleware`, the
-- replies of a list that never forgets a charge, as long as each call gets its reply in time.
pub serve-refines :
    (r : SortedSets) (law : Laws r) (m : Middleware) (calls : List Ask) (d : r.Db)
    → IsEmpty r law d
    → InOrder 0 calls
    → IsFresh [] calls
    → Answered calls
    → serve (redis r) m calls (d, none) ≡ serve sliding m calls []
serve-refines r law m calls d empty order fresh answered =
    serve-alone r m calls d none answered (inl refl)
    ∙ serve-Keeps r law m 0 calls d [] [] order fresh (empty-Keeps r law m.window d empty)

-- From an empty database and an empty pool, requests of any keys, one after the other in the order of
-- their seconds, that draw different members and each get the reply in time: over RedisLimiter a
-- `RateLimitMiddleware` that fails closed and whose limit is not 0 lets no more than its limit of
-- requests of one key through to the handler, in any window of its length.
pub serve-within :
    (r : SortedSets) (law : Laws r) (m : Middleware) (calls : List Ask) (d : r.Db)
    → IsEmpty r law d
    → InOrder 0 calls
    → IsFresh [] calls
    → Answered calls
    → 0 < m.limit
    → m.fail_open ≡ false
    → (k : Bytes) (hi : ℕ)
    → within k (hi - m.window) hi (reached calls (serve (redis r) m calls (d, none))) ≤ m.limit
serve-within r law m calls d empty order fresh answered p f k hi =
    rw (serve-refines r law m calls d empty order fresh answered) (within-fresh m calls p f k hi)
