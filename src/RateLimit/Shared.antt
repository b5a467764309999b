-- ===== src/RateLimit/Shared.antt =====
-- Two middlewares with different windows over one RedisLimiter (backend/internal/middleware/ratelimit.go),
-- as backend/internal/api/server.go sets them up for logins and for inbound webhooks.
use Prim.Native.Nat.{max}
use vaultscan.Prelude.{ℕ, ◌+◌, ◌-◌, ◌≤◌, ◌<◌, ◌≡◌, ◌∙◌, false, ltb, Bytes, bytes_equal_refl, arith}
use vaultscan.RateLimit.Redis.{SortedSets, Laws, sliding_window}

module _ (r : SortedSets) (law : Laws r) (window window' now : ℕ) (key member' : Bytes)
    (d : r.Db) where
  abbrev kept : r.Db
  kept = r.zremrangebyscore now key (now - window') d

  stored-above :
      0 < window
      → window' ≤ window
      → window ≤ now
      → law.holds key member' kept ≡ false
      → law.above now key
          (now - window)
          (r.expire now key (window' + 1) (r.zadd now key now member' kept))
        ≡ law.above now key (now - window') d + 1
  stored-above p w late new =
      let same = bytes_equal_refl key in
      let shorter : max (now - window') (now - window) ≡ now - window' = omega arith in
      let before = law.above-zrem now (now - window') now (now - window) key key d (omega arith) in
      law.above-zadd now (window' + 1) now (now - window) member' key key kept (omega arith) new
      ∙ ground (arith, same, before, shorter)

-- If the script grants with one limit and window, then the script at the same key and second, with
-- another limit and a window at least as long, decides by the charges in the shorter window only,
-- however many were made in its own.
pub shared_window :
    (r : SortedSets) (law : Laws r) (limit window limit' window' now : ℕ)
    (key member member' : Bytes) (d : r.Db)
    → 0 < window
    → window' ≤ window
    → window ≤ now
    → law.holds key member' (r.zremrangebyscore now key (now - window') d) ≡ false
    → law.above now key (now - window') d < limit'
    → let d' = (sliding_window r key now window' limit' member' d).1 in
      (sliding_window r key now window limit member d').0
      ≡ ltb (law.above now key (now - window') d + 1) limit
unfolding sliding_window
shared_window r law limit window limit' window' now key member member' d p w late new few =
    let counted = stored-above r law window window' now key member' d p w late new in
    let first = law.zcard-zrem now (now - window') key d in
    let kept = r.zremrangebyscore now key (now - window') d in
    let d' = r.expire now key (window' + 1) (r.zadd now key now member' kept) in
    ground (arith, counted, first, law.zcard-zrem now (now - window) key d')
